-- ===== src/Control/Step.antt =====
-- src/gvs_call_control.c, `df_gvs_call_control_step`: its stages in order, each on the copies that the
-- code works on. A stage that fails gives the step up, and nothing is written.
use doorfast.Prelude.{
  ℕ, ◌≡◌, refl, arith, Bool, true, false, ◌&&◌, ◌||◌, not, Option, none, some, ◌==◌, if◌then◌else◌,
  is_ok, Bytes, Address,
}
use doorfast.Session.{Session, is_active, session_abort}
use doorfast.Deadline.{Deadline, cancelled}
use doorfast.Handshake.{handshake_start, handshake_tick}
use doorfast.Call.Command.{hangup, is_command, is_pick, command_serialize}
use doorfast.Call.Sender.{placeholder_fields}
use doorfast.Call.Dispatch.{Dispatch, DispatchState, CommandAttempt, at_work, dispatch_step}
use doorfast.Call.Ack.{is_sent, ack_begin}
use doorfast.Receive.{receive_datagram}
use doorfast.Runtime.{runtime_tick}
use doorfast.Control.{
  Control, ControlResult, no_control_result, Answer, Fault, dispatch_fails, dispatch_times_out,
  is_cancelled, by_local_hangup, has_ended, record_terminal, classify, handshake_enqueue,
  count_dropped, rest_handshake,
}

-- `next`, `next_session`, `next_deadline` and `next_result`
pub record Work : Type 0 where
  pub control : Control
  pub session : Session
  pub deadline : Deadline
  pub result : ControlResult

infixl 5 ◌>>=◌
abbrev pub ◌>>=◌ : Option Work → (Work → Option Work) → Option Work
none >>= f = none
some w >>= f = f w

-- What holds of the work through a stage that succeeds.
pub >>=-keeps :
    (P Q : Work → Type 0) (o : Option Work) (f : Work → Option Work)
    → ((w : Work) → o ≡ some w → P w)
    → ((w v : Work) → P w → f w ≡ some v → Q v)
    → (v : Work) → (o >>= f) ≡ some v
    → Q v
>>=-keeps P Q none f first next v h = absurd (ground arith)
>>=-keeps P Q (some w) f first next v h = next w v (first w refl) h

abbrev pub confirm_timeout_ms : ℕ
confirm_timeout_ms = 1000

-- The keep-alive ticks, and can give the session up.
unfoldable pub tick_handshake : Address → ℕ → Work → Option Work
tick_handshake local now_ms w =
    let (status, h, s, r) = handshake_tick w.control.handshake w.session local now_ms in
    if is_ok status
    then some (record {
      control = record w.control { handshake = h };
      session = s;
      deadline = if r.disconnected then cancelled else w.deadline;
      result = record w.result { handshake = r };
    })
    else none

-- The acknowledgement and the deadline tick, and the transition is classified.
unfoldable pub tick_runtime : Session → Address → ℕ → Work → Option Work
tick_runtime previous local now_ms w =
    let (status, a, s, d, r) =
      runtime_tick w.control.acknowledgement local w.session w.deadline now_ms in
    let result : ControlResult = record w.result { runtime = r } in
    if is_ok status
    then some (record {
      control = classify (record w.control { acknowledgement = a }) previous s result;
      session = s;
      deadline = d;
      result = result;
    })
    else none

-- A keep-alive is started for a session that has none, and asks at once.
unfoldable pub start_handshake : Address → ℕ → Work → Option Work
start_handshake local now_ms w =
    let (started, h) = handshake_start w.session local now_ms in
    let (ticked, k, s, r) = handshake_tick h w.session local now_ms in
    if w.control.handshake.active || not (is_active w.session.state)
    then some w
    else if is_ok started && is_ok ticked
    then some (record w {
      control = record w.control { handshake = k };
      session = s;
      result = record w.result { handshake = r };
    })
    else none

abbrev pub sent_now : Dispatch → Dispatch → Bool
sent_now before d = not (is_sent before.state) && is_sent d.state

-- The keep-alive's dispatch makes a step.
unfoldable pub step_handshake : CommandAttempt → Address → ℕ → Work → Option Work
step_handshake send local now_ms w =
    let before = w.control.handshake_dispatch in
    let (status, d) = dispatch_step before w.session local now_ms send in
    if is_ok status
    then some (record w {
      control = record w.control { handshake_dispatch = d };
      result = record w.result { handshake_frame_ready = sent_now before d };
    })
    else none

-- The action of the keep-alive is queued, and its dispatch makes another step.
unfoldable pub send_action : CommandAttempt → Address → ℕ → Work → Option Work
send_action send local now_ms w =
    let (enqueued, c) = handshake_enqueue w.control w.result.handshake.action now_ms in
    let dropped = not (is_ok enqueued) in
    let queued : Work = record w {
      control = c;
      result = record w.result { handshake_action_dropped = dropped };
    } in
    let (status, d) = dispatch_step c.handshake_dispatch w.session local now_ms send in
    if not w.result.handshake.action.valid || dropped
    then some queued
    else if is_ok status
    then some (record queued {
      control = record c { handshake_dispatch = d };
      result = record queued.result { handshake_frame_ready = is_sent d.state };
    })
    else none

abbrev pub is_failed : DispatchState → Bool
is_failed DispatchState.failed = true
is_failed _ = false

abbrev pub is_timeout : DispatchState → Bool
is_timeout DispatchState.timeout = true
is_timeout _ = false

abbrev pub is_given_up : DispatchState → Bool
is_given_up DispatchState.cancelled = true
is_given_up _ = false

-- The fault of a dispatch that has ended without being sent.
unfoldable pub dispatch_fault : Work → Fault
dispatch_fault w =
    let d = w.control.dispatch in
    let terminal_for_session =
      has_ended w.control.terminal.end_reason
      && w.control.terminal.generation == w.session.generation in
    let for_session = d.command.session_generation == w.session.generation in
    if is_failed d.state && (not terminal_for_session && for_session)
    then dispatch_fails
    else if is_timeout d.state && (not terminal_for_session && for_session)
    then dispatch_times_out
    else if is_given_up d.state
        && (not terminal_for_session
            && (for_session && not w.result.runtime.receive.preempted_session))
    then is_cancelled
    else w.control.fault

-- A hang-up that could not be sent ends the session all the same.
unfoldable pub unsent_hangup : Session → Work → Work
unsent_hangup previous w =
    let d = w.control.dispatch in
    let (status, s, done) = session_abort w.session in
    if d.command.session_generation == w.session.generation
      && (is_command d.command.kind hangup && (is_failed d.state || is_timeout d.state))
    then record {
      control = record_terminal w.control by_local_hangup w.control.fault previous;
      session = s;
      deadline = cancelled;
      result = record w.result {
        runtime = record w.result.runtime {
          receive = record w.result.runtime.receive {
            ended_transition = done;
            local_hangup = true;
          };
        };
      };
    }
    else w

abbrev pub judged : Work → Work
judged w = record w {
  result = record w.result {
    dispatch_failed = is_failed w.control.dispatch.state;
    dispatch_timed_out = is_timeout w.control.dispatch.state;
    dispatch_cancelled = is_given_up w.control.dispatch.state;
  };
}

abbrev pub blamed : Work → Work
blamed w = record (judged w) { control = record w.control { fault = dispatch_fault (judged w) } }

unfoldable pub judge_dispatch : Session → Dispatch → Work → Work
unfolding unsent_hangup
judge_dispatch previous before w =
    let d = w.control.dispatch in
    if not (at_work before.state)
    then w
    else if is_failed d.state || (is_timeout d.state || is_given_up d.state)
    then unsent_hangup previous (blamed w)
    else judged w

-- The unit receives its own answer or call, which opens the window for the reply.
unfoldable pub receive_sent : Option Bytes → Address → ℕ → Work → Option Work
receive_sent none local now_ms w = none
receive_sent (some frame) local now_ms w =
    let (status, s, d, r) = receive_datagram frame local w.session w.deadline now_ms in
    if is_ok status then some (record w { session = s; deadline = d }) else none

unfoldable pub begin_ack : Address → ℕ → Work → Option Work
begin_ack local now_ms w =
    let (status, a) =
      ack_begin w.control.acknowledgement w.control.dispatch w.session local now_ms
        confirm_timeout_ms in
    if is_ok status
    then some (record w {
      control = record w.control { acknowledgement = a };
      result = record w.result { frame_ready = true; confirmation_started = true };
    })
    else none

-- A command that has been sent waits for its acknowledgement.
unfoldable pub confirm_sent : Dispatch → Address → ℕ → Work → Option Work
unfolding receive_sent begin_ack
confirm_sent before local now_ms w =
    let c = w.control.dispatch.command in
    let received =
      if is_pick c.kind
      then receive_sent (command_serialize c 49 (some placeholder_fields)) local now_ms w
      else some w in
    if sent_now before w.control.dispatch then received >>= begin_ack local now_ms else some w

-- The command's dispatch makes a step, with what follows from it.
unfoldable pub step_dispatch : CommandAttempt → Session → Address → ℕ → Work → Option Work
unfolding judge_dispatch confirm_sent
step_dispatch send previous local now_ms w =
    let before = w.control.dispatch in
    let (status, d) = dispatch_step before w.session local now_ms send in
    if is_ok status
    then confirm_sent before local now_ms
        (judge_dispatch previous before (record w { control = record w.control { dispatch = d } }))
    else none

abbrev pub settle : Option Work → Answer
settle none = none
settle (some w) = some (
  rest_handshake w.session (count_dropped w.result.handshake_action_dropped w.control),
  w.session,
  w.deadline,
  w.result,
)

unfoldable pub stages :
    CommandAttempt → CommandAttempt → Control → Session → Address → Deadline → ℕ → Option Work
unfolding tick_handshake tick_runtime start_handshake step_handshake send_action step_dispatch
stages send hand_send c s local d now_ms =
    some (record { control = c; session = s; deadline = d; result = no_control_result })
    >>= tick_handshake local now_ms
    >>= tick_runtime s local now_ms
    >>= start_handshake local now_ms
    >>= step_handshake hand_send local now_ms
    >>= send_action hand_send local now_ms
    >>= step_dispatch send s local now_ms

-- `df_gvs_call_control_step`
unfoldable pub control_step :
    CommandAttempt → CommandAttempt → Control → Session → Address → Deadline → ℕ → Answer
unfolding stages
control_step send hand_send c s local d now_ms = settle (stages send hand_send c s local d now_ms)

abbrev Settled : Option Work → Control → Session → ControlResult → Type 0
Settled o c s r =
    (w : Work) × (o ≡ some w)
    × (c ≡ rest_handshake w.session (count_dropped w.result.handshake_action_dropped w.control))
    × (s ≡ w.session)
    × (r ≡ w.result)

settle_inv :
    (o : Option Work) {c : Control} {s : Session} {d : Deadline} {r : ControlResult}
    → settle o ≡ some (c, s, d, r)
    → Settled o c s r
settle_inv none h = absurd (ground arith)
settle_inv (some w) h = (w, refl, ground arith, ground arith, ground arith)

-- A step that succeeds has gone through all its stages.
pub control_step_inv :
    (send hand_send : CommandAttempt) (c : Control) (s : Session) (local : Address) (d : Deadline)
    (now_ms : ℕ) {c' : Control} {s' : Session} {d' : Deadline} {r : ControlResult}
    → control_step send hand_send c s local d now_ms ≡ some (c', s', d', r)
    → Settled (stages send hand_send c s local d now_ms) c' s' r
unfolding control_step
control_step_inv send hand_send c s local d now_ms h =
    settle_inv (stages send hand_send c s local d now_ms) h
