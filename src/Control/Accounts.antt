-- ===== src/Control/Accounts.antt =====
-- src/gvs_call_control.c, `df_gvs_call_control_step`: its later stages, and the step as a whole, account
-- for a call that ends.
use doorfast.Prelude.{
  ℕ, ◌<◌, ◌≡◌, refl, inl, inr, Bool, true, false, ◌&&◌, ◌||◌, some, arith, ◌==◌, Bool-cases, is_ok,
  Address,
}
use doorfast.Session.{Session, ended, in_state, is_active, session_abort}
use doorfast.Deadline.{Deadline}
use doorfast.Call.Command.{hangup, is_command, is_pick, command_serialize}
use doorfast.Call.Sender.{placeholder_fields}
use doorfast.Call.Dispatch.{
  CommandAttempt, Dispatch, at_work, dispatch_current, dispatch_work, dispatch_step,
}
use doorfast.Control.{Control, by_local_hangup, no_control_result}
use doorfast.Control.Step.{
  Work, tick_runtime, start_handshake, step_handshake, send_action, step_dispatch, judge_dispatch,
  unsent_hangup, blamed, is_failed, is_timeout, sent_now, confirm_sent, receive_sent, begin_ack,
  stages, >>=-keeps,
}
use doorfast.Control.Reason.{IsReason, from-IsAccounted, record_terminal-IsAccounted}
use doorfast.Control.Untouched.{
  Untouched, Untouched-Accounts, step_handshake-Untouched, send_action-Untouched,
  begin_ack-Untouched, receive_sent-Untouched,
}
use doorfast.Control.Ticks.{
  Accounts, Ticked, tick_handshake-Ticked, tick_runtime-Accounts, start_handshake-Accounts,
}

confirm_sent-Accounts :
    (s : Session) (c : Control) (before : Dispatch) (local : Address) (now_ms : ℕ) (w v : Work)
    → Accounts s c w
    → confirm_sent before local now_ms w ≡ some v
    → Accounts s c v
unfolding confirm_sent
confirm_sent-Accounts s c before local now_ms w v k h =
    elim (Bool-cases (sent_now before w.control.dispatch)) [
      | inr idle ↦ let e : v ≡ w = ground arith in rw e k
      | inl sent ↦ elim (Bool-cases (is_pick w.control.dispatch.command.kind)) [
        | inr other ↦
            Untouched-Accounts s c w v
              (begin_ack-Untouched local now_ms w v (rw (sent, other) at h)) k
        | inl pick ↦
            let d = w.control.dispatch.command in
            >>=-keeps (Accounts s c) (Accounts s c)
              (receive_sent (command_serialize d 49 (some placeholder_fields)) local now_ms w)
              (begin_ack local now_ms)
              (λ u e.
                Untouched-Accounts s c w u (receive_sent-Untouched d local now_ms w u pick e) k)
              (λ u x a e. Untouched-Accounts s c u x (begin_ack-Untouched local now_ms u x e) a) v
              (rw (sent, pick) at h)
      ]
    ]

-- A command is not for a session that has ended: it is given up, and neither fails nor times out.
dispatch_step-ended :
    (d : Dispatch) (s : Session) (local : Address) (now_ms : ℕ) (send : CommandAttempt)
    → is_ok (dispatch_step d s local now_ms send).0 ≡ true
    → in_state s.state ended ≡ true
    → at_work d.state ≡ true
    → (is_failed (dispatch_step d s local now_ms send).1.state
        || is_timeout (dispatch_step d s local now_ms send).1.state)
      ≡ false
unfolding dispatch_step dispatch_work dispatch_current
dispatch_step-ended d s local now_ms send fine over w = ground arith

-- A hang-up that could not be sent ends the call.
abbrev gives_up : Dispatch → Work → Bool
gives_up before w =
    let d = w.control.dispatch in
    at_work before.state
    && (d.command.session_generation == w.session.generation
        && (is_command d.command.kind hangup && (is_failed d.state || is_timeout d.state)))

judge_dispatch-Untouched :
    (s : Session) (before : Dispatch) (w : Work)
    → gives_up before w ≡ false
    → Untouched w (judge_dispatch s before w)
unfolding judge_dispatch
judge_dispatch-Untouched s before w h =
    (ground arith, ground arith, ground arith, ground arith, ground arith)

judge_dispatch-hangup :
    (s : Session) (before : Dispatch) (w : Work)
    → gives_up before w ≡ true
    → judge_dispatch s before w ≡ unsent_hangup s (blamed w)
unfolding judge_dispatch
judge_dispatch-hangup s before w h = ground arith

unsent_hangup-Accounts :
    (s : Session) (c : Control) (before : Dispatch) (w : Work)
    → 0 < s.generation
    → gives_up before w ≡ true
    → is_active w.session.state ≡ true
    → w.session.generation ≡ s.generation
    → w.control.terminal ≡ c.terminal
    → Accounts s c (unsent_hangup s (blamed w))
unfolding unsent_hangup session_abort IsReason
unsent_hangup-Accounts s c before w g h on number k =
    let b = (blamed w).control in
    let test : ((blamed w).control.dispatch.command.session_generation
            == (blamed w).session.generation
          && (is_command b.dispatch.command.kind hangup
              && (is_failed b.dispatch.state || is_timeout b.dispatch.state)))
        ≡ true =
      ground arith in
    rw (test, on)
      (
        number,
        inl (
          refl,
          from-IsAccounted s c b _ _ k
              (record_terminal-IsAccounted s b _ by_local_hangup b.fault g refl),
        ),
      )

judge_dispatch-Accounts :
    (s : Session) (c : Control) (before : Dispatch) (w : Work)
    → 0 < s.generation
    → (in_state w.session.state ended ≡ true
        → at_work before.state ≡ true
        → (is_failed w.control.dispatch.state || is_timeout w.control.dispatch.state) ≡ false)
    → Accounts s c w
    → Accounts s c (judge_dispatch s before w)
judge_dispatch-Accounts s c before w g stops k = elim (Bool-cases (gives_up before w)) [
  | inr apart ↦
      Untouched-Accounts s c w (judge_dispatch s before w)
        (judge_dispatch-Untouched s before w apart) k
  | inl gone ↦
      let (number, rest) = k in
      rw (judge_dispatch-hangup s before w gone) (elim rest [
        | inl (over, a) ↦ let no = stops over (ground arith) in absurd (ground arith)
        | inr (on, t) ↦ unsent_hangup-Accounts s c before w g gone on number t
      ])
]

step_dispatch-Accounts :
    (s : Session) (c : Control) (send : CommandAttempt) (local : Address) (now_ms : ℕ) (w v : Work)
    → 0 < s.generation
    → Accounts s c w
    → step_dispatch send s local now_ms w ≡ some v
    → Accounts s c v
unfolding step_dispatch
step_dispatch-Accounts s c send local now_ms w v g k h =
    let out = dispatch_step w.control.dispatch w.session local now_ms send in
    let u : Work = record w { control = record w.control { dispatch = out.1 } } in
    elim (Bool-cases (is_ok out.0)) [
      | inr refused ↦ absurd (ground (arith, h))
      | inl fine ↦
          confirm_sent-Accounts s c w.control.dispatch local now_ms
            (judge_dispatch s w.control.dispatch u) v
            (judge_dispatch-Accounts s c w.control.dispatch u g
              (dispatch_step-ended w.control.dispatch w.session local now_ms send fine)
              (Untouched-Accounts s c w u (refl, refl, refl, refl, refl) k))
            (rw fine at h)
    ]

pub work-Accounts :
    (send hand_send : CommandAttempt) (c : Control) (s : Session) (local : Address) (d : Deadline)
    (now_ms : ℕ)
    → is_active s.state ≡ true
    → 0 < s.generation
    → (v : Work) → stages send hand_send c s local d now_ms ≡ some v
    → Accounts s c v
unfolding stages
work-Accounts send hand_send c s local d now_ms was g =
    >>=-keeps P P _ (step_dispatch send s local now_ms)
      (>>=-keeps P P _ (send_action hand_send local now_ms)
        (>>=-keeps P P _ (step_handshake hand_send local now_ms)
          (>>=-keeps P P _ (start_handshake local now_ms)
            (>>=-keeps (Ticked s c) P _ (tick_runtime s local now_ms)
              (λ w e. tick_handshake-Ticked local now_ms begun w was e)
              (λ w u k e. tick_runtime-Accounts s c local now_ms w u was g k e))
            (λ w u k e. start_handshake-Accounts s c local now_ms w u k e))
          (λ w u k e.
            Untouched-Accounts s c w u (step_handshake-Untouched hand_send local now_ms w u e) k))
        (λ w u k e.
          Untouched-Accounts s c w u (send_action-Untouched hand_send local now_ms w u e) k))
      (λ w u k e. step_dispatch-Accounts s c send local now_ms w u g k e)
  where
    begun : Work
    begun = record { control = c; session = s; deadline = d; result = no_control_result }

    P : Work → Type 0
    P = Accounts s c
