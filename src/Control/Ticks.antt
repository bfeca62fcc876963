-- ===== src/Control/Ticks.antt =====
-- src/gvs_call_control.c, `df_gvs_call_control_step`: what its ticks do to a call that is going on, and
-- to the record of its end.
use doorfast.Prelude.{
  ℕ, ◌<◌, ◌≡◌, ◌⊎◌, ◌∙◌, refl, inl, inr, Bool, true, false, none, some, arith, ap, ◌&&◌, if-holds,
  if◌then◌else◌, Bool-cases, ok, is_ok, Address,
}
use doorfast.Session.{Session, ended, in_state, is_active, session_abort}
use doorfast.Deadline.{Deadline, deadline_tick}
use doorfast.Handshake.{Handshake, handshake_start, handshake_tick}
use doorfast.Call.Ack.{Ack, ack_tick}
use doorfast.Receive.{ReceiveResult, nothing_received}
use doorfast.Runtime.{
  Outcome, RuntimeResult, no_runtime, end_expired, record_ack_end, runtime_tick, hang_up,
}
use doorfast.Control.{Control, ControlResult, classify}
use doorfast.Control.Step.{Work, tick_handshake, tick_runtime, start_handshake}
use doorfast.Control.Reason.{
  IsAccounted, timed_out, from-IsAccounted, classify-IsAccounted, classify-terminal,
}

-- A stage that succeeds has passed its test.
if_some :
    {A : Type 0} (b : Bool) {x v : A} → (if b then some x else none) ≡ some v → (b ≡ true) × (v ≡ x)
if_some true h = (refl, ground arith)
if_some false h = absurd (ground arith)

-- The work of a step, for a session `s` that was active and a control `c` when the step began: the call
-- is over and its end is accounted for, or it goes on and the record is as it was.
abbrev pub Accounts : Session → Control → Work → Type 0
Accounts s c w =
    (w.session.generation ≡ s.generation)
    × (((in_state w.session.state ended ≡ true) × IsAccounted s c w.result w.control)
        ⊎ ((is_active w.session.state ≡ true) × (w.control.terminal ≡ c.terminal)))

-- After the tick of the keep-alive.
abbrev pub Ticked : Session → Control → Work → Type 0
Ticked s c w =
    (w.session.generation ≡ s.generation)
    × (w.control.terminal ≡ c.terminal)
    × (in_state w.session.state ended ≡ false
        → (is_active w.session.state ≡ true) × (w.result.handshake.disconnected ≡ false))

module _ (h : Handshake) (s : Session) (local : Address) (now_ms : ℕ) where
  handshake_tick-generation : (handshake_tick h s local now_ms).2.generation ≡ s.generation
  unfolding handshake_tick
  handshake_tick-generation = ground arith

  handshake_tick-active :
      in_state (handshake_tick h s local now_ms).2.state ended ≡ false
      → is_active s.state ≡ true
      → is_active (handshake_tick h s local now_ms).2.state ≡ true
  unfolding handshake_tick
  handshake_tick-active on was = ground arith

  handshake_tick-kept :
      in_state (handshake_tick h s local now_ms).2.state ended ≡ false
      → (handshake_tick h s local now_ms).3.disconnected ≡ false
  unfolding handshake_tick
  handshake_tick-kept on = ground arith

pub tick_handshake-Ticked :
    (local : Address) (now_ms : ℕ) (w v : Work)
    → is_active w.session.state ≡ true
    → tick_handshake local now_ms w ≡ some v
    → Ticked w.session w.control v
unfolding tick_handshake
tick_handshake-Ticked local now_ms w v was h =
    let (fine, e) =
      if_some (is_ok (handshake_tick w.control.handshake w.session local now_ms).0) h in
    rw e (
      handshake_tick-generation w.control.handshake w.session local now_ms,
      refl,
      λ on. (
        handshake_tick-active w.control.handshake w.session local now_ms on was,
        handshake_tick-kept w.control.handshake w.session local now_ms on,
      ),
    )

module _ (d : Deadline) (s : Session) (now_ms : ℕ) where
  deadline_tick-generation : (deadline_tick d s now_ms).2.generation ≡ s.generation
  unfolding deadline_tick
  deadline_tick-generation = ground arith

  deadline_tick-going :
      in_state (deadline_tick d s now_ms).2.state ended ≡ false
      → ((deadline_tick d s now_ms).2 ≡ s) × ((deadline_tick d s now_ms).3 ≡ false)
  unfolding deadline_tick
  deadline_tick-going on = (ground arith, ground arith)

module _ (a : Ack) (s : Session) (d : Deadline) (r : RuntimeResult) where
  end_expired-generation : (end_expired a s d r).0.generation ≡ s.generation
  unfolding end_expired hang_up session_abort
  end_expired-generation = ground arith

  -- Where a call goes on, nothing has expired.
  end_expired-going :
      in_state (end_expired a s d r).0.state ended ≡ false
      → is_active s.state ≡ true
      → ((end_expired a s d r).0 ≡ s) × ((end_expired a s d r).2 ≡ r)
  unfolding end_expired hang_up session_abort
  end_expired-going on was = (ground arith, ground arith)

  end_expired-ended :
      in_state s.state ended ≡ true → in_state (end_expired a s d r).0.state ended ≡ true
  unfolding end_expired hang_up session_abort
  end_expired-ended over = ground arith

-- How a session that is active or has ended comes out of the ticks: it has its number, and where it has
-- not ended it was active and is, and no timeout and no preemption is reported.
abbrev Passed : Session → Outcome → Type 0
Passed s out =
    (out.2.generation ≡ s.generation)
    × (in_state out.2.state ended ≡ false
        → (out.2 ≡ s) × (out.4.session_timed_out ≡ false) × (out.4.receive ≡ nothing_received))

still_active :
    (s t : Session)
    → t ≡ s
    → (in_state s.state ended ≡ true) ⊎ (is_active s.state ≡ true)
    → in_state t.state ended ≡ false
    → is_active t.state ≡ true
still_active s t same (inl over) on = absurd (ground arith)
still_active s t same (inr active) on = rw same active

timed_out-neither :
    (r : ControlResult)
    → r.runtime.session_timed_out ≡ false
    → r.runtime.receive ≡ nothing_received
    → timed_out r ≡ false
timed_out-neither r in_time received = rw (in_time, received) refl

over_or_active :
    (w : Work)
    → (in_state w.session.state ended ≡ false
        → (is_active w.session.state ≡ true) × (w.result.handshake.disconnected ≡ false))
    → (in_state w.session.state ended ≡ true) ⊎ (is_active w.session.state ≡ true)
over_or_active w going = elim (Bool-cases (in_state w.session.state ended)) [
  | inl over ↦ inl over
  | inr on ↦ inr (going on).0
]

runtime_tick-Passed :
    (a : Ack) (identity : Address) (s : Session) (d : Deadline) (now_ms : ℕ)
    → (in_state s.state ended ≡ true) ⊎ (is_active s.state ≡ true)
    → Passed s (runtime_tick a identity s d now_ms)
unfolding runtime_tick
runtime_tick-Passed a identity s d now_ms was =
    let (timed, e, t, timed_out) = deadline_tick d s now_ms in
    let (ticked, b) = ack_tick a t identity now_ms in
    let r = record_ack_end a.state b (record no_runtime { session_timed_out = timed_out }) in
    if-holds (Passed s) (is_ok timed && is_ok ticked)
      (λ fine. (
        end_expired-generation b t e r ∙ deadline_tick-generation d s now_ms,
        λ on. elim (Bool-cases (in_state t.state ended)) [
          | inl over ↦ let gone = end_expired-ended b t e r over in absurd (ground arith)
          | inr going ↦
              let (same, in_time) = deadline_tick-going d s now_ms going in
              let active : is_active t.state ≡ true = still_active s t same was going in
              let (kept, result) = end_expired-going b t e r on active in
              (
                kept ∙ same,
                ap (λ (k : RuntimeResult). k.session_timed_out) result ∙ in_time,
                ap (λ (k : RuntimeResult). k.receive) result,
              )
        ],
      ))
      (λ refused. (refl, λ on. (refl, refl, refl)))

pub tick_runtime-Accounts :
    (s : Session) (c : Control) (local : Address) (now_ms : ℕ) (w v : Work)
    → is_active s.state ≡ true
    → 0 < s.generation
    → Ticked s c w
    → tick_runtime s local now_ms w ≡ some v
    → Accounts s c v
unfolding tick_runtime
tick_runtime-Accounts s c local now_ms w v was g (same, k, going) h =
    let out = runtime_tick w.control.acknowledgement local w.session w.deadline now_ms in
    let acked : Control = record w.control { acknowledgement = out.1 } in
    let result : ControlResult = record w.result { runtime = out.4 } in
    let (fine, e) = if_some (is_ok out.0) h in
    let (number, passes) =
      runtime_tick-Passed w.control.acknowledgement local w.session w.deadline now_ms
        (over_or_active w going) in
    rw e (
      number ∙ same,
      elim (Bool-cases (in_state out.2.state ended)) [
        | inl over ↦ inl (
          over,
          from-IsAccounted s c acked (classify acked s out.2 result) result k
              (classify-IsAccounted acked s out.2 result was g (inl over)),
        )
        | inr on ↦
            let (session, in_time, received) = passes on in
            let (active, kept) = going (rw session at on) in
            inr (
              rw session active,
              classify-terminal acked s out.2 result was g on kept
                    (ap (λ (q : ReceiveResult). q.preempted_session) received)
                    (timed_out-neither result in_time received)
                  ∙ k,
            )
      ],
    )

-- A keep-alive that starts does not give its session up.
fresh_tick :
    (s : Session) (local : Address) (now_ms : ℕ)
    → (handshake_start s local now_ms).0 ≡ ok
    → (handshake_tick (handshake_start s local now_ms).1 s local now_ms).2 ≡ s
unfolding handshake_start handshake_tick
fresh_tick s local now_ms h = ground arith

pub start_handshake-Accounts :
    (s : Session) (c : Control) (local : Address) (now_ms : ℕ) (w v : Work)
    → Accounts s c w
    → start_handshake local now_ms w ≡ some v
    → Accounts s c v
unfolding start_handshake
start_handshake-Accounts s c local now_ms w v (number, inl (over, a)) h =
    let e : v ≡ w = ground arith in rw e (number, inl (over, a))
start_handshake-Accounts s c local now_ms w v (number, inr (on, k)) h = (
  ground (arith, fresh_tick w.session local now_ms),
  inr (ground (arith, fresh_tick w.session local now_ms), ground arith),
)
