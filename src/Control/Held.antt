-- ===== src/Control/Held.antt =====
-- src/gvs_call_runtime.c: what a received datagram does to the number of a session.
use doorfast.Prelude.{
  ℕ, ◌≡◌, ◌⊎◌, inl, inr, true, Option, none, some, arith, Bool-cases, if-holds, is_ok, Address,
  if◌then◌else◌, Bytes,
}
use doorfast.Frame.{Frame, Event, parse}
use doorfast.Session.{Session, is_active}
use doorfast.Deadline.{Deadline}
use doorfast.Call.Ack.{Ack, ack_tick}
use doorfast.Runtime.{
  Outcome, RuntimeResult, no_runtime, expected_ack, hangup_expired, hang_up, end_expired,
  record_ack_end, receive_ack, receive_other, runtime_frame, runtime_receive,
}
use doorfast.Control.Preempt.{receive_frame-Kept}

-- The session has its number still, or was preempted, or the unit has hung it up.
abbrev pub Held : Session → Outcome → Type 0
Held s out =
    (out.2.generation ≡ s.generation)
    ⊎ ((out.4.receive.preempted_session ≡ true) ⊎ (out.4.local_hangup ≡ true))

module _ (a : Ack) (f : Frame) (e : Event) (identity : Address) (s : Session) (d : Deadline)
    (now_ms : ℕ) (r : RuntimeResult) where
  receive_ack-local :
      r.local_hangup ≡ true → (receive_ack a f e identity s d now_ms r).4.local_hangup ≡ true
  unfolding receive_ack hang_up
  receive_ack-local h = ground arith

  receive_other-local :
      r.local_hangup ≡ true → (receive_other a f e identity s d now_ms r).4.local_hangup ≡ true
  unfolding receive_other record_ack_end
  receive_other-local h = ground arith

  receive_ack-Held :
      is_active s.state ≡ true
      → is_ok (receive_ack a f e identity s d now_ms r).0 ≡ true
      → Held s (receive_ack a f e identity s d now_ms r)
  unfolding receive_ack hang_up
  receive_ack-Held was h = ground (arith, receive_frame-Kept f e identity s d now_ms was)

  receive_other-Held :
      is_active s.state ≡ true
      → is_ok (receive_other a f e identity s d now_ms r).0 ≡ true
      → Held s (receive_other a f e identity s d now_ms r)
  unfolding receive_other record_ack_end
  receive_other-Held was h = ground (arith, receive_frame-Kept f e identity s d now_ms was)

-- What a frame does once the acknowledgement has ticked.
abbrev after_tick : Ack → Frame → Event → Address → Session → Deadline → ℕ → RuntimeResult → Outcome
after_tick b f e identity s d now_ms r =
    if expected_ack b f
    then receive_ack b f e identity s d now_ms r
    else receive_other b f e identity s d now_ms r

after_tick-local :
    (b : Ack) (f : Frame) (e : Event) (identity : Address) (s : Session) (d : Deadline) (now_ms : ℕ)
    (r : RuntimeResult)
    → r.local_hangup ≡ true
    → (after_tick b f e identity s d now_ms r).4.local_hangup ≡ true
after_tick-local b f e identity s d now_ms r h = ground (
  arith,
  receive_ack-local b f e identity s d now_ms r h,
  receive_other-local b f e identity s d now_ms r h,
)

after_tick-Held :
    (b : Ack) (f : Frame) (e : Event) (identity : Address) (s : Session) (d : Deadline) (now_ms : ℕ)
    (r : RuntimeResult)
    → is_active s.state ≡ true
    → is_ok (after_tick b f e identity s d now_ms r).0 ≡ true
    → Held s (after_tick b f e identity s d now_ms r)
after_tick-Held b f e identity s d now_ms r was =
    if-holds (λ out. is_ok out.0 ≡ true → Held s out) (expected_ack b f)
      (λ x. receive_ack-Held b f e identity s d now_ms r was)
      (λ x. receive_other-Held b f e identity s d now_ms r was)

runtime_frame-Held :
    (a : Ack) (parsed : Option (Frame × Event)) (identity : Address) (s : Session) (d : Deadline)
    (now_ms : ℕ)
    → is_active s.state ≡ true
    → is_ok (runtime_frame a parsed identity s d now_ms).0 ≡ true
    → Held s (runtime_frame a parsed identity s d now_ms)
unfolding runtime_frame end_expired hang_up
runtime_frame-Held a none identity s d now_ms was h = absurd (ground arith)
runtime_frame-Held a (some (f, e)) identity s d now_ms was h =
    let b = (ack_tick a s identity now_ms).1 in
    let r = record_ack_end a.state b no_runtime in
    let t = end_expired b s d r in
    elim (Bool-cases (is_ok (ack_tick a s identity now_ms).0)) [
      | inr refused ↦ absurd (ground (arith, h))
      | inl fine ↦ elim (Bool-cases (hangup_expired b r)) [
        | inl gone ↦
            rw fine (inr (inr (after_tick-local b f e identity t.0 t.1 now_ms t.2 (ground arith))))
        | inr on ↦
            rw (fine, on) (after_tick-Held b f e identity s d now_ms r was (rw (fine, on) at h))
      ]
    ]

-- A datagram that gives the session of a call another number preempts it, unless the unit has hung it up.
pub runtime_receive-Held :
    (a : Ack) (datagram : Bytes) (identity : Address) (s : Session) (d : Deadline) (now_ms : ℕ)
    → is_active s.state ≡ true
    → is_ok (runtime_receive a datagram identity s d now_ms).0 ≡ true
    → Held s (runtime_receive a datagram identity s d now_ms)
unfolding runtime_receive
runtime_receive-Held a datagram identity s d now_ms =
    runtime_frame-Held a (parse datagram) identity s d now_ms
