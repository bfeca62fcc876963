-- ===== src/Control/Preempt.antt =====
-- src/gvs_receive.c: what gives the session of a call another number.
use doorfast.Prelude.{
  ℕ, ◌≡◌, ◌⊎◌, refl, inl, inr, true, ◌&&◌, ◌||◌, not, some, List, [], ◌∷◌, arith, ◌==◌, Bool-cases,
  if-holds, is_ok, Address,
}
use doorfast.Frame.{Frame, Event, incoming_call, hangup}
use doorfast.Identity.{frame_is_for_identity}
use doorfast.Session.{
  Session, TransitionEvent, is_active, is_event, session_apply, session_preempt, preemption_of,
  session_observe_pick,
}
use doorfast.Deadline.{Deadline, cancelled, deadline_arm, deadline_tick}
use doorfast.Receive.{
  Received, ReceiveResult, empty_event, ring_limit_ms, observe_call, observe_parsed, receive_hangup,
  receive_time_sync, receive_pick, apply_transitions, receive_call, receive_frame, nothing_received,
}

-- The session has its number still, or was preempted.
abbrev pub Kept : Session → Received → Type 0
Kept s out = (out.1.generation ≡ s.generation) ⊎ (out.3.preempted_session ≡ true)

session_apply-generation :
    (s : Session) (f : Frame) (e : Event)
    → is_active s.state ≡ true
    → (session_apply s f e).1.generation ≡ s.generation
unfolding session_apply
session_apply-generation s f e was = ground arith

apply_transitions-session :
    (es : List TransitionEvent) (started_ms : ℕ) (s : Session) (d : Deadline) (r : ReceiveResult)
    → (apply_transitions es started_ms s d r).1 ≡ s
unfolding apply_transitions
apply_transitions-session [] started_ms s d r = refl
apply_transitions-session (e ∷ es) started_ms s d r = ground (
  arith,
  apply_transitions-session es started_ms s cancelled
      (record r { ended_transition = true; preempted_session = true }),
  apply_transitions-session es started_ms s (deadline_arm d s started_ms ring_limit_ms).1 r,
  apply_transitions-session es started_ms s d r,
)

receive_hangup-generation :
    (f : Frame) (identity : Address) (s : Session) (d : Deadline)
    → is_active s.state ≡ true
    → (receive_hangup f identity s d).1.generation ≡ s.generation
unfolding receive_hangup
receive_hangup-generation f identity s d was = ground (
  arith,
  session_apply-generation s (record f { source = s.peer }) (record empty_event { kind = hangup })
      was,
)

receive_time_sync-generation :
    (f : Frame) (identity : Address) (s : Session) (d : Deadline) (now_ms : ℕ)
    → (receive_time_sync f identity s d now_ms).1.generation ≡ s.generation
unfolding receive_time_sync deadline_tick
receive_time_sync-generation f identity s d now_ms = ground arith

receive_pick-generation :
    (f : Frame) (identity : Address) (s : Session) (d : Deadline) (now_ms : ℕ)
    → (receive_pick f identity s d now_ms).1.generation ≡ s.generation
unfolding receive_pick session_observe_pick
receive_pick-generation f identity s d now_ms = ground arith

-- The end and the new call of a preemption are both applied, where that succeeds.
apply_transitions-preempted :
    (s t : Session) (incoming : Address) (now_ms m : ℕ) (d : Deadline) (r : ReceiveResult)
    → is_ok (apply_transitions (preemption_of s incoming now_ms).events m t d r).0 ≡ true
    → (apply_transitions (preemption_of s incoming now_ms).events m t d r).3.preempted_session
      ≡ true
unfolding apply_transitions preemption_of
apply_transitions-preempted s t incoming now_ms m d r h = ground arith

observe_call-transition :
    (f : Frame) (e : Event) (identity : Address) (s : Session) (now_ms : ℕ)
    → is_active s.state ≡ true
    → ((observe_call f e identity s now_ms).1.generation ≡ s.generation)
      ⊎ ((observe_call f e identity s now_ms).2.transition ≡ preemption_of s f.source now_ms)
unfolding observe_call session_preempt
observe_call-transition f e identity s now_ms was =
    ground (arith, session_apply-generation s f e was)

observe_parsed-transition :
    (f : Frame) (e : Event) (identity : Address) (s : Session) (now_ms : ℕ)
    → is_active s.state ≡ true
    → ((observe_parsed (some (f, e)) identity s now_ms).1.generation ≡ s.generation)
      ⊎ ((observe_parsed (some (f, e)) identity s now_ms).2.transition
          ≡ preemption_of s f.source now_ms)
unfolding observe_parsed
observe_parsed-transition f e identity s now_ms was =
    elim (Bool-cases
      (not (is_event e.kind incoming_call) || not (frame_is_for_identity f identity))) [
        | inl other ↦ rw other (inl refl)
        | inr call ↦ rw call (observe_call-transition f e identity s now_ms was)
      ]

receive_call-Kept :
    (f : Frame) (e : Event) (identity : Address) (s : Session) (d : Deadline) (now_ms : ℕ)
    → is_active s.state ≡ true
    → is_ok (receive_call (some (f, e)) identity s d now_ms).0 ≡ true
    → Kept s (receive_call (some (f, e)) identity s d now_ms)
unfolding receive_call
receive_call-Kept f e identity s d now_ms was h =
    let (status, t, seen) = observe_parsed (some (f, e)) identity s now_ms in
    let begun : ReceiveResult = record nothing_received {
      accepted_call = seen.accepted;
      transition = seen.transition;
    } in
    elim (Bool-cases (is_ok (observe_parsed (some (f, e)) identity s now_ms).0)) [
      | inr refused ↦ absurd (ground (arith, h))
      | inl fine ↦ elim (observe_parsed-transition f e identity s now_ms was) [
        | inl same ↦
            rw
              (
                fine,
                apply_transitions-session seen.transition.events seen.transition.ring_started_ms t d
                    begun,
              )
              (inl same)
        | inr new ↦
            rw (fine, new)
              (inr (
                apply_transitions-preempted s t f.source now_ms
                  (preemption_of s f.source now_ms).ring_started_ms d
                  (record begun { transition = preemption_of s f.source now_ms })
                  (rw (fine, new) at h)))
      ]
    ]

pub receive_frame-Kept :
    (f : Frame) (e : Event) (identity : Address) (s : Session) (d : Deadline) (now_ms : ℕ)
    → is_active s.state ≡ true
    → is_ok (receive_frame (some (f, e)) identity s d now_ms).0 ≡ true
    → Kept s (receive_frame (some (f, e)) identity s d now_ms)
unfolding receive_frame
receive_frame-Kept f e identity s d now_ms was =
    if-holds P (f.family == 3 && (f.opcode == 2 && f.payload_length == 1))
      (λ a h. inl (receive_hangup-generation f identity s d was))
      (λ a.
        if-holds P (f.family == 3 && f.opcode == 0x57)
          (λ b h. inl (receive_time_sync-generation f identity s d now_ms))
          (λ b.
            if-holds P (f.family == 3 && (f.opcode == 3 || f.opcode == 0x83))
              (λ p h. inl (receive_pick-generation f identity s d now_ms))
              (λ p. receive_call-Kept f e identity s d now_ms was)))
  where
    P : Received → Type 0
    P out = is_ok out.0 ≡ true → Kept s out
