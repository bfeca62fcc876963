-- ===== src/Control/Ended.antt =====
-- src/gvs_call_control.c: every call that ends is accounted for.
use doorfast.Prelude.{
  ℕ, ◌<◌, ◌≡◌, ◌≢◌, ◌⊎◌, refl, ap, inl, inr, true, false, ◌&&◌, ◌||◌, Option, none, some, arith,
  ◌==◌, ltb, Bool-cases, is_ok, Bytes, Address,
}
use doorfast.Frame.{Frame, Event, parse}
use doorfast.Session.{Session, ended, in_state, is_active}
use doorfast.Deadline.{Deadline}
use doorfast.Call.Dispatch.{CommandAttempt}
use doorfast.Runtime.{Outcome, runtime_receive}
use doorfast.Control.Step.{control_step, control_step_inv}
use doorfast.Control.{
  control_receive, receive_parsed, receive_hand, receive_call_frame, classify, no_control_result,
  Control, ControlResult,
}
use doorfast.Control.Reason.{
  IsReason, IsAccounted, on_record, same-IsAccounted, from-IsAccounted, classify-IsAccounted,
}
use doorfast.Control.Held.{Held, runtime_receive-Held}
use doorfast.Control.Accounts.{work-Accounts}

-- The call of the session `s` is over: the session has ended, or it is another one and the unit did not
-- hang up.
abbrev pub IsOver : Session → Session → ControlResult → Type 0
IsOver s s' r =
    (in_state s'.state ended ≡ true)
    ⊎ ((s'.generation ≢ s.generation) × (r.runtime.local_hangup ≡ false))

control_step-IsAccounted :
    (send hand_send : CommandAttempt) (c : Control) (s : Session) (local : Address) (d : Deadline)
    (now_ms : ℕ) {c' : Control} {s' : Session} {d' : Deadline} {r : ControlResult}
    → control_step send hand_send c s local d now_ms ≡ some (c', s', d', r)
    → is_active s.state ≡ true
    → 0 < s.generation
    → IsOver s s' r
    → IsAccounted s c r c'
control_step-IsAccounted send hand_send c s local d now_ms {c'} h was g over =
    let (w, e, ec, es, er) = control_step_inv send hand_send c s local d now_ms h in
    let (number, rest) = work-Accounts send hand_send c s local d now_ms was g w e in
    elim rest [
      | inl (now, a) ↦
          rw er (same-IsAccounted s c c' w.control w.result (ap (λ (k : Control). k.terminal) ec) a)
      | inr (on, t) ↦
          absurd (elim over [ inl gone ↦ ground arith | inr (other, hung) ↦ other (rw es number) ])
    ]

receive_hand-session :
    (c : Control) (datagram : Bytes) (local : Address) (s : Session) (d : Deadline) (now_ms : ℕ)
    {c' : Control} {s' : Session} {d' : Deadline} {r : ControlResult}
    → receive_hand c datagram local s d now_ms ≡ some (c', s', d', r)
    → s' ≡ s
unfolding receive_hand
receive_hand-session c datagram local s d now_ms h = ground arith

is_over :
    (s : Session) (out : Outcome)
    → (in_state out.2.state ended ≡ true)
      ⊎ ((out.2.generation ≢ s.generation) × (out.4.local_hangup ≡ false))
    → Held s out
    → (in_state out.2.state ended ≡ true) ⊎ (out.4.receive.preempted_session ≡ true)
is_over s out (inl gone) held = inl gone
is_over s out (inr (other, kept)) (inl same) = absurd (other same)
is_over s out (inr (other, kept)) (inr (inl taken)) = inr taken
is_over s out (inr (other, kept)) (inr (inr hung)) = absurd (ground arith)

receive_call_frame-IsAccounted :
    (c : Control) (datagram : Bytes) (local : Address) (s : Session) (d : Deadline) (now_ms : ℕ)
    {c' : Control} {s' : Session} {d' : Deadline} {r : ControlResult}
    → receive_call_frame c datagram local s d now_ms ≡ some (c', s', d', r)
    → is_active s.state ≡ true
    → 0 < s.generation
    → IsOver s s' r
    → IsAccounted s c r c'
unfolding receive_call_frame
receive_call_frame-IsAccounted c datagram local s d now_ms {c'} {s'} {d'} {r} h was g over =
    let out = runtime_receive c.acknowledgement datagram local s d now_ms in
    let acked : Control = record c { acknowledgement = out.1 } in
    let result : ControlResult = record no_control_result { runtime = out.4 } in
    elim (Bool-cases (is_ok out.0)) [
      | inr refused ↦ absurd (ground (arith, h))
      | inl fine ↦
          let same : c'.terminal ≡ (classify acked s out.2 result).terminal = ground (arith, h) in
          let session : s' ≡ out.2 = ground (arith, h) in
          let given : r ≡ result = ground (arith, h) in
          let held = runtime_receive-Held c.acknowledgement datagram local s d now_ms was fine in
          let ends : (in_state out.2.state ended ≡ true)
              ⊎ (out.4.receive.preempted_session ≡ true) =
            is_over s out (rw (session, given) at over) held in
          rw given (
            same-IsAccounted s c c' (classify acked s out.2 result) result same (
              from-IsAccounted s c acked (classify acked s out.2 result) result refl
                (classify-IsAccounted acked s out.2 result was g ends)))
    ]

receive_parsed-IsAccounted :
    (c : Control) (datagram : Bytes) (o : Option (Frame × Event)) (local : Address) (s : Session)
    (d : Deadline) (now_ms : ℕ) {c' : Control} {s' : Session} {d' : Deadline} {r : ControlResult}
    → receive_parsed c datagram o local s d now_ms ≡ some (c', s', d', r)
    → is_active s.state ≡ true
    → 0 < s.generation
    → IsOver s s' r
    → IsAccounted s c r c'
unfolding receive_parsed
receive_parsed-IsAccounted c datagram none local s d now_ms h was g over = absurd (ground arith)
receive_parsed-IsAccounted c datagram (some (f, e)) local s d now_ms h was g over =
    elim (Bool-cases (f.family == 3 && (f.opcode == 0x51 || f.opcode == 0x52))) [
      | inl hand ↦
          let same = receive_hand-session c datagram local s d now_ms (rw hand at h) in
          absurd (elim over [ inl gone ↦ ground arith | inr (other, hung) ↦ other (rw same refl) ])
      | inr other ↦
          receive_call_frame-IsAccounted c datagram local s d now_ms (rw other at h) was g over
    ]

-- A step or a received datagram that succeeds, with any callbacks and at any time.
pub data Handled (c : Control) (s : Session) : Control → Session → ControlResult → Type 0 where
  stepped :
      (send hand_send : CommandAttempt) (local : Address) (d : Deadline) (now_ms : ℕ) {c' : Control}
      {s' : Session} {d' : Deadline} {r : ControlResult}
      → control_step send hand_send c s local d now_ms ≡ some (c', s', d', r)
      → Handled c s c' s' r
  received :
      (datagram : Bytes) (local : Address) (d : Deadline) (now_ms : ℕ) {c' : Control} {s' : Session}
      {d' : Deadline} {r : ControlResult}
      → control_receive c datagram local s d now_ms ≡ some (c', s', d', r)
      → Handled c s c' s' r

-- Every call that ends is accounted for, with what happened as its reason. When a step or a received
-- datagram ends a session that was active and has a number other than 0, or leaves a session of another
-- number and reports no hang-up that was confirmed or given up, then the end of that call was on record
-- already and the record is as it was, or the record now has the number and the station of that call and
-- a reason that fits the result: a heartbeat timeout for a keep-alive that gave up, a preemption for a
-- reported preemption, a session timeout for a reported timeout, a local hang-up for a reported hang-up of
-- the unit's, a peer hang-up for a reported end that is not the unit's, and `unknown` only when none of
-- the first three and no end is reported.
pub ended_call :
    (c : Control) (s : Session) {c' : Control} {s' : Session} {r : ControlResult}
    → Handled c s c' s' r
    → is_active s.state ≡ true
    → 0 < s.generation
    → (in_state s'.state ended ≡ true)
      ⊎ ((s'.generation ≢ s.generation) × (r.runtime.local_hangup ≡ false))
    → ((on_record c s ≡ true) × (c'.terminal ≡ c.terminal))
      ⊎ ((on_record c s ≡ false)
          × (c'.terminal.generation ≡ s.generation)
          × (c'.terminal.station ≡ s.peer)
          × IsReason r c'.terminal.end_reason)
unfolding control_receive IsAccounted
ended_call c s (stepped send hand_send local d now_ms h) was g over =
    control_step-IsAccounted send hand_send c s local d now_ms h was g over
ended_call c s (received datagram local d now_ms h) was g over =
    elim (Bool-cases (
      ltb now_ms c.dispatch.last_now_ms
      || (ltb now_ms c.handshake.last_now_ms || ltb now_ms c.handshake_dispatch.last_now_ms))) [
        | inl late ↦ absurd (ground (arith, h))
        | inr fine ↦
            receive_parsed-IsAccounted c datagram (parse datagram) local s d now_ms (rw fine at h)
              was g over
      ]
