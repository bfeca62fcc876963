-- ===== src/Control/Reason.antt =====
-- src/gvs_call_control.c, `df_gvs_call_control_classify_transition`: which reason is recorded for the end
-- of a call.
use doorfast.Prelude.{
  ◌<◌, ◌≡◌, ◌⊎◌, refl, inl, inr, Bool, true, false, ◌&&◌, ◌||◌, arith, ◌==◌, if◌then◌else◌,
  if-holds, Bool-cases,
}
use doorfast.Session.{Session, ended, in_state, is_active}
use doorfast.Control.{
  Control, ControlResult, EndReason, not_ended, by_local_hangup, by_peer_hangup, by_session_timeout,
  by_confirmation_timeout, by_preemption, by_runtime_reset, by_heartbeat_timeout, by_unknown, Fault,
  confirmation_times_out, no_fault, heartbeat_times_out, is_preempted, has_ended, observed,
  record_terminal, classify, classify_going,
}

-- The unit hung up: with a frame of its own, or because its hang-up was confirmed or given up.
abbrev pub hung_up_here : ControlResult → Bool
hung_up_here r = r.runtime.receive.local_hangup || r.runtime.local_hangup

abbrev pub timed_out : ControlResult → Bool
timed_out r = r.runtime.session_timed_out || r.runtime.receive.timed_out_transition

-- What must have happened for a reason to be recorded. The last three are not recorded for a call that
-- ends.
unfoldable pub IsReason : ControlResult → EndReason → Type 0
IsReason r by_heartbeat_timeout = r.handshake.disconnected ≡ true
IsReason r by_preemption = r.runtime.receive.preempted_session ≡ true
IsReason r by_session_timeout = timed_out r ≡ true
IsReason r by_local_hangup = hung_up_here r ≡ true
IsReason r by_peer_hangup = (r.runtime.receive.ended_transition ≡ true) × (hung_up_here r ≡ false)
IsReason r by_unknown =
    (r.handshake.disconnected ≡ false)
    × (r.runtime.receive.preempted_session ≡ false)
    × (timed_out r ≡ false)
    × (r.runtime.receive.ended_transition ≡ false)
IsReason r not_ended = false ≡ true
IsReason r by_confirmation_timeout = false ≡ true
IsReason r by_runtime_reset = false ≡ true

-- Whether the end of a session is on record.
abbrev pub on_record : Control → Session → Bool
on_record c s = has_ended c.terminal.end_reason && c.terminal.generation == s.generation

-- The end of the session is on record: it was already, and the record is untouched, or it is now, with the
-- session's station and what happened as its reason.
unfoldable pub IsAccounted : Session → Control → ControlResult → Control → Type 0
IsAccounted s c r c' =
    ((on_record c s ≡ true) × (c'.terminal ≡ c.terminal))
    ⊎ ((on_record c s ≡ false)
        × (c'.terminal.generation ≡ s.generation)
        × (c'.terminal.station ≡ s.peer)
        × IsReason r c'.terminal.end_reason)

pub record_terminal-IsAccounted :
    (s : Session) (c : Control) (r : ControlResult) (reason : EndReason) (fault : Fault)
    → 0 < s.generation
    → IsReason r reason
    → IsAccounted s c r (record_terminal c reason fault s)
unfolding record_terminal IsAccounted
record_terminal-IsAccounted s c r reason fault g h =
    let numbered : (s.generation == 0) ≡ false = ground arith in
    elim (Bool-cases (on_record c s)) [
      | inl already ↦ rw (numbered, already) (inl (refl, refl))
      | inr fresh ↦ rw (numbered, fresh) (inr (refl, refl, refl, h))
    ]

-- What does not touch the record.
pub same-IsAccounted :
    (s : Session) (c b c' : Control) (r : ControlResult)
    → b.terminal ≡ c'.terminal
    → IsAccounted s c r c'
    → IsAccounted s c r b
unfolding IsAccounted
same-IsAccounted s c b c' r e h = rw e h

-- Where the record comes from another control with the same one.
pub from-IsAccounted :
    (s : Session) (c b c' : Control) (r : ControlResult)
    → b.terminal ≡ c.terminal
    → IsAccounted s b r c'
    → IsAccounted s c r c'
unfolding IsAccounted
from-IsAccounted s c b c' r e h = rw e at h

abbrev reason_of : ControlResult → EndReason
reason_of r = if hung_up_here r then by_local_hangup else by_peer_hangup

module _ (c : Control) (previous s : Session) (r : ControlResult)
    (was : is_active previous.state ≡ true) (numbered : 0 < previous.generation) where
  recorded :
      (reason : EndReason) (fault : Fault)
      → IsReason r reason
      → IsAccounted previous c r (observed s (record_terminal c reason fault previous))
  recorded reason fault h =
      same-IsAccounted previous c (observed s (record_terminal c reason fault previous))
        (record_terminal c reason fault previous) r refl
        (record_terminal-IsAccounted previous c r reason fault numbered h)

  preempted_recorded :
      IsAccounted previous c r (record_terminal c by_preemption is_preempted previous)
      → IsAccounted previous c r (
          observed s
            (record (if is_active previous.state
              then record_terminal c by_preemption is_preempted previous
              else c) { fault = no_fault }))
  preempted_recorded h = rw was (
      same-IsAccounted previous c
        (observed s
          (record (record_terminal c by_preemption is_preempted previous) { fault = no_fault }))
        (record_terminal c by_preemption is_preempted previous) r refl h)

  hung-IsReason :
      ((r.runtime.receive.ended_transition || r.runtime.local_hangup)
          && (is_active previous.state && in_state s.state ended))
        ≡ true
      → IsReason r (reason_of r)
  unfolding IsReason
  hung-IsReason h = elim (Bool-cases (hung_up_here r)) [
    | inl here ↦ rw here here
    | inr there ↦ rw there (ground arith, there)
  ]

  -- A call that is over is accounted for by the classification.
  pub classify-IsAccounted :
      (in_state s.state ended ≡ true) ⊎ (r.runtime.receive.preempted_session ≡ true)
      → IsAccounted previous c r (classify c previous s r)
  unfolding classify IsReason
  classify-IsAccounted over =
      if-holds P (r.handshake.disconnected && is_active previous.state)
        (λ lost. recorded by_heartbeat_timeout heartbeat_times_out (ground arith))
        (λ kept.
          if-holds P r.runtime.receive.preempted_session
            (λ taken.
              preempted_recorded (
                record_terminal-IsAccounted previous c r by_preemption is_preempted numbered taken))
            (λ alone.
              if-holds P (timed_out r && is_active previous.state)
                (λ late. recorded by_session_timeout no_fault (ground arith))
                (λ in_time.
                  if-holds P
                    ((r.runtime.receive.ended_transition || r.runtime.local_hangup)
                      && (is_active previous.state && in_state s.state ended))
                    (λ hung. recorded (reason_of r) fault (hung-IsReason hung))
                    (λ apart.
                      if-holds P (is_active previous.state && in_state s.state ended)
                        (λ gone.
                          recorded by_unknown fault
                            (ground arith, alone, ground arith, ground arith))
                        (λ going. absurd (ground arith))))))
    where
      P : Control → Type 0
      P k = IsAccounted previous c r k

      fault : Fault
      fault = if r.runtime.acknowledgement_expired then confirmation_times_out else no_fault

  -- Where the call goes on, the record stays.
  pub classify-terminal :
      in_state s.state ended ≡ false
      → r.handshake.disconnected ≡ false
      → r.runtime.receive.preempted_session ≡ false
      → timed_out r ≡ false
      → (classify c previous s r).terminal ≡ c.terminal
  unfolding classify classify_going
  classify-terminal going kept alone in_time = ground arith
