-- ===== src/Control/Recorded.antt =====
-- src/gvs_call_control.c: what may become of the record of how a call ended.
use doorfast.Prelude.{
  Bool, ◌≡◌, refl, ◌∙◌, ◌⊎◌, inl, inr, true, false, ◌&&◌, ◌||◌, arith, ◌==◌, if◌then◌else◌,
  if-holds,
}
use doorfast.Session.{Session, is_active}
use doorfast.Control.{
  Control, ControlResult, EndReason, Fault, by_local_hangup, by_peer_hangup, by_heartbeat_timeout,
  by_preemption, by_session_timeout, by_unknown, confirmation_times_out, no_fault,
  heartbeat_times_out, is_preempted, classify_going, observed, has_ended, record_terminal, classify,
}

-- The record is as it was, or it is that of the session, whose end was not on record.
unfoldable pub Recorded : Session → Control → Control → Type 0
Recorded s c c' =
    (c'.terminal ≡ c.terminal)
    ⊎ ((c'.terminal.generation ≡ s.generation)
        × (has_ended c'.terminal.end_reason ≡ true)
        × ((has_ended c.terminal.end_reason && c.terminal.generation == s.generation) ≡ false))

pub record_terminal-Recorded :
    (c : Control) (reason : EndReason) (fault : Fault) (s : Session)
    → has_ended reason ≡ true
    → Recorded s c (record_terminal c reason fault s)
unfolding record_terminal Recorded
record_terminal-Recorded c reason fault s r = ground arith

-- What leaves the record alone.
pub Recorded-same :
    (s : Session) (c c' c'' : Control)
    → c''.terminal ≡ c'.terminal
    → Recorded s c c'
    → Recorded s c c''
unfolding Recorded
Recorded-same s c c' c'' e k = rw e k

classify_going-terminal :
    (c : Control) (previous s : Session) (fault : Fault)
    → (classify_going c previous s fault).terminal ≡ c.terminal
unfolding classify_going
classify_going-terminal c previous s fault = ground arith

if-Recorded :
    (p : Session) (c : Control) (b : Bool) (x y : Control)
    → Recorded p c x
    → Recorded p c y
    → Recorded p c (if b then x else y)
if-Recorded p c b x y h k = if-holds (Recorded p c) b (λ on. h) (λ off. k)

pub same-Recorded : (p : Session) (c c' : Control) → c'.terminal ≡ c.terminal → Recorded p c c'
unfolding Recorded
same-Recorded p c c' e = inl e

pub classify-Recorded :
    (c : Control) (previous s : Session) (r : ControlResult)
    → Recorded previous c (classify c previous s r)
unfolding classify
classify-Recorded c previous s r =
    if-Recorded previous c _ _ _ (written by_heartbeat_timeout heartbeat_times_out refl) (
      if-Recorded previous c _ _ _ (preempted-Recorded) (
        if-Recorded previous c _ _ _ (written by_session_timeout no_fault refl) (
          if-Recorded previous c _ _ _ (written by_hangup fault by_hangup-has_ended) (
            if-Recorded previous c _ _ _ (written by_unknown fault refl) (
              same-Recorded previous c (observed s (classify_going c previous s fault))
                (classify_going-terminal c previous s fault))))))
  where
    written :
        (reason : EndReason) (fault : Fault)
        → has_ended reason ≡ true
        → Recorded previous c (observed s (record_terminal c reason fault previous))
    written reason fault h =
        Recorded-same previous c (record_terminal c reason fault previous)
          (observed s (record_terminal c reason fault previous)) refl
          (record_terminal-Recorded c reason fault previous h)

    fault : Fault
    fault = if r.runtime.acknowledgement_expired then confirmation_times_out else no_fault

    by_hangup : EndReason
    by_hangup =
        if r.runtime.receive.local_hangup || r.runtime.local_hangup
        then by_local_hangup
        else by_peer_hangup

    by_hangup-has_ended : has_ended by_hangup ≡ true
    by_hangup-has_ended = ground arith

    preempted : Control
    preempted =
        record (if is_active previous.state
          then record_terminal c by_preemption is_preempted previous
          else c) { fault = no_fault }

    preempted-Recorded : Recorded previous c (observed s preempted)
    preempted-Recorded =
        Recorded-same previous c
          (if is_active previous.state
            then record_terminal c by_preemption is_preempted previous
            else c)
          (observed s preempted) refl
          (if-holds (Recorded previous c) (is_active previous.state)
            (λ on. record_terminal-Recorded c by_preemption is_preempted previous refl)
            (λ off. same-Recorded previous c c refl))

-- Two records of one session are one.
pub Recorded-trans :
    (s : Session) (a b c : Control) → Recorded s a b → Recorded s b c → Recorded s a c
unfolding Recorded
Recorded-trans s a b c (inl e) (inl e') = inl (e' ∙ e)
Recorded-trans s a b c (inl e) (inr new) = inr (rw (← e) new)
Recorded-trans s a b c (inr new) (inl e) = inr (rw e new)
Recorded-trans s a b c (inr new) (inr again) = absurd (ground arith)
