-- ===== src/Session/Rules.antt =====
-- src/gvs_session.c: which events a session takes, and what a refusal leaves.
use doorfast.Prelude.{
  ℕ, ◌+◌, ◌≤◌, ◌<◌, ◌≡◌, ◌≢◌, ◌↔◌, ◌⊎◌, inl, inr, true, false, Option, none, some, [], ◌∷◌, arith,
  ok, u64_max, Address, addr_eq_sound, addr_eq_complete, zero_address, ◌^◌, Bool-cases,
}
use doorfast.Frame.{Frame, EventType, Event}
use doorfast.Frame.EventType.{
  incoming_call, hangup, preview_started, session_established, unlock_result_observed,
}
use doorfast.Priority.{priority_compare, preempt}
use doorfast.Session.{
  Session, SessionState, idle, preview, ringing, talking, ended, is_active, next_generation,
  session_abort, session_apply, session_preempt, no_preemption,
}

-- The life of a call: what each event makes of each state, or that it is refused there.
abbrev pub transition : SessionState → EventType → Option SessionState
transition idle preview_started = some preview
transition idle incoming_call = some ringing
transition ended preview_started = some preview
transition ended incoming_call = some ringing
transition preview session_established = some talking
transition preview hangup = some ended
transition preview unlock_result_observed = some preview
transition ringing session_established = some talking
transition ringing hangup = some ended
transition ringing incoming_call = some ringing
transition ringing unlock_result_observed = some ringing
transition talking hangup = some ended
transition talking unlock_result_observed = some talking
transition _ _ = none

abbrev pub FromPeer : Session → Frame → Type 0
FromPeer s f = (is_active s.state ≡ false) ⊎ (s.peer ≡ f.source)

-- `df_gvs_session_apply` succeeds with a state exactly when the table has that state for the event
-- and, in an active session, the frame is from the session's own peer.
pub session_apply_iff :
    (s : Session) (f : Frame) (e : Event) (t : SessionState)
    → (((session_apply s f e).0 ≡ ok) × ((session_apply s f e).1.state ≡ t))
      ↔ ((transition s.state e.kind ≡ some t) × FromPeer s f)
unfolding session_apply
session_apply_iff s f e t = (
  λ h. ground (arith, addr_eq_sound s.peer f.source),
  λ h. elim (Bool-cases (is_active s.state)) [
    | inl on ↦ ground (arith, addr_eq_complete s.peer f.source)
    | inr off ↦ ground arith
  ],
)

-- Where `df_gvs_session_apply` or `df_gvs_session_preempt` refuses, the session is as it was, and
-- a refused preemption reports no event.
pub refused_unchanged :
    (s : Session) (f : Frame) (e : Event) (expected : ℕ) (incoming : Address)
    (current_category incoming_category : Option ℕ) (now_ms : ℕ)
    → let (status, t, p) =
        session_preempt s expected incoming current_category incoming_category now_ms in
      (((session_apply s f e).0 ≡ ok) ⊎ ((session_apply s f e).1 ≡ s))
      × ((status ≡ ok) ⊎ (t ≡ s) × (p ≡ no_preemption))
unfolding session_apply session_preempt
refused_unchanged s f e expected incoming current_category incoming_category now_ms =
    (ground arith, ground arith)

next_generation_fresh :
    (g : ℕ)
    → g < 2 ^ 64
    → (next_generation g ≢ g) × (0 < next_generation g) × (next_generation g ≤ u64_max)
unfolding next_generation
next_generation_fresh g h = ground arith

-- An event that opens a call gives it a number other than 0 and other than the last call's, in 64
-- bits; any other event keeps the number.
pub generation-session_apply :
    (s : Session) (f : Frame) (e : Event)
    → s.generation ≤ u64_max
    → let t = (session_apply s f e).1 in
      ((t.generation ≡ s.generation) × ((is_active s.state ≡ true) ⊎ (t ≡ s)))
      ⊎ (((s.state ≡ idle) ⊎ (s.state ≡ ended))
          × (is_active t.state ≡ true)
          × (t.peer ≡ f.source)
          × (t.pick_generation ≡ 0)
          × (t.generation ≢ s.generation)
          × (0 < t.generation)
          × (t.generation ≤ u64_max))
unfolding session_apply
generation-session_apply s f e h = ground (arith, next_generation_fresh s.generation)

-- A preemption happens only while ringing, by another caller that ranks higher, and reports the
-- end of the old call before the new call; the new call has the next number and no pick pending.
pub session_preempt_ok :
    (s : Session) (expected : ℕ) (incoming : Address)
    (current_category incoming_category : Option ℕ) (now_ms : ℕ)
    → s.generation ≤ u64_max
    → (session_preempt s expected incoming current_category incoming_category now_ms).0 ≡ ok
    → let (status, t, p) =
        session_preempt s expected incoming current_category incoming_category now_ms in
      (s.state ≡ ringing)
      × (s.peer ≢ incoming)
      × (priority_compare current_category incoming_category ≡ preempt)
      × (t ≡ record s {
        peer = incoming;
        generation = s.generation + 1;
        pick_generation = 0;
        pick_started_ms = 0;
        pick_timeout_ms = 0;
        pick_local = zero_address;
      })
      × (p.events
          ≡ record { kind = hangup; peer = s.peer; generation = s.generation }
            ∷ record { kind = incoming_call; peer = incoming; generation = s.generation + 1 }
            ∷ [])
      × (p.ring_started_ms ≡ now_ms)
unfolding session_preempt
session_preempt_ok s expected incoming current_category incoming_category now_ms bound h =
    let ne = addr_eq_complete s.peer incoming in ground arith

-- An abort always leaves a session at rest, says truthfully whether it ended a call, and a second
-- abort changes nothing.
pub session_abort_lem :
    (s : Session)
    → let (status, t, done) = session_abort s in
      (status ≡ ok)
      × (is_active t.state ≡ false)
      × (done ≡ is_active s.state)
      × (t.generation ≡ s.generation)
      × (session_abort t ≡ (ok, t, false))
unfolding session_abort
session_abort_lem s = ground arith
