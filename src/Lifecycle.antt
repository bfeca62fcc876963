-- ===== src/Lifecycle.antt =====
-- The session of src/gvs_session.c through every operation that writes it: its own, the deadline of
-- src/gvs_deadline.c and the keep-alive of src/gvs_handshake.c, in any order and with any arguments.
mod Tests
use doorfast.Prelude.{
  ℕ, ◌≤◌, ◌<◌, ◌≡◌, ◌≢◌, refl, ◌⊎◌, inl, inr, Bool, true, false, Option, arith, Status, u64_max,
  Address,
}
use doorfast.Frame.{Frame, Event}
use doorfast.Session.{
  Session, SessionState, idle, ringing, preview, is_active, empty_session, next_generation,
  session_apply, session_apply_for_generation, session_preempt, session_abort, session_observe_pick,
}
use doorfast.Deadline.{Deadline, deadline_tick}
use doorfast.Handshake.{Handshake, handshake_tick}

-- One operation on the session, with what its caller passes.
pub data Step (s : Session) : Session → Type 0 where
  applied : (f : Frame) (e : Event) → Step s (session_apply s f e).1
  applied_for :
      (generation : ℕ) (f : Frame) (e : Event)
      → Step s (session_apply_for_generation s generation f e).1
  preempted :
      (expected : ℕ) (incoming : Address) (current_category incoming_category : Option ℕ)
      (now_ms : ℕ)
      → Step s (session_preempt s expected incoming current_category incoming_category now_ms).1
  aborted : Step s (session_abort s).1
  observed :
      (f : Frame) (local : Address) (now_ms timeout_ms : ℕ)
      → Step s (session_observe_pick s f local now_ms timeout_ms).1
  timed : (d : Deadline) (now_ms : ℕ) → Step s (deadline_tick d s now_ms).2
  kept : (h : Handshake) (local : Address) (now_ms : ℕ) → Step s (handshake_tick h s local now_ms).2

-- What is reached from a zeroed session.
pub data Reach : Session → Type 0 where
  start : Reach empty_session
  next : {s t : Session} → Reach s → Step s t → Reach t

-- The session is numbered in 64 bits once it has been active, and an answer is pending only for the
-- call that is on.
pub record IsValid (s : Session) : Type 0 where
  pub numbered : (s.state ≡ idle) ⊎ (0 < s.generation)
  pub bounded : s.generation ≤ u64_max
  pub pick :
      (s.pick_generation ≡ 0) ⊎ ((s.pick_generation ≡ s.generation) × (is_active s.state ≡ true))

next_generation_bounds : (g : ℕ) → (0 < next_generation g) × (next_generation g ≤ u64_max)
unfolding next_generation
next_generation_bounds g = ground arith

apply-IsValid : (s : Session) (f : Frame) (e : Event) → IsValid s → IsValid (session_apply s f e).1
unfolding session_apply
apply-IsValid s f e v = ground (arith, next_generation_bounds s.generation)

apply_for-IsValid :
    (s : Session) (generation : ℕ) (f : Frame) (e : Event)
    → IsValid s
    → IsValid (session_apply_for_generation s generation f e).1
unfolding session_apply_for_generation
apply_for-IsValid s generation f e v = ground (arith, apply-IsValid s f e v)

preempt-IsValid :
    (s : Session) (expected : ℕ) (incoming : Address)
    (current_category incoming_category : Option ℕ) (now_ms : ℕ)
    → IsValid s
    → IsValid (session_preempt s expected incoming current_category incoming_category now_ms).1
unfolding session_preempt
preempt-IsValid s expected incoming current_category incoming_category now_ms v = ground arith

abort-IsValid : (s : Session) → IsValid s → IsValid (session_abort s).1
unfolding session_abort
abort-IsValid s v = ground arith

observe-IsValid :
    (s : Session) (f : Frame) (local : Address) (now_ms timeout_ms : ℕ)
    → IsValid s
    → IsValid (session_observe_pick s f local now_ms timeout_ms).1
unfolding session_observe_pick
observe-IsValid s f local now_ms timeout_ms v = ground arith

timed-IsValid :
    (d : Deadline) (s : Session) (now_ms : ℕ) → IsValid s → IsValid (deadline_tick d s now_ms).2
unfolding deadline_tick
timed-IsValid d s now_ms v = ground arith

kept-IsValid :
    (h : Handshake) (s : Session) (local : Address) (now_ms : ℕ)
    → IsValid s
    → IsValid (handshake_tick h s local now_ms).2
unfolding handshake_tick
kept-IsValid h s local now_ms v = ground arith

Step-IsValid : {s t : Session} → Step s t → IsValid s → IsValid t
Step-IsValid {s} (applied f e) v = apply-IsValid s f e v
Step-IsValid {s} (applied_for generation f e) v = apply_for-IsValid s generation f e v
Step-IsValid {s} (preempted expected incoming current_category incoming_category now_ms) v =
    preempt-IsValid s expected incoming current_category incoming_category now_ms v
Step-IsValid {s} aborted v = abort-IsValid s v
Step-IsValid {s} (observed f local now_ms timeout_ms) v =
    observe-IsValid s f local now_ms timeout_ms v
Step-IsValid {s} (timed d now_ms) v = timed-IsValid d s now_ms v
Step-IsValid {s} (kept h local now_ms) v = kept-IsValid h s local now_ms v

-- Every session that the operations reach from a zeroed one, in any order, has a number in 64 bits
-- that is not 0 once the session has left the idle state, and remembers an answer for no other call
-- than the one that is on.
pub Reach-IsValid : {s : Session} → Reach s → IsValid s
Reach-IsValid start = record { numbered = inl refl; bounded = omega arith; pick = inl refl }
Reach-IsValid (next r st) = Step-IsValid st (Reach-IsValid r)
