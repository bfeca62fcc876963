-- ===== src/Call/Dispatch/Progress.antt =====
-- src/gvs_call_dispatch.c: a command whose sender never completes is given up.
use doorfast.Prelude.{
  ℕ, ◌+◌, ◌-◌, ◌*◌, ◌≤◌, ◌<◌, ◌≡◌, ◌⊎◌, inl, inr, true, false, List, [], ◌∷◌, arith, Bool-cases,
  length, Address,
}
use doorfast.Session.{Session}
use doorfast.SendTransaction.{
  AttemptResult, pending, success, failure, max_attempts, attempt_timeout_ms,
}
use doorfast.Call.Dispatch.{
  DispatchState, empty, queued, sending, retry, sent, failed, timeout, cancelled, Dispatch,
  CommandAttempt, at_work, dispatch_failed, dispatch_attempt, dispatch_result, dispatch_work,
  dispatch_step,
}
use doorfast.Call.Dispatch.Invariant.{IsValid, at_clock, dispatch_step-IsValid}

-- The steps that are left, at most.
abbrev pub remaining : DispatchState → ℕ → ℕ
remaining queued attempts = 2 * max_attempts + 1
remaining sending attempts = 2 * (max_attempts - attempts) + 2
remaining retry attempts = 2 * (max_attempts - attempts) + 1
remaining empty attempts = 0
remaining sent attempts = 0
remaining failed attempts = 0
remaining timeout attempts = 0
remaining cancelled attempts = 0

abbrev pub steps_left : Dispatch → ℕ
steps_left d = remaining d.state d.attempts

-- What a step that is due leaves, from `n` steps left.
record Advances (n now_ms : ℕ) (e : Dispatch) : Type 0 where
  fewer : steps_left e < n
  clock : e.last_now_ms ≡ now_ms
  deadline : e.deadline_ms ≤ now_ms + attempt_timeout_ms

attempt-Advances :
    (d : Dispatch) (now_ms : ℕ) (result : AttemptResult)
    → (d.state ≡ queued) ⊎ (d.state ≡ retry)
    → IsValid d
    → d.last_now_ms ≤ now_ms
    → Advances
        (steps_left d)
        now_ms
        (dispatch_result (dispatch_attempt (at_clock d now_ms) now_ms) now_ms result)
unfolding dispatch_result dispatch_failed
attempt-Advances d now_ms success e v l = ground arith
attempt-Advances d now_ms failure e v l = ground arith
attempt-Advances d now_ms pending e v l = ground arith

sending-Advances :
    (d : Dispatch) (now_ms : ℕ)
    → d.state ≡ sending
    → IsValid d
    → Advances (steps_left d) now_ms (dispatch_failed (at_clock d now_ms) now_ms true)
unfolding dispatch_failed
sending-Advances d now_ms e v = ground arith

step-Advances :
    (d : Dispatch) (s : Session) (local : Address) (now_ms : ℕ) (send : CommandAttempt)
    → IsValid d
    → at_work d.state ≡ true
    → d.last_now_ms ≤ now_ms
    → (d.state ≡ queued) ⊎ (d.deadline_ms ≤ now_ms)
    → Advances (steps_left d) now_ms (dispatch_step d s local now_ms send).1
unfolding dispatch_step dispatch_work
step-Advances d s local now_ms send v w l due =
    let attempt = attempt-Advances d now_ms (send d.command (d.attempts + 1) d.next_id) in
    ground (arith, attempt, sending-Advances d now_ms)

-- A visit of the dispatch: the clock, and what the step is given.
pub record Visit : Type 0 where
  pub now_ms : ℕ
  pub session : Session
  pub local : Address
  pub send : CommandAttempt

-- One step at each visit.
unfoldable pub drive : Dispatch → List Visit → Dispatch
drive d [] = d
drive d (v ∷ visits) = drive (dispatch_step d v.session v.local v.now_ms v.send).1 visits

-- Visits at least an attempt's timeout apart, from `first` on.
abbrev pub Spaced : ℕ → List Visit → Type 0
Spaced first [] = Unit {0}
Spaced first (v ∷ visits) = (first ≤ v.now_ms) × Spaced (v.now_ms + attempt_timeout_ms) visits

step_at_rest :
    (d : Dispatch) (s : Session) (local : Address) (now_ms : ℕ) (send : CommandAttempt)
    → at_work d.state ≡ false
    → (dispatch_step d s local now_ms send).1.state ≡ d.state
unfolding dispatch_step dispatch_work
step_at_rest d s local now_ms send w = ground arith

drive_at_rest :
    (d : Dispatch) (visits : List Visit)
    → at_work d.state ≡ false
    → at_work (drive d visits).state ≡ false
unfolding drive
drive_at_rest d [] w = w
drive_at_rest d (v ∷ visits) w =
    drive_at_rest (dispatch_step d v.session v.local v.now_ms v.send).1 visits
      (rw (step_at_rest d v.session v.local v.now_ms v.send w) w)

steps_left-at_rest :
    (s : DispatchState) (attempts : ℕ) → remaining s attempts ≤ 0 → at_work s ≡ false
steps_left-at_rest s attempts h = ground arith

steps_left-le : (d : Dispatch) → IsValid d → steps_left d ≤ 7
steps_left-le d v = ground arith

due_later :
    (d : Dispatch) (first now_ms : ℕ)
    → first ≤ now_ms
    → (d.state ≡ queued) ⊎ (d.deadline_ms ≤ first)
    → (d.state ≡ queued) ⊎ (d.deadline_ms ≤ now_ms)
due_later d first now_ms l (inl e) = inl e
due_later d first now_ms l (inr m) = inr (omega arith)

-- A command at work comes to rest after as many steps as are left, seven at most, if the first comes
-- when it is due and each comes an attempt's timeout after the last: whatever the senders answer,
-- whichever sessions it sees, and whether or not completion ids and the clock run out.
pub dispatch_ends :
    (d : Dispatch) (first : ℕ) (visits : List Visit)
    → IsValid d
    → d.last_now_ms ≤ first
    → (d.state ≡ queued) ⊎ (d.deadline_ms ≤ first)
    → steps_left d ≤ length visits
    → Spaced first visits
    → (at_work (drive d visits).state ≡ false) × (steps_left d ≤ 7)
unfolding drive
dispatch_ends d first [] v l due n sp = (steps_left-at_rest d.state d.attempts n, steps_left-le d v)
dispatch_ends d first (v ∷ visits) valid l due n (after, sp) =
    let bound = steps_left-le d valid in
    elim (Bool-cases (at_work d.state)) [
      | inr rest ↦ (drive_at_rest d (v ∷ visits) rest, bound)
      | inl w ↦
          let e = (dispatch_step d v.session v.local v.now_ms v.send).1 in
          let a =
            step-Advances d v.session v.local v.now_ms v.send valid w (omega arith)
              (due_later d first v.now_ms after due) in
          let ends =
            dispatch_ends e (v.now_ms + attempt_timeout_ms) visits
              (dispatch_step-IsValid d v.session v.local v.now_ms v.send valid)
              (omega (arith, a.clock)) (inr a.deadline) (omega (arith, a.fewer)) sp in
          (ends.0, bound)
    ]
