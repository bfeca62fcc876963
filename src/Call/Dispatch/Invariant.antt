-- ===== src/Call/Dispatch/Invariant.antt =====
-- src/gvs_call_dispatch.c: what a dispatch keeps through any history of its operations.
use doorfast.Prelude.{
  ℕ, ◌+◌, ◌-◌, ◌≤◌, ◌<◌, ◌≡◌, refl, ◌⊎◌, inl, inr, Bool, true, false, Option, none, some, List, [],
  ◌∷◌, arith, leb, ltb, ◌==◌, if◌then◌else◌, Status, u64_max, Address,
}
use doorfast.Session.{Session}
use doorfast.SendTransaction.{
  AttemptResult, pending, success, failure, max_attempts, attempt_timeout_ms,
}
use doorfast.Call.Command.{CallCommand}
use doorfast.Call.Dispatch.{
  DispatchState, empty, queued, sending, retry, sent, failed, timeout, cancelled, Dispatch,
  CommandAttempt, dispatch_failed, dispatch_finish, dispatch_init, checked_command, enqueue_checked,
  dispatch_enqueue, dispatch_attempt, dispatch_result, dispatch_work, dispatch_step,
  dispatch_completed, dispatch_complete,
}

-- What holds in each state.
abbrev pub Allows : DispatchState → Dispatch → Type 0
Allows queued d = (d.attempts ≡ 0) × (d.active_id ≡ 0) × (d.last_now_ms < d.deadline_ms)
Allows sending d = (1 ≤ d.attempts) × (0 < d.active_id) × (d.last_now_ms < d.deadline_ms)
Allows retry d =
    (1 ≤ d.attempts)
    × (d.attempts < max_attempts)
    × (d.active_id ≡ 0)
    × (d.last_now_ms < d.deadline_ms)
Allows sent d = (1 ≤ d.attempts) × (d.active_id ≡ 0) × (d.deadline_ms ≡ 0)
Allows empty d = (d.attempts ≡ 0) × (d.active_id ≡ 0) × (d.deadline_ms ≡ 0)
Allows failed d = (d.active_id ≡ 0) × (d.deadline_ms ≡ 0)
Allows timeout d = (d.active_id ≡ 0) × (d.deadline_ms ≡ 0)
Allows cancelled d = (d.active_id ≡ 0) × (d.deadline_ms ≡ 0)

pub record IsValid (d : Dispatch) : Type 0 where
  pub few : d.attempts ≤ max_attempts
  pub in_range : d.deadline_ms ≤ u64_max
  pub allowed : Allows d.state d

dispatch_failed-IsValid :
    (d : Dispatch) (now_ms : ℕ) (late : Bool)
    → d.attempts ≤ max_attempts
    → 1 ≤ d.attempts
    → d.last_now_ms ≡ now_ms
    → IsValid (dispatch_failed d now_ms late)
unfolding dispatch_failed
dispatch_failed-IsValid d now_ms late few one clock = ground arith

dispatch_result-IsValid :
    (d : Dispatch) (now_ms : ℕ) (result : AttemptResult)
    → 1 ≤ d.attempts
    → d.last_now_ms ≡ now_ms
    → IsValid d
    → IsValid (dispatch_result d now_ms result)
unfolding dispatch_result
dispatch_result-IsValid d now_ms success one clock v = record {
  few = v.few;
  in_range = omega arith;
  allowed = (one, refl, refl);
}
dispatch_result-IsValid d now_ms failure one clock v =
    dispatch_failed-IsValid d now_ms false v.few one clock
dispatch_result-IsValid d now_ms pending one clock v = v

-- A dispatch that ends without an answer is valid whatever it was.
ended-IsValid :
    (d : Dispatch) (now_ms : ℕ) (state : DispatchState)
    → (state ≡ failed) ⊎ ((state ≡ timeout) ⊎ (state ≡ cancelled))
    → d.attempts ≤ max_attempts
    → IsValid (dispatch_finish (record d { last_now_ms = now_ms }) state)
ended-IsValid d now_ms failed e few = record {
  few = few;
  in_range = omega arith;
  allowed = (refl, refl);
}
ended-IsValid d now_ms timeout e few = record {
  few = few;
  in_range = omega arith;
  allowed = (refl, refl);
}
ended-IsValid d now_ms cancelled e few = record {
  few = few;
  in_range = omega arith;
  allowed = (refl, refl);
}
ended-IsValid d now_ms empty e few = ground arith
ended-IsValid d now_ms queued e few = ground arith
ended-IsValid d now_ms sending e few = ground arith
ended-IsValid d now_ms retry e few = ground arith
ended-IsValid d now_ms sent e few = ground arith

-- The dispatch at the time of a step.
abbrev pub at_clock : Dispatch → ℕ → Dispatch
at_clock d now_ms = record d { last_now_ms = now_ms }

attempt-IsValid :
    (d : Dispatch) (now_ms : ℕ) (result : AttemptResult)
    → d.attempts < max_attempts
    → d.last_now_ms ≡ now_ms
    → ltb (u64_max - attempt_timeout_ms) now_ms ≡ false
    → (d.next_id == 0) ≡ false
    → IsValid (dispatch_result (dispatch_attempt d now_ms) now_ms result)
attempt-IsValid d now_ms result few clock room id =
    dispatch_result-IsValid (dispatch_attempt d now_ms) now_ms result (omega arith) clock (record {
      few = omega arith;
      in_range = ground arith;
      allowed = (omega arith, ground arith, ground arith);
    })

sending-IsValid :
    (d : Dispatch) (now_ms : ℕ)
    → d.last_now_ms ≤ now_ms
    → d.state ≡ sending
    → IsValid d
    → IsValid (
        if leb d.deadline_ms now_ms
        then dispatch_failed (at_clock d now_ms) now_ms true
        else at_clock d now_ms)
sending-IsValid d now_ms l e v =
    let started : 1 ≤ d.attempts = ground arith in
    let late = dispatch_failed-IsValid (at_clock d now_ms) now_ms true v.few started refl in
    ground arith

dispatch_work-IsValid :
    (d : Dispatch) (s : Session) (local : Address) (now_ms : ℕ) (send : CommandAttempt)
    → d.last_now_ms ≤ now_ms
    → IsValid d
    → IsValid (dispatch_work (at_clock d now_ms) s local now_ms send)
unfolding dispatch_work
dispatch_work-IsValid d s local now_ms send l v =
    let no_time = ended-IsValid d now_ms timeout (inr (inl refl)) v.few in
    let stopped = ended-IsValid d now_ms cancelled (inr (inr refl)) v.few in
    let no_id = ended-IsValid d now_ms failed (inl refl) v.few in
    let attempt =
      attempt-IsValid (at_clock d now_ms) now_ms (send d.command (d.attempts + 1) d.next_id) in
    ground (arith, attempt, sending-IsValid d now_ms l)

pub dispatch_step-IsValid :
    (d : Dispatch) (s : Session) (local : Address) (now_ms : ℕ) (send : CommandAttempt)
    → IsValid d
    → IsValid (dispatch_step d s local now_ms send).1
unfolding dispatch_step
dispatch_step-IsValid d s local now_ms send v =
    let worked = dispatch_work-IsValid d s local now_ms send in ground arith

dispatch_complete-IsValid :
    (d : Dispatch) (s : Session) (local : Address) (now_ms id : ℕ) (result : AttemptResult)
    → IsValid d
    → IsValid (dispatch_complete d s local now_ms id result).1
unfolding dispatch_complete dispatch_completed
dispatch_complete-IsValid d s local now_ms id result v =
    let stopped = ended-IsValid d now_ms cancelled (inr (inr refl)) v.few in
    let failure_of = dispatch_failed-IsValid (at_clock d now_ms) now_ms in
    ground (arith, failure_of)

enqueue_checked-IsValid :
    (d : Dispatch) (c : CallCommand) (now_ms : ℕ) (checked : Option CallCommand)
    → IsValid d
    → IsValid (enqueue_checked d c now_ms checked).1
unfolding enqueue_checked
enqueue_checked-IsValid d c now_ms none v = v
enqueue_checked-IsValid d c now_ms (some checked) v = ground arith

dispatch_enqueue-IsValid :
    (d : Dispatch) (c : CallCommand) (now_ms : ℕ)
    → IsValid d
    → IsValid (dispatch_enqueue d c now_ms).1
unfolding dispatch_enqueue
dispatch_enqueue-IsValid d c now_ms v =
    let checked = enqueue_checked-IsValid d c now_ms (checked_command c) v in ground arith

-- A call on the dispatch; session, address and sender are whatever they are at the time.
pub data DispatchCall : Type 0 where
  enqueues : CallCommand → ℕ → DispatchCall
  steps : Session → Address → ℕ → CommandAttempt → DispatchCall
  completes : Session → Address → ℕ → ℕ → AttemptResult → DispatchCall

unfoldable pub dispatch_call : Dispatch → DispatchCall → Status × Dispatch
dispatch_call d (enqueues c now_ms) = dispatch_enqueue d c now_ms
dispatch_call d (steps s local now_ms send) = dispatch_step d s local now_ms send
dispatch_call d (completes s local now_ms id result) = dispatch_complete d s local now_ms id result

unfoldable pub dispatch_run : Dispatch → List DispatchCall → Dispatch
dispatch_run d [] = d
dispatch_run d (call ∷ calls) = dispatch_run (dispatch_call d call).1 calls

dispatch_call-IsValid :
    (d : Dispatch) (call : DispatchCall) → IsValid d → IsValid (dispatch_call d call).1
unfolding dispatch_call
dispatch_call-IsValid d (enqueues c now_ms) v = dispatch_enqueue-IsValid d c now_ms v
dispatch_call-IsValid d (steps s local now_ms send) v =
    dispatch_step-IsValid d s local now_ms send v
dispatch_call-IsValid d (completes s local now_ms id result) v =
    dispatch_complete-IsValid d s local now_ms id result v

dispatch_run-keeps :
    (d : Dispatch) (calls : List DispatchCall) → IsValid d → IsValid (dispatch_run d calls)
unfolding dispatch_run
dispatch_run-keeps d [] v = v
dispatch_run-keeps d (call ∷ calls) v =
    dispatch_run-keeps (dispatch_call d call).1 calls (dispatch_call-IsValid d call v)

-- After any history of a dispatch, a command has been attempted three times at most; one that is at
-- work has a deadline still to come, in 64 bits, and expects a completion only while it is being
-- sent; one that waits for a retry has been attempted once or twice; a command that is sent was
-- attempted; and no state at rest keeps a deadline or a completion id.
pub dispatch_run-IsValid :
    (start_ms : ℕ) (calls : List DispatchCall)
    → IsValid (dispatch_run (dispatch_init start_ms) calls)
dispatch_run-IsValid start_ms calls =
    dispatch_run-keeps (dispatch_init start_ms) calls
      (record { few = omega arith; in_range = omega arith; allowed = (refl, refl, refl) })
