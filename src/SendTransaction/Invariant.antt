-- ===== src/SendTransaction/Invariant.antt =====
-- src/gvs_send_transaction.c: what a transaction keeps through any history, and the size of a trace.
use doorfast.Prelude.{
  ℕ, ◌≤◌, ◌<◌, ◌≡◌, ◌≢◌, refl, ◌⊎◌, inl, inr, Bool, true, false, Option, none, some, List, [], ◌∷◌,
  ◌++◌, ◌-◌, ◌||◌, ◌==◌, ltb, leb, Bool-cases, arith, Status, ok, err_invalid, err_io, u64_max,
}
use doorfast.ReplyQueue.{QueueEntry, ReplyQueue, take_reply}
use doorfast.SendTransaction.{
  SendState, idle, sending, wait_retry, AttemptResult, pending, success, failure, SendTransaction,
  SendAttempt, Trace, max_attempts, failed_attempt, apply_result, start_attempt, transaction_init,
  commit, step_retry, step_idle, step_in, transaction_step, transaction_complete, attempted,
  attempt_timeout_ms, no_outcome,
}

pub record IsValid (t : SendTransaction) : Type 0 where
  pub few : t.attempt ≤ max_attempts
  pub at_rest :
      (t.state ≢ idle) ⊎ ((t.active_completion_id ≡ 0) × (t.deadline_ms ≡ 0) × (t.retry_at_ms ≡ 0))
  pub started : (t.state ≡ idle) ⊎ ((1 ≤ t.attempt) × (0 < t.active_completion_id))
  pub on_air :
      (t.state ≢ sending)
      ⊎ ((t.retry_at_ms ≡ 0) × (t.last_now_ms < t.deadline_ms) × (t.deadline_ms ≤ u64_max))
  pub waits :
      (t.state ≢ wait_retry)
      ⊎ ((t.attempt < max_attempts)
          × (t.deadline_ms ≡ 0)
          × (t.last_now_ms < t.retry_at_ms)
          × (t.retry_at_ms ≤ u64_max))
  pub ids : t.next_completion_id ≤ u64_max

-- A transaction whose attempt is on its way or has just ended.
pub record InFlight (t : SendTransaction) (now_ms : ℕ) : Type 0 where
  pub few : t.attempt ≤ max_attempts
  pub one : 1 ≤ t.attempt
  pub id : 0 < t.active_completion_id
  pub clock : t.last_now_ms ≡ now_ms
  pub ids : t.next_completion_id ≤ u64_max

failed_attempt-IsValid :
    (t : SendTransaction) (now_ms : ℕ) (late : Bool) (trace : Trace)
    → InFlight t now_ms
    → IsValid (failed_attempt t now_ms late trace).0
unfolding failed_attempt
failed_attempt-IsValid t now_ms late trace v = ground arith

apply_result-IsValid :
    (t : SendTransaction) (result : AttemptResult) (now_ms : ℕ) (trace : Trace)
    → InFlight t now_ms
    → IsValid t
    → IsValid (apply_result t result now_ms trace).0
unfolding apply_result
apply_result-IsValid t success now_ms trace v w = ground arith
apply_result-IsValid t failure now_ms trace v w = failed_attempt-IsValid t now_ms false trace v
apply_result-IsValid t pending now_ms trace v w = w

start_attempt-IsValid :
    (t : SendTransaction) (now_ms : ℕ) (send_attempt : SendAttempt) (trace : Trace)
    → t.attempt < max_attempts
    → t.last_now_ms ≡ now_ms
    → t.next_completion_id ≤ u64_max
    → let (status, u, events) = start_attempt t now_ms send_attempt trace in
      (status ≢ ok) ⊎ IsValid u
unfolding start_attempt
start_attempt-IsValid t now_ms send_attempt trace few clock ids =
    elim (Bool-cases (t.next_completion_id == 0 || ltb (u64_max - attempt_timeout_ms) now_ms)) [
      | inl stuck ↦ rw stuck (inl (λ e. cc))
      | inr free ↦
          rw free (
            inr
              (apply_result-IsValid (attempted t now_ms) _ now_ms _ (ground arith) (ground arith)))
    ]

commit-IsValid :
    (t : SendTransaction) (q next_queue : ReplyQueue) (o : Status × SendTransaction × Trace)
    → IsValid t
    → (o.0 ≢ ok) ⊎ IsValid o.1
    → IsValid (commit t q next_queue o).1
unfolding commit
commit-IsValid t q r (ok, u, events) v (inl n) = absurd (n refl)
commit-IsValid t q r (ok, u, events) v (inr w) = w
commit-IsValid t q r (err_invalid, u, events) v w = v
commit-IsValid t q r (err_io, u, events) v w = v

-- The copy of the transaction that a step works on.
abbrev at_clock : SendTransaction → ℕ → SendTransaction
at_clock t now_ms = record t { last_now_ms = now_ms }

step_retry-IsValid :
    (t : SendTransaction) (q : ReplyQueue) (now_ms : ℕ) (send_attempt : SendAttempt)
    → t.state ≡ wait_retry
    → IsValid t
    → IsValid (step_retry t (at_clock t now_ms) q now_ms send_attempt).1
unfolding step_retry
step_retry-IsValid t q now_ms send_attempt e v =
    let few : t.attempt < max_attempts = ground arith in
    let retried =
      commit-IsValid t q q (start_attempt (at_clock t now_ms) now_ms send_attempt []) v
        (start_attempt-IsValid (at_clock t now_ms) now_ms send_attempt [] few refl v.ids) in
    ground arith

step_idle-IsValid :
    (t : SendTransaction) (q : ReplyQueue) (now_ms : ℕ) (send_attempt : SendAttempt)
    (o : Status × ReplyQueue × Option QueueEntry)
    → t.last_now_ms ≤ now_ms
    → t.state ≡ idle
    → IsValid t
    → IsValid (step_idle t (at_clock t now_ms) q now_ms send_attempt o).1
unfolding step_idle
step_idle-IsValid t q now_ms send_attempt (err_io, r, entry) l e v = ground arith
step_idle-IsValid t q now_ms send_attempt (err_invalid, r, entry) l e v = v
step_idle-IsValid t q now_ms send_attempt (ok, r, none) l e v = v
step_idle-IsValid t q now_ms send_attempt (ok, r, some entry) l e v = commit-IsValid t q r _ v (
    start_attempt-IsValid
      (record (at_clock t now_ms) { entry = entry; attempt = 0; last_outcome = no_outcome }) now_ms
      send_attempt [] (omega arith) refl v.ids)

step_sending-IsValid :
    (t : SendTransaction) (q : ReplyQueue) (now_ms : ℕ) (send_attempt : SendAttempt)
    → t.state ≡ sending
    → IsValid t
    → IsValid (step_in sending t (at_clock t now_ms) q now_ms send_attempt).1
unfolding step_in
step_sending-IsValid t q now_ms send_attempt e v =
    let over =
      failed_attempt-IsValid (at_clock t now_ms) now_ms true [] (record {
        few = v.few;
        one = ground arith;
        id = ground arith;
        clock = refl;
        ids = v.ids;
      }) in
    elim (Bool-cases (leb t.deadline_ms now_ms)) [
      | inl late ↦ rw late over
      | inr early ↦ rw early (ground arith)
    ]

step_in-IsValid :
    (s : SendState) (t : SendTransaction) (q : ReplyQueue) (now_ms : ℕ) (send_attempt : SendAttempt)
    → t.last_now_ms ≤ now_ms
    → t.state ≡ s
    → IsValid t
    → IsValid (step_in s t (at_clock t now_ms) q now_ms send_attempt).1
unfolding step_in
step_in-IsValid idle t q now_ms send_attempt l e v =
    step_idle-IsValid t q now_ms send_attempt (take_reply q now_ms) l e v
step_in-IsValid sending t q now_ms send_attempt l e v =
    step_sending-IsValid t q now_ms send_attempt e v
step_in-IsValid wait_retry t q now_ms send_attempt l e v =
    step_retry-IsValid t q now_ms send_attempt e v

pub transaction_step-IsValid :
    (t : SendTransaction) (q : ReplyQueue) (now_ms : ℕ) (send_attempt : SendAttempt)
    → IsValid t
    → IsValid (transaction_step t q now_ms send_attempt).1
unfolding transaction_step
transaction_step-IsValid t q now_ms send_attempt v =
    ground (arith, step_in-IsValid t.state t q now_ms send_attempt)

pub transaction_complete-IsValid :
    (t : SendTransaction) (completion_id : ℕ) (result : AttemptResult) (now_ms : ℕ)
    → IsValid t
    → IsValid (transaction_complete t completion_id result now_ms).1
unfolding transaction_complete
transaction_complete-IsValid t completion_id result now_ms v = ground arith

-- A call on the transaction; the queue is whatever its other users have made of it.
pub data SendCall : Type 0 where
  steps : ReplyQueue → ℕ → SendAttempt → SendCall
  completes : ℕ → AttemptResult → ℕ → SendCall

unfoldable pub send_call : SendTransaction → SendCall → SendTransaction × Trace
send_call t (steps q now_ms send_attempt) =
    let (status, u, r, events) = transaction_step t q now_ms send_attempt in (u, events)
send_call t (completes completion_id result now_ms) =
    let (status, u, events) = transaction_complete t completion_id result now_ms in (u, events)

-- The transaction after the calls, and all events that they wrote.
unfoldable pub send_run : SendTransaction → List SendCall → SendTransaction × Trace
send_run t [] = (t, [])
send_run t (call ∷ calls) =
    let (u, events) = send_call t call in let (w, later) = send_run u calls in (w, events ++ later)

send_call-IsValid :
    (t : SendTransaction) (call : SendCall) → IsValid t → IsValid (send_call t call).0
unfolding send_call
send_call-IsValid t (steps q now_ms send_attempt) v =
    transaction_step-IsValid t q now_ms send_attempt v
send_call-IsValid t (completes completion_id result now_ms) v =
    transaction_complete-IsValid t completion_id result now_ms v

send_run-keeps :
    (t : SendTransaction) (calls : List SendCall) → IsValid t → IsValid (send_run t calls).0
unfolding send_run
send_run-keeps t [] v = v
send_run-keeps t (call ∷ calls) v =
    send_run-keeps (send_call t call).0 calls (send_call-IsValid t call v)

-- After any history an entry has been attempted three times at most; an attempt that is on its way
-- has a deadline to come, a retry that waits is not the last and has a time to come, both in 64 bits;
-- and an idle transaction has neither of them and expects no completion.
pub send_run-IsValid :
    (start_ms : ℕ) (calls : List SendCall) → IsValid (send_run (transaction_init start_ms) calls).0
send_run-IsValid start_ms calls = send_run-keeps (transaction_init start_ms) calls (record {
  few = omega arith;
  at_rest = inr (refl, refl, refl);
  started = inl refl;
  on_air = inl (λ e. cc);
  waits = inl (λ e. cc);
  ids = omega arith;
})
