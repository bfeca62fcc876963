-- ===== src/SendTransaction/Ids.antt =====
-- src/gvs_send_transaction.c: completion ids are used once, and a trace fits its two events.
use doorfast.Prelude.{
  ℕ, ◌-◌, ◌≤◌, ◌≡◌, ◌≢◌, ◌⊎◌, inl, inr, Bool, true, false, ◌||◌, Option, none, some, List, [], ◌∷◌,
  ltb, ◌==◌, Bool-cases, if◌then◌else◌, arith, length, Status, ok, err_invalid, err_io, u64_max,
}
use doorfast.ReplyQueue.{QueueEntry, ReplyQueue, take_reply}
use doorfast.SendTransaction.{
  SendState, idle, sending, wait_retry, AttemptResult, pending, success, failure, SendTransaction,
  SendAttempt, SendEvent, SendEventType, sent, Trace, failed_attempt, apply_result, start_attempt,
  commit, step_retry, step_idle, step_in, transaction_step, transaction_complete, attempted,
  attempt_timeout_ms, following_id, no_outcome,
}
use doorfast.SendTransaction.Invariant.{SendCall, steps, completes, send_call}

abbrev is_sent : SendEventType → Bool
is_sent sent = true
is_sent _ = false

-- The completion ids of the attempts that a trace tells of.
abbrev pub sent_ids : Trace → List ℕ
sent_ids [] = []
sent_ids (e ∷ es) = if is_sent e.kind then e.completion_id ∷ sent_ids es else sent_ids es

-- The ids are given out one after the other from `next` on; 0 says that there is none left.
abbrev pub Issued : ℕ → List ℕ → Type 0
Issued next [] = Unit {0}
Issued next (id ∷ ids) = (id ≡ next) × (next ≢ 0) × Issued (following_id next) ids

-- What an operation writes from `t` to `u`: at most two events, and at most one new id.
pub record Writes (t u : SendTransaction) (events : Trace) : Type 0 where
  pub room : length events ≤ 2
  pub issue :
      ((sent_ids events ≡ []) × (u.next_completion_id ≡ t.next_completion_id))
      ⊎ ((sent_ids events ≡ t.next_completion_id ∷ [])
          × (t.next_completion_id ≢ 0)
          × (u.next_completion_id ≡ following_id t.next_completion_id))

failed_attempt-Writes :
    (t : SendTransaction) (now_ms : ℕ) (late : Bool)
    → let (u, events) = failed_attempt t now_ms late [] in Writes t u events
unfolding failed_attempt
failed_attempt-Writes t now_ms late = ground arith

-- The result of an attempt adds at most one event, and none of a new attempt.
abbrev Adds : SendEvent → SendTransaction → SendTransaction × Trace → Type 0
Adds e t o =
    (length o.1 ≤ 2)
    × (sent_ids o.1 ≡ sent_ids (e ∷ []))
    × (o.0.next_completion_id ≡ t.next_completion_id)

apply_result-Adds :
    (t : SendTransaction) (result : AttemptResult) (now_ms : ℕ) (e : SendEvent)
    → Adds e t (apply_result t result now_ms (e ∷ []))
unfolding apply_result
apply_result-Adds t success now_ms e = ground arith
apply_result-Adds t failure now_ms e = ground arith
apply_result-Adds t pending now_ms e = ground arith

-- The same for a completion, whose trace is empty before.
apply_result-Writes :
    (t : SendTransaction) (result : AttemptResult) (now_ms : ℕ)
    → let (u, events) = apply_result t result now_ms [] in Writes t u events
unfolding apply_result
apply_result-Writes t success now_ms = ground arith
apply_result-Writes t failure now_ms = ground arith
apply_result-Writes t pending now_ms = ground arith

start_attempt-Writes :
    (t : SendTransaction) (now_ms : ℕ) (send_attempt : SendAttempt)
    → let (status, u, events) = start_attempt t now_ms send_attempt [] in Writes t u events
unfolding start_attempt
start_attempt-Writes t now_ms send_attempt =
    elim (Bool-cases (t.next_completion_id == 0 || ltb (u64_max - attempt_timeout_ms) now_ms)) [
      | inl stuck ↦ rw stuck (ground arith)
      | inr free ↦
          let next = attempted t now_ms in
          let result = send_attempt next.entry next.attempt next.active_completion_id in
          let (room, ids, after) = apply_result-Adds next result now_ms (record {
            kind = sent;
            attempt = next.attempt;
            completion_id = next.active_completion_id;
            timed_out = false;
          }) in
          rw free (record { room = room; issue = inr (ids, ground arith, after) })
    ]

commit-Writes :
    (t next : SendTransaction) (q r : ReplyQueue) (o : Status × SendTransaction × Trace)
    → next.next_completion_id ≡ t.next_completion_id
    → Writes next o.1 o.2
    → Writes t (commit t q r o).1 (commit t q r o).3
unfolding commit
commit-Writes t next q r (ok, u, events) e w = ground arith
commit-Writes t next q r (err_invalid, u, events) e w = ground arith
commit-Writes t next q r (err_io, u, events) e w = ground arith

step_retry-Writes :
    (t next : SendTransaction) (q : ReplyQueue) (now_ms : ℕ) (send_attempt : SendAttempt)
    → next.next_completion_id ≡ t.next_completion_id
    → let (status, u, r, events) = step_retry t next q now_ms send_attempt in Writes t u events
unfolding step_retry
step_retry-Writes t next q now_ms send_attempt e =
    let retried =
      commit-Writes t next q q (start_attempt next now_ms send_attempt []) e
        (start_attempt-Writes next now_ms send_attempt) in
    ground arith

step_idle-Writes :
    (t next : SendTransaction) (q : ReplyQueue) (now_ms : ℕ) (send_attempt : SendAttempt)
    (o : Status × ReplyQueue × Option QueueEntry)
    → next.next_completion_id ≡ t.next_completion_id
    → let (status, u, r, events) = step_idle t next q now_ms send_attempt o in Writes t u events
unfolding step_idle
step_idle-Writes t next q now_ms send_attempt (err_io, r, entry) e = ground arith
step_idle-Writes t next q now_ms send_attempt (err_invalid, r, entry) e = ground arith
step_idle-Writes t next q now_ms send_attempt (ok, r, none) e = ground arith
step_idle-Writes t next q now_ms send_attempt (ok, r, some entry) e =
    let begun = record next { entry = entry; attempt = 0; last_outcome = no_outcome } in
    commit-Writes t begun q r (start_attempt begun now_ms send_attempt []) e
      (start_attempt-Writes begun now_ms send_attempt)

step_in-Writes :
    (s : SendState) (t next : SendTransaction) (q : ReplyQueue) (now_ms : ℕ)
    (send_attempt : SendAttempt)
    → next.next_completion_id ≡ t.next_completion_id
    → let (status, u, r, events) = step_in s t next q now_ms send_attempt in Writes t u events
unfolding step_in
step_in-Writes idle t next q now_ms send_attempt e =
    step_idle-Writes t next q now_ms send_attempt (take_reply q now_ms) e
step_in-Writes wait_retry t next q now_ms send_attempt e =
    step_retry-Writes t next q now_ms send_attempt e
step_in-Writes sending t next q now_ms send_attempt e =
    ground (arith, failed_attempt-Writes next now_ms true)

transaction_step-Writes :
    (t : SendTransaction) (q : ReplyQueue) (now_ms : ℕ) (send_attempt : SendAttempt)
    → let (status, u, r, events) = transaction_step t q now_ms send_attempt in Writes t u events
unfolding transaction_step
transaction_step-Writes t q now_ms send_attempt =
    ground
      (arith, step_in-Writes t.state t (record t { last_now_ms = now_ms }) q now_ms send_attempt)

transaction_complete-Writes :
    (t : SendTransaction) (completion_id : ℕ) (result : AttemptResult) (now_ms : ℕ)
    → let (status, u, events) = transaction_complete t completion_id result now_ms in
      Writes t u events
unfolding transaction_complete
transaction_complete-Writes t completion_id result now_ms =
    let next = record t { last_now_ms = now_ms } in
    ground (arith, failed_attempt-Writes next now_ms true, apply_result-Writes next result now_ms)

-- Every step and every completion writes at most two events: the trace's array is never overrun.
pub send_call-Writes :
    (t : SendTransaction) (call : SendCall)
    → let (u, events) = send_call t call in Writes t u events
unfolding send_call
send_call-Writes t (steps q now_ms send_attempt) = transaction_step-Writes t q now_ms send_attempt
send_call-Writes t (completes completion_id result now_ms) =
    transaction_complete-Writes t completion_id result now_ms
