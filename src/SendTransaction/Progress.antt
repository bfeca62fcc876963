-- ===== src/SendTransaction/Progress.antt =====
-- src/gvs_send_transaction.c: an entry whose sender never answers is given up.
use doorfast.Prelude.{
  ℕ, ◌+◌, ◌-◌, ◌*◌, ◌≤◌, ◌<◌, ◌≡◌, ◌≢◌, refl, ap, ◌⊎◌, inl, inr, false, List, [], ◌∷◌,
  if◌then◌else◌, arith, length, u64_max,
}
use doorfast.ReplyQueue.{ReplyQueue}
use doorfast.SendTransaction.{
  SendState, idle, sending, wait_retry, AttemptResult, success, failure, pending, SendTransaction,
  SendAttempt, Trace, is_idle, max_attempts, apply_result, start_attempt, commit, step_retry,
  step_in, transaction_step, attempted, attempt_timeout_ms,
}
use doorfast.SendTransaction.Invariant.{IsValid, transaction_step-IsValid}

-- The steps that are left, at most.
abbrev pub remaining : SendState → ℕ → ℕ
remaining idle attempt = 0
remaining sending attempt = 2 * (max_attempts - attempt) + 2
remaining wait_retry attempt = 2 * (max_attempts - attempt) + 1

abbrev pub steps_left : SendTransaction → ℕ
steps_left t = remaining t.state t.attempt

-- What a step that is due leaves, from `t` with `n` steps left.
record Advances (t : SendTransaction) (now_ms : ℕ) (u : SendTransaction) : Type 0 where
  clock : u.last_now_ms ≡ now_ms
  fewer : steps_left u < steps_left t
  deadline : u.deadline_ms ≤ now_ms + attempt_timeout_ms
  retry : u.retry_at_ms ≤ now_ms + attempt_timeout_ms
  id :
      (u.next_completion_id ≡ t.next_completion_id)
      ⊎ (u.next_completion_id ≡ t.next_completion_id + 1)

sending-Advances :
    (t : SendTransaction) (q : ReplyQueue) (now_ms : ℕ) (send_attempt : SendAttempt)
    → IsValid t
    → t.state ≡ sending
    → t.deadline_ms ≤ now_ms
    → now_ms + attempt_timeout_ms ≤ u64_max
    → let (status, u, r, events) =
        step_in sending t (record t { last_now_ms = now_ms }) q now_ms send_attempt in
      Advances t now_ms u × (r ≡ q)
unfolding step_in
sending-Advances t q now_ms send_attempt v e late room = (ground arith, ground arith)

apply_result-Advances :
    (t : SendTransaction) (now_ms : ℕ) (result : AttemptResult) (trace : Trace)
    → t.state ≡ sending
    → t.attempt ≤ max_attempts
    → t.deadline_ms ≤ now_ms + attempt_timeout_ms
    → t.retry_at_ms ≡ 0
    → let (u, events) = apply_result t result now_ms trace in
      (steps_left u ≤ steps_left t)
      × (u.deadline_ms ≤ now_ms + attempt_timeout_ms)
      × (u.retry_at_ms ≤ now_ms + attempt_timeout_ms)
      × (u.next_completion_id ≡ t.next_completion_id)
      × (u.last_now_ms ≡ t.last_now_ms)
unfolding apply_result
apply_result-Advances t now_ms success trace e few d r = ground arith
apply_result-Advances t now_ms failure trace e few d r = ground arith
apply_result-Advances t now_ms pending trace e few d r = ground arith

retry-Advances :
    (t : SendTransaction) (q : ReplyQueue) (now_ms : ℕ) (send_attempt : SendAttempt)
    → IsValid t
    → t.state ≡ wait_retry
    → t.retry_at_ms ≤ now_ms
    → t.next_completion_id ≢ 0
    → t.next_completion_id < u64_max
    → now_ms + attempt_timeout_ms ≤ u64_max
    → let (status, u, r, events) =
        step_retry t (record t { last_now_ms = now_ms }) q now_ms send_attempt in
      Advances t now_ms u × (r ≡ q)
unfolding step_retry start_attempt commit
retry-Advances t q now_ms send_attempt v e due some_left more room =
    let next = attempted (record t { last_now_ms = now_ms }) now_ms in
    let result = send_attempt next.entry next.attempt next.active_completion_id in
    ground (arith, apply_result-Advances next now_ms result)

-- A transaction at work takes a step that is due.
step-Advances :
    (s : SendState) (t : SendTransaction) (q : ReplyQueue) (now_ms : ℕ) (send_attempt : SendAttempt)
    → IsValid t
    → t.state ≡ s
    → s ≢ idle
    → t.deadline_ms ≤ now_ms
    → t.retry_at_ms ≤ now_ms
    → t.next_completion_id ≢ 0
    → t.next_completion_id < u64_max
    → now_ms + attempt_timeout_ms ≤ u64_max
    → let (status, u, r, events) =
        step_in s t (record t { last_now_ms = now_ms }) q now_ms send_attempt in
      Advances t now_ms u × (r ≡ q)
step-Advances idle t q now_ms send_attempt v e n d r i j room = absurd (n refl)
step-Advances sending t q now_ms send_attempt v e n d r i j room =
    sending-Advances t q now_ms send_attempt v e d room
step-Advances wait_retry t q now_ms send_attempt v e n d r i j room =
    unfold step_in in retry-Advances t q now_ms send_attempt v e r i j room

transaction_step_due :
    (t : SendTransaction) (q : ReplyQueue) (now_ms : ℕ) (send_attempt : SendAttempt)
    → t.last_now_ms ≤ now_ms
    → q.last_now_ms ≤ now_ms
    → now_ms + attempt_timeout_ms ≤ u64_max
    → transaction_step t q now_ms send_attempt
      ≡ step_in t.state t (record t { last_now_ms = now_ms }) q now_ms send_attempt
unfolding transaction_step
transaction_step_due t q now_ms send_attempt l m room = ground arith

-- Steps at the given clocks, until the transaction is idle.
unfoldable pub drive : SendTransaction → ReplyQueue → SendAttempt → List ℕ → SendTransaction
drive t q send_attempt [] = t
drive t q send_attempt (now_ms ∷ times) =
    let (status, u, r, events) = transaction_step t q now_ms send_attempt in
    let rest = drive u r send_attempt times in if is_idle t.state then t else rest

-- Clocks at least an attempt's timeout apart, from `first` on, with room for one more.
abbrev pub Spaced : ℕ → List ℕ → Type 0
Spaced first [] = Unit {0}
Spaced first (now_ms ∷ times) =
    (first ≤ now_ms)
    × (now_ms + attempt_timeout_ms ≤ u64_max)
    × Spaced (now_ms + attempt_timeout_ms) times

drive_idle :
    (t : SendTransaction) (q : ReplyQueue) (send_attempt : SendAttempt) (times : List ℕ)
    → t.state ≡ idle
    → (drive t q send_attempt times).state ≡ idle
unfolding drive
drive_idle t q send_attempt [] e = e
drive_idle t q send_attempt (now_ms ∷ times) e = rw (ap is_idle e) e

is_idle_cases : (s : SendState) → (s ≡ idle) ⊎ ((s ≢ idle) × (is_idle s ≡ false))
is_idle_cases idle = inl refl
is_idle_cases sending = inr ((λ e. cc), refl)
is_idle_cases wait_retry = inr ((λ e. cc), refl)

steps_left-le : (s : SendState) (attempt : ℕ) → (s ≡ idle) ⊎ (1 ≤ attempt) → remaining s attempt ≤ 6
steps_left-le idle attempt h = omega arith
steps_left-le sending attempt h = ground arith
steps_left-le wait_retry attempt h = ground arith

-- Whatever the sender answers, a transaction at work is idle again after as many steps as are left,
-- six at most, if each comes when it is due and completion ids do not run out.
pub drive_ends :
    (t : SendTransaction) (q : ReplyQueue) (send_attempt : SendAttempt) (first : ℕ) (times : List ℕ)
    → IsValid t
    → t.deadline_ms ≤ first
    → t.retry_at_ms ≤ first
    → t.last_now_ms ≤ first
    → q.last_now_ms ≤ first
    → t.next_completion_id ≢ 0
    → t.next_completion_id + steps_left t ≤ u64_max
    → steps_left t ≤ length times
    → Spaced first times
    → ((drive t q send_attempt times).state ≡ idle) × (steps_left t ≤ 6)
unfolding drive
drive_ends t q send_attempt first [] v d r l m i j n s =
    (ground arith, steps_left-le t.state t.attempt (ground arith))
drive_ends t q send_attempt first (now_ms ∷ times) v d r l m i j n s =
    let bound = steps_left-le t.state t.attempt (ground arith) in
    elim (is_idle_cases t.state) [
      | inl e ↦ (drive_idle t q send_attempt (now_ms ∷ times) e, bound)
      | inr (busy, e) ↦
          let u = (transaction_step t q now_ms send_attempt).1 in
          let (a, same) =
            rw (← transaction_step_due t q now_ms send_attempt (omega arith) (omega arith) s.1) at (
              step-Advances t.state t q now_ms send_attempt v refl busy (omega arith) (omega arith)
                i (ground arith) s.1) in
          let k = (transaction_step t q now_ms send_attempt).2 in
          let clock : k.last_now_ms ≡ q.last_now_ms = ap (λ (k : ReplyQueue). k.last_now_ms) same in
          let rest =
            drive_ends u k send_attempt (now_ms + attempt_timeout_ms) times
              (transaction_step-IsValid t q now_ms send_attempt v) a.deadline a.retry
              (omega (arith, a.clock)) (omega (arith, clock)) (omega (arith, a.id))
              (omega (arith, a.id, a.fewer)) (omega (arith, a.fewer)) s.2 in
          (rw e rest.0, bound)
    ]
