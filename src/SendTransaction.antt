-- ===== src/SendTransaction.antt =====
-- src/gvs_send_transaction.c and src/gvs_send_transaction.h: one queued reply at a time is handed to
-- the sender, with retries. The sender is a callback: a function from the entry, the attempt and the
-- completion id to its result. The trace is the list of the events written, `events[0 .. count)`.
pub mod Invariant
pub mod Progress
pub mod Ids
mod Tests
use doorfast.Prelude.{
  ℕ, ◌+◌, ◌-◌, ◌%◌, Bool, true, false, ◌&&◌, ◌||◌, not, Option, none, some, List, [], ◌∷◌, ◌++◌,
  ltb, leb, ◌==◌, if◌then◌else◌, Status, ok, err_invalid, err_io, u64_max, zero_address,
}
use doorfast.Frame.Serialize.{PeerReply}
use doorfast.ReplyQueue.{QueueEntry, ReplyQueue, take_reply}

-- `enum df_gvs_send_state`, `enum df_gvs_send_outcome`, `enum df_gvs_send_attempt_result` and
-- `enum df_gvs_send_event_type`
pub data SendState : Type 0 where
  idle sending wait_retry : SendState

pub data SendOutcome : Type 0 where
  no_outcome outcome_success outcome_failed outcome_timeout : SendOutcome

pub data AttemptResult : Type 0 where
  pending success failure : AttemptResult

pub data SendEventType : Type 0 where
  sent retried succeeds fails times_out : SendEventType

-- `struct df_gvs_send_event`
pub record SendEvent : Type 0 where
  pub kind : SendEventType
  pub attempt : ℕ
  pub completion_id : ℕ
  pub timed_out : Bool

abbrev pub Trace : Type 0
Trace = List SendEvent

abbrev pub zero_entry : QueueEntry
zero_entry = record {
  reply = record { target = zero_address; request_data0 = 0; request_data1 = 0 };
  expires_ms = 0;
  repeat_count = 0;
}

-- `struct df_gvs_send_transaction`
pub record SendTransaction : Type 0 where
  pub state : SendState
  pub last_outcome : SendOutcome
  pub entry : QueueEntry
  pub attempt : ℕ
  pub active_completion_id : ℕ
  pub next_completion_id : ℕ
  pub deadline_ms : ℕ
  pub retry_at_ms : ℕ
  pub last_now_ms : ℕ

abbrev pub SendAttempt : Type 0
SendAttempt = QueueEntry → ℕ → ℕ → AttemptResult

abbrev pub max_attempts : ℕ
max_attempts = 3

abbrev pub attempt_timeout_ms : ℕ
attempt_timeout_ms = 250

abbrev pub retry_delay_ms : ℕ
retry_delay_ms = 100

-- `df_gvs_send_trace_add`
abbrev pub trace_add : Trace → SendEventType → SendTransaction → Bool → Trace
trace_add trace kind t late =
    trace
    ++ (record {
      kind = kind;
      attempt = t.attempt;
      completion_id = t.active_completion_id;
      timed_out = late;
    }
        ∷ [])

-- `df_gvs_send_finish`
abbrev pub send_finish : SendTransaction → SendOutcome → SendTransaction
send_finish t outcome = record t {
  state = idle;
  last_outcome = outcome;
  deadline_ms = 0;
  retry_at_ms = 0;
  active_completion_id = 0;
  entry = zero_entry;
}

-- `df_gvs_send_failed_attempt`
unfoldable pub failed_attempt : SendTransaction → ℕ → Bool → Trace → SendTransaction × Trace
failed_attempt t now_ms late trace =
    if ltb t.attempt max_attempts
    then (if ltb (u64_max - retry_delay_ms) now_ms
        then (send_finish t outcome_timeout, trace_add trace times_out t true)
        else (
          record t { state = wait_retry; deadline_ms = 0; retry_at_ms = now_ms + retry_delay_ms },
          trace_add trace retried t late,
        ))
    else if late
    then (send_finish t outcome_timeout, trace_add trace times_out t true)
    else (send_finish t outcome_failed, trace_add trace fails t false)

-- `df_gvs_send_apply_result`
unfoldable pub apply_result : SendTransaction → AttemptResult → ℕ → Trace → SendTransaction × Trace
unfolding failed_attempt
apply_result t success now_ms trace =
    (send_finish t outcome_success, trace_add trace succeeds t false)
apply_result t failure now_ms trace = failed_attempt t now_ms false trace
apply_result t pending now_ms trace = (t, trace)

-- The id after `id`; 0 says that they are used up.
abbrev pub following_id : ℕ → ℕ
following_id id = if id == u64_max then 0 else id + 1

-- The transaction at the start of its next attempt.
abbrev pub attempted : SendTransaction → ℕ → SendTransaction
attempted t now_ms = record t {
  attempt = t.attempt + 1;
  active_completion_id = t.next_completion_id;
  next_completion_id = following_id t.next_completion_id;
  state = sending;
  retry_at_ms = 0;
  deadline_ms = now_ms + attempt_timeout_ms;
}

-- `df_gvs_send_start_attempt`
unfoldable pub start_attempt :
    SendTransaction → ℕ → SendAttempt → Trace → Status × SendTransaction × Trace
unfolding apply_result
start_attempt t now_ms send_attempt trace =
    if t.next_completion_id == 0 || ltb (u64_max - attempt_timeout_ms) now_ms
    then (err_io, t, trace)
    else (let next = attempted t now_ms in
        let result = send_attempt next.entry next.attempt next.active_completion_id in
        let (u, events) = apply_result next result now_ms (trace_add trace sent next false) in
        (ok, u, events))

-- `df_gvs_send_transaction_init`
abbrev pub transaction_init : ℕ → SendTransaction
transaction_init now_ms = record {
  state = idle;
  last_outcome = no_outcome;
  entry = zero_entry;
  attempt = 0;
  active_completion_id = 0;
  next_completion_id = 1;
  deadline_ms = 0;
  retry_at_ms = 0;
  last_now_ms = now_ms;
}

abbrev pub StepResult : Type 0
StepResult = Status × SendTransaction × ReplyQueue × Trace

-- `t` and `q` are what the code has at the start, `next` and `next_queue` its copies. An attempt that
-- cannot start leaves both as they were.
unfoldable pub commit :
    SendTransaction → ReplyQueue → ReplyQueue → Status × SendTransaction × Trace → StepResult
commit t q next_queue (ok, u, events) = (ok, u, next_queue, events)
commit t q next_queue (err_invalid, u, events) = (err_io, t, q, [])
commit t q next_queue (err_io, u, events) = (err_io, t, q, [])

unfoldable pub step_retry :
    SendTransaction → SendTransaction → ReplyQueue → ℕ → SendAttempt → StepResult
unfolding start_attempt commit
step_retry t next q now_ms send_attempt =
    if leb next.retry_at_ms now_ms && ltb (u64_max - attempt_timeout_ms) now_ms
    then (ok, send_finish next outcome_timeout, q, trace_add [] times_out next true)
    else if leb next.retry_at_ms now_ms
    then commit t q q (start_attempt next now_ms send_attempt [])
    else (ok, next, q, [])

-- The idle branch, with the result of `df_gvs_reply_queue_take` on the copy of the queue.
unfoldable pub step_idle :
    SendTransaction
    → SendTransaction
    → ReplyQueue
    → ℕ
    → SendAttempt
    → Status × ReplyQueue × Option QueueEntry
    → StepResult
unfolding start_attempt commit
step_idle t next q now_ms send_attempt (err_io, next_queue, entry) = (ok, next, next_queue, [])
step_idle t next q now_ms send_attempt (err_invalid, next_queue, entry) = (err_invalid, t, q, [])
-- `df_gvs_reply_queue_take` gives an entry whenever it succeeds: this case does not arise.
step_idle t next q now_ms send_attempt (ok, next_queue, none) = (err_invalid, t, q, [])
step_idle t next q now_ms send_attempt (ok, next_queue, some entry) = commit t q next_queue (
    start_attempt (record next { entry = entry; attempt = 0; last_outcome = no_outcome }) now_ms
      send_attempt [])

unfoldable pub step_in :
    SendState → SendTransaction → SendTransaction → ReplyQueue → ℕ → SendAttempt → StepResult
unfolding failed_attempt step_retry step_idle
step_in sending t next q now_ms send_attempt =
    if leb next.deadline_ms now_ms
    then (let (u, events) = failed_attempt next now_ms true [] in (ok, u, q, events))
    else (ok, next, q, [])
step_in wait_retry t next q now_ms send_attempt = step_retry t next q now_ms send_attempt
step_in idle t next q now_ms send_attempt =
    step_idle t next q now_ms send_attempt (take_reply q now_ms)

abbrev pub is_idle : SendState → Bool
is_idle idle = true
is_idle sending = false
is_idle wait_retry = false

-- `df_gvs_send_transaction_step`
unfoldable pub transaction_step : SendTransaction → ReplyQueue → ℕ → SendAttempt → StepResult
transaction_step t q now_ms send_attempt =
    if ltb now_ms t.last_now_ms
      || (ltb now_ms q.last_now_ms
          || (is_idle t.state && ltb (u64_max - attempt_timeout_ms) now_ms))
    then (err_invalid, t, q, [])
    else step_in t.state t (record t { last_now_ms = now_ms }) q now_ms send_attempt

abbrev pub is_sending : SendState → Bool
is_sending idle = false
is_sending sending = true
is_sending wait_retry = false

abbrev pub is_pending : AttemptResult → Bool
is_pending pending = true
is_pending success = false
is_pending failure = false

-- `df_gvs_send_transaction_complete`
unfoldable pub transaction_complete :
    SendTransaction → ℕ → AttemptResult → ℕ → Status × SendTransaction × Trace
unfolding failed_attempt apply_result
transaction_complete t completion_id result now_ms =
    if not (is_sending t.state)
      || (not (completion_id == t.active_completion_id)
          || (ltb now_ms t.last_now_ms || is_pending result))
    then (err_invalid, t, [])
    else (let next = record t { last_now_ms = now_ms } in
        let (u, events) =
          if leb next.deadline_ms now_ms
          then failed_attempt next now_ms true []
          else apply_result next result now_ms [] in
        (ok, u, events))
