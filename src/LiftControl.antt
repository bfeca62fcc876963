-- ===== src/LiftControl.antt =====
-- src/gvs_elevator_control.c, src/gvs_elevator_query.c and their headers: the transaction that calls
-- the lift, and the query of its status. The sender is an argument of an operation, `none` where the
-- code has NULL, and an operation also gives the requests that it has sent. An `unsigned` has 32 bits.
pub mod Answered
pub mod Sound
pub mod Transaction
pub mod Pace
mod Tests
use doorfast.Prelude.{
  ℕ, ◌+◌, ◌-◌, ◌^◌, Bool, true, false, ◌&&◌, ◌||◌, not, Option, none, some, List, [], ◌∷◌, ltb, leb,
  ◌==◌, if◌then◌else◌, Status, ok, err_invalid, u64_max, Address, zero_address, addr_eq,
}
use doorfast.Frame.{Frame}
use doorfast.Elevator.{Direction, ElevatorRequest, elevator_prepare_call, elevator_prepare_query}

-- `df_gvs_elevator_send_fn`: whether it returns DF_OK.
abbrev pub LiftSender : Type 0
LiftSender = ElevatorRequest → Bool

-- `DF_GVS_ELEVATOR_RETRY_DELAY_MS` and `DF_GVS_ELEVATOR_DEADLINE_MS`
abbrev pub retry_delay_ms : ℕ
retry_delay_ms = 1000

abbrev pub lift_deadline_ms : ℕ
lift_deadline_ms = 2000

-- `enum df_gvs_elevator_control_state`
pub data LiftState : Type 0 where
  idle waiting protocol_completed expired send_failed cancelled : LiftState

abbrev pub is_waiting : LiftState → Bool
is_waiting waiting = true
is_waiting _ = false

-- `struct df_gvs_elevator_control`
pub record LiftControl : Type 0 where
  pub state : LiftState
  pub request : ElevatorRequest
  pub transaction_id : ℕ
  pub last_now_ms : ℕ
  pub next_send_ms : ℕ
  pub deadline_ms : ℕ
  pub attempts : ℕ
  pub successful_sends : ℕ
  pub physical_result_confirmed : Bool

abbrev no_request : ElevatorRequest
no_request = record {
  valid = false;
  destination = zero_address;
  source = zero_address;
  opcode = 0;
  payload = [];
  payload_length = 0;
}

abbrev pub idle_control : ℕ → LiftControl
idle_control now_ms = record {
  state = idle;
  request = no_request;
  transaction_id = 0;
  last_now_ms = now_ms;
  next_send_ms = 0;
  deadline_ms = 0;
  attempts = 0;
  successful_sends = 0;
  physical_result_confirmed = false;
}

-- `df_gvs_elevator_control_init`
abbrev pub lift_init : ℕ → Option LiftSender → Option LiftControl
lift_init now_ms none = none
lift_init now_ms (some send) = some (idle_control now_ms)

abbrev is_some : Option ElevatorRequest → Bool
is_some none = false
is_some (some r) = true

-- `df_gvs_elevator_local_valid`
abbrev pub is_lift_user : Address → Bool
is_lift_user local = is_some (elevator_prepare_query local)

-- `df_gvs_elevator_finish`
abbrev pub lift_finish : LiftState → LiftControl → LiftControl
lift_finish state c = record c { state = state; next_send_ms = 0; deadline_ms = 0 }

abbrev pub LiftAnswer : Type 0
LiftAnswer = Status × LiftControl × List ElevatorRequest

abbrev pub count : Bool → ℕ
count b = if b then 1 else 0

unfoldable pub submitted : LiftSender → LiftControl → ElevatorRequest → ℕ → ℕ → LiftAnswer
submitted send c request transaction_id now_ms = (
  ok,
  record {
    state = waiting;
    request = request;
    transaction_id = transaction_id;
    last_now_ms = now_ms;
    next_send_ms = now_ms + retry_delay_ms;
    deadline_ms = now_ms + lift_deadline_ms;
    attempts = 1;
    successful_sends = count (send request);
    physical_result_confirmed = false;
  },
  request ∷ [],
)

abbrev pub submit_request : LiftSender → LiftControl → Option ElevatorRequest → ℕ → ℕ → LiftAnswer
submit_request send c none transaction_id now_ms = (err_invalid, c, [])
submit_request send c (some request) transaction_id now_ms =
    submitted send c request transaction_id now_ms

-- `df_gvs_elevator_control_submit`
unfoldable pub lift_submit : LiftSender → LiftControl → Address → Direction → ℕ → ℕ → LiftAnswer
unfolding submitted
lift_submit send c local direction transaction_id now_ms =
    if is_waiting c.state
      || (transaction_id == 0
          || (ltb now_ms c.last_now_ms || ltb (u64_max - lift_deadline_ms) now_ms))
    then (err_invalid, c, [])
    else submit_request send c (elevator_prepare_call local direction) transaction_id now_ms

-- The second and last attempt.
unfoldable pub lift_retry : LiftSender → LiftControl → LiftAnswer
lift_retry send c =
    if send c.request
    then (ok, record c { attempts = 2; successful_sends = c.successful_sends + 1 }, c.request ∷ [])
    else if c.successful_sends == 0
    then (ok, lift_finish send_failed (record c { attempts = 2 }), c.request ∷ [])
    else (ok, record c { attempts = 2 }, c.request ∷ [])

-- `df_gvs_elevator_control_tick`
unfoldable pub lift_tick : LiftSender → LiftControl → Address → ℕ → LiftAnswer
unfolding lift_retry
lift_tick send c local now_ms =
    let next : LiftControl = record c { last_now_ms = now_ms } in
    if ltb now_ms c.last_now_ms || not (is_lift_user local)
    then (err_invalid, c, [])
    else if not (is_waiting c.state)
    then (ok, next, [])
    else if not (addr_eq c.request.source local)
    then (ok, lift_finish cancelled next, [])
    else if leb c.deadline_ms now_ms
    then (ok, lift_finish expired next, [])
    else if c.attempts == 1 && leb c.next_send_ms now_ms
    then lift_retry send next
    else (ok, next, [])

-- `df_gvs_elevator_control_observe`
unfoldable pub lift_observe : LiftControl → Address → Frame → ℕ → Status × LiftControl
lift_observe c local f now_ms =
    if not (is_waiting c.state)
      || (c.successful_sends == 0 || (ltb now_ms c.last_now_ms || leb c.deadline_ms now_ms))
    then (err_invalid, c)
    else if not (is_lift_user local)
        || (not (addr_eq c.request.source local)
            || (not (f.family == 0x08) || not (f.opcode == 0x82)))
    then (err_invalid, c)
    else if not (addr_eq f.source c.request.destination) || not (addr_eq f.destination local)
    then (err_invalid, c)
    else (
      ok,
      lift_finish protocol_completed
          (record c { last_now_ms = now_ms; physical_result_confirmed = false }),
    )

-- `DF_GVS_ELEVATOR_QUERY_INTERVAL_MS`
abbrev pub query_interval_ms : ℕ
query_interval_ms = 1000

-- `struct df_gvs_elevator_query`
pub record LiftQuery : Type 0 where
  pub enabled : Bool
  pub local : Address
  pub last_now_ms : ℕ
  pub next_query_ms : ℕ
  pub attempts : ℕ
  pub successful_sends : ℕ
  pub failed_sends : ℕ

abbrev pub fresh_query : Address → Bool → ℕ → LiftQuery
fresh_query local enabled now_ms = record {
  enabled = enabled;
  local = local;
  last_now_ms = now_ms;
  next_query_ms = now_ms;
  attempts = 0;
  successful_sends = 0;
  failed_sends = 0;
}

-- `df_gvs_elevator_query_init`
unfoldable pub query_init : Address → Bool → ℕ → Option LiftSender → Option LiftQuery
query_init local enabled now_ms none = none
query_init local enabled now_ms (some send) =
    if is_lift_user local then some (fresh_query local enabled now_ms) else none

-- `UINT_MAX`
abbrev pub uint_max : ℕ
uint_max = 2 ^ 32 - 1

-- A counter that stays at its largest value.
abbrev pub bump : ℕ → ℕ
bump n = if ltb n uint_max then n + 1 else n

unfoldable pub send_query : LiftSender → LiftQuery → Option ElevatorRequest → ℕ → Status × LiftQuery
send_query send q none now_ms = (err_invalid, q)
send_query send q (some request) now_ms =
    let sent = send request in
    (
      ok,
      record q {
        last_now_ms = now_ms;
        next_query_ms = now_ms + query_interval_ms;
        attempts = bump q.attempts;
        successful_sends = if sent then bump q.successful_sends else q.successful_sends;
        failed_sends = if sent then q.failed_sends else bump q.failed_sends;
      },
    )

-- `df_gvs_elevator_query_tick`
unfoldable pub query_tick : LiftSender → LiftQuery → ℕ → Status × LiftQuery
unfolding send_query
query_tick send q now_ms =
    if ltb now_ms q.last_now_ms || (q.enabled && ltb (u64_max - query_interval_ms) now_ms)
    then (err_invalid, q)
    else if not q.enabled || ltb now_ms q.next_query_ms
    then (ok, record q { last_now_ms = now_ms })
    else send_query send q (elevator_prepare_query q.local) now_ms
