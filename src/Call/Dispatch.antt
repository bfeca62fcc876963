-- ===== src/Call/Dispatch.antt =====
-- src/gvs_call_dispatch.c and src/gvs_call_dispatch.h: the single command that is being sent. The sender
-- is a callback: a function from the command, the attempt and the completion id to its result.
pub mod Invariant
pub mod Current
pub mod Enqueue
pub mod Progress
use doorfast.Prelude.{
  ℕ, ◌+◌, ◌-◌, ◌*◌, Bool, true, false, ◌&&◌, ◌||◌, not, Option, none, some, [], ltb, leb, ◌==◌,
  if◌then◌else◌, length, take, Status, ok, err_invalid, err_io, u64, u64_max, Bytes, zero_block,
  Address, zero_address, addr_eq, bytes_eq,
}
use doorfast.Frame.Serialize.{HeaderProvider}
use doorfast.Session.{
  Session, SessionState, preview, ringing, in_state, is_active, is_null, empty_session,
}
use doorfast.SendTransaction.{
  AttemptResult, pending, success, failure, is_pending, attempt_timeout_ms, retry_delay_ms,
  max_attempts,
}
use doorfast.Call.Command.{
  CallCommand, CommandType, no_command, answer, hangup, call, is_command, is_pick, is_hand, Payload,
  payload_list, zero_payload, prepare_answer, prepare_call, prepare_hangup, command_serialize,
}
use doorfast.Call.Sender.{placeholder_fields}

-- `enum df_gvs_call_dispatch_state`
pub data DispatchState : Type 0 where
  empty queued sending retry sent failed timeout cancelled : DispatchState

abbrev pub empty_command : CallCommand
empty_command = record {
  valid = false;
  kind = no_command;
  destination = zero_address;
  source = zero_address;
  session_generation = 0;
  opcode = 0;
  payload = zero_payload;
  payload_length = 0;
}

-- `struct df_gvs_call_dispatch`
pub record Dispatch : Type 0 where
  pub state : DispatchState
  pub command : CallCommand
  pub last_now_ms : ℕ
  pub deadline_ms : ℕ
  pub next_id : ℕ
  pub active_id : ℕ
  pub attempts : ℕ

-- `df_gvs_call_attempt_fn` with its context
abbrev pub CommandAttempt : Type 0
CommandAttempt = CallCommand → ℕ → ℕ → AttemptResult

-- `active`
abbrev pub at_work : DispatchState → Bool
at_work queued = true
at_work sending = true
at_work retry = true
at_work empty = false
at_work sent = false
at_work failed = false
at_work timeout = false
at_work cancelled = false

-- The state that the session must be in for a command.
abbrev pub state_fits : CommandType → SessionState → Bool
state_fits kind s =
    if is_command kind answer
    then in_state s ringing
    else if is_command kind call
    then in_state s preview
    else is_active s

-- `current`
unfoldable pub dispatch_current : Dispatch → Session → Address → Bool
dispatch_current d s local =
    d.command.session_generation == s.generation
    && (addr_eq d.command.destination s.peer
        && (addr_eq d.command.source local && state_fits d.command.kind s.state))

-- `finish`
abbrev pub dispatch_finish : Dispatch → DispatchState → Dispatch
dispatch_finish d state = record d { state = state; active_id = 0; deadline_ms = 0 }

-- `failed`
unfoldable pub dispatch_failed : Dispatch → ℕ → Bool → Dispatch
dispatch_failed d now_ms late =
    if leb max_attempts d.attempts
    then dispatch_finish d (if late then timeout else failed)
    else if ltb (u64_max - retry_delay_ms) now_ms
    then dispatch_finish d timeout
    else record d { active_id = 0; state = retry; deadline_ms = now_ms + retry_delay_ms }

-- `df_gvs_call_dispatch_init`
abbrev pub dispatch_init : ℕ → Dispatch
dispatch_init now_ms = record {
  state = empty;
  command = empty_command;
  last_now_ms = now_ms;
  deadline_ms = 0;
  next_id = 1;
  active_id = 0;
  attempts = 0;
}

-- The session that the command is prepared again for.
abbrev pub probe_session : CallCommand → SessionState → Session
probe_session c state = record empty_session {
  state = state;
  generation = c.session_generation;
  peer = c.destination;
}

abbrev keep_if_sent : CallCommand → Option Bytes → Option CallCommand
keep_if_sent c none = none
keep_if_sent c (some frame) = some c

abbrev port : ℕ → ℕ → ℕ
port high low = high * 256 + low

-- `checked`: the command as `prepare_*` would make it, or the command itself for a keep-alive.
unfoldable pub checked_command : CallCommand → Option CallCommand
unfolding prepare_answer prepare_call prepare_hangup command_serialize
checked_command c =
    if is_pick c.kind && c.payload_length == 7
    then (if is_command c.kind call
        then prepare_call (probe_session c preview) c.session_generation c.source
            (port c.payload.p1 c.payload.p2) (port c.payload.p4 c.payload.p5) c.payload.p6
        else prepare_answer (probe_session c ringing) c.session_generation c.source
            (port c.payload.p1 c.payload.p2) (port c.payload.p4 c.payload.p5) c.payload.p6)
    else if is_command c.kind hangup && c.payload_length == 1
    then prepare_hangup (probe_session c ringing) c.session_generation c.source c.payload.p0
    else if is_hand c.kind
    then keep_if_sent c (command_serialize c 49 (some placeholder_fields))
    else none

-- The comparison of the checked command with the one given, and what follows it.
unfoldable pub enqueue_checked : Dispatch → CallCommand → ℕ → Option CallCommand → Status × Dispatch
enqueue_checked d c now_ms none = (err_invalid, d)
enqueue_checked d c now_ms (some checked) =
    if not (checked.opcode == c.opcode)
      || not (
          bytes_eq (take c.payload_length (payload_list checked.payload))
            (take c.payload_length (payload_list c.payload)))
    then (err_invalid, d)
    else if d.next_id == 0 || ltb (u64_max - attempt_timeout_ms) now_ms
    then (err_io, d)
    else (
      ok,
      record d {
        command = checked;
        state = queued;
        last_now_ms = now_ms;
        deadline_ms = now_ms + attempt_timeout_ms;
        attempts = 0;
        active_id = 0;
      },
    )

-- `df_gvs_call_dispatch_enqueue`
unfoldable pub dispatch_enqueue : Dispatch → CallCommand → ℕ → Status × Dispatch
dispatch_enqueue d c now_ms =
    if ltb now_ms d.last_now_ms || not c.valid
    then (err_invalid, d)
    else if at_work d.state
    then (err_io, d)
    else enqueue_checked d c now_ms (checked_command c)

abbrev pub is_dispatch_sending : DispatchState → Bool
is_dispatch_sending sending = true
is_dispatch_sending _ = false

abbrev pub is_retry : DispatchState → Bool
is_retry retry = true
is_retry _ = false

abbrev pub is_queued : DispatchState → Bool
is_queued queued = true
is_queued _ = false

-- The attempt, before the sender is called.
abbrev pub dispatch_attempt : Dispatch → ℕ → Dispatch
dispatch_attempt d now_ms = record d {
  active_id = d.next_id;
  next_id = u64 (d.next_id + 1);
  attempts = d.attempts + 1;
  state = sending;
  deadline_ms = now_ms + attempt_timeout_ms;
}

unfoldable pub dispatch_result : Dispatch → ℕ → AttemptResult → Dispatch
unfolding dispatch_failed
dispatch_result d now_ms success = dispatch_finish d sent
dispatch_result d now_ms failure = dispatch_failed d now_ms false
dispatch_result d now_ms pending = d

-- `df_gvs_call_dispatch_step` from its test of `active` on; `d` has the clock already.
unfoldable pub dispatch_work : Dispatch → Session → Address → ℕ → CommandAttempt → Dispatch
unfolding dispatch_failed dispatch_result
dispatch_work d s local now_ms send =
    if not (at_work d.state)
    then d
    else if not (dispatch_current d s local)
    then dispatch_finish d cancelled
    else if is_dispatch_sending d.state
    then (if leb d.deadline_ms now_ms then dispatch_failed d now_ms true else d)
    else if is_retry d.state && ltb now_ms d.deadline_ms
    then d
    else if (is_queued d.state && leb d.deadline_ms now_ms)
        || ltb (u64_max - attempt_timeout_ms) now_ms
    then dispatch_finish d timeout
    else if d.next_id == 0
    then dispatch_finish d failed
    else (let next = dispatch_attempt d now_ms in
        dispatch_result next now_ms (send next.command next.attempts next.active_id))

-- `df_gvs_call_dispatch_step`
unfoldable pub dispatch_step : Dispatch → Session → Address → ℕ → CommandAttempt → Status × Dispatch
unfolding dispatch_work
dispatch_step d s local now_ms send =
    if ltb now_ms d.last_now_ms
    then (err_invalid, d)
    else (ok, dispatch_work (record d { last_now_ms = now_ms }) s local now_ms send)

-- `df_gvs_call_dispatch_complete` once it has accepted the completion.
unfoldable pub dispatch_completed : Dispatch → Session → Address → ℕ → AttemptResult → Dispatch
unfolding dispatch_failed
dispatch_completed d s local now_ms result =
    if not (dispatch_current d s local)
    then dispatch_finish d cancelled
    else if leb d.deadline_ms now_ms
    then dispatch_failed d now_ms true
    else elim result [ success ↦ dispatch_finish d sent | _ ↦ dispatch_failed d now_ms false ]

-- `df_gvs_call_dispatch_complete`
unfoldable pub dispatch_complete :
    Dispatch → Session → Address → ℕ → ℕ → AttemptResult → Status × Dispatch
unfolding dispatch_completed
dispatch_complete d s local now_ms id result =
    if ltb now_ms d.last_now_ms
      || (not (is_dispatch_sending d.state)
          || (id == 0 || (not (id == d.active_id) || is_pending result)))
    then (err_invalid, d)
    else (ok, dispatch_completed (record d { last_now_ms = now_ms }) s local now_ms result)
