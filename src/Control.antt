-- ===== src/Control.antt =====
-- src/gvs_call_control.c and src/gvs_call_control.h: the call of the indoor unit, composed of its parts.
-- The senders of commands and of keep-alives, with what they remember, are arguments of a step: the
-- memory senders or those that were set in their place. `none` is DF_ERR_INVALID with nothing written.
-- An enumeration holds one of its values.
pub mod Step
pub mod View
pub mod Own
pub mod Reason
pub mod Preempt
pub mod Held
pub mod Ticks
pub mod Untouched
pub mod Accounts
pub mod Ended
pub mod Recorded
pub mod Lasting
mod Tests
use mathlib.Core.Option
use doorfast.Prelude.{
  ℕ, ◌+◌, ◌-◌, Bool, true, false, ◌&&◌, ◌||◌, not, Option, none, some, ltb, ◌==◌, if◌then◌else◌,
  Status, ok, err_invalid, err_io, is_ok, u64_max, Bytes, Address, zero_address, addr_eq,
}
use doorfast.Frame.{Frame, Event, parse}
use doorfast.Session.{Session, SessionState, ended, in_state, is_active}
use doorfast.Deadline.{Deadline}
use doorfast.Handshake.{
  Handshake, HandshakeResult, HandshakeAction, ActionType, no_result, empty_handshake,
  handshake_receive, ask, action_opcode,
}
use doorfast.Call.Command.{
  CallCommand, CommandType, hand_ask, hand_reply, zero_payload, prepare_answer, prepare_call,
  prepare_hangup,
}
use doorfast.Call.Dispatch.{Dispatch, at_work, dispatch_init, dispatch_enqueue}
use doorfast.Call.Ack.{Ack, ack_init, is_ack_waiting}
use doorfast.Runtime.{RuntimeResult, no_runtime, runtime_receive}

-- `enum df_gvs_call_end_reason` and `enum df_gvs_call_fault` of src/gvs_call_runtime.h
pub data EndReason : Type 0 where
  not_ended by_local_hangup by_peer_hangup by_session_timeout by_confirmation_timeout : EndReason
  by_preemption by_runtime_reset by_heartbeat_timeout by_unknown : EndReason

pub data Fault : Type 0 where
  no_fault dispatch_fails dispatch_times_out confirmation_rejected confirmation_times_out : Fault
  is_preempted is_cancelled runtime_reset heartbeat_times_out unknown_fault : Fault

abbrev pub has_ended : EndReason → Bool
has_ended not_ended = false
has_ended _ = true

abbrev pub is_fault : Fault → Bool
is_fault no_fault = false
is_fault _ = true

-- `struct df_gvs_call_terminal`
pub record Terminal : Type 0 where
  pub end_reason : EndReason
  pub fault : Fault
  pub station : Address
  pub generation : ℕ

-- `struct df_gvs_call_control`
pub record Control : Type 0 where
  pub dispatch : Dispatch
  pub acknowledgement : Ack
  pub handshake : Handshake
  pub handshake_dispatch : Dispatch
  pub handshake_dropped : ℕ
  pub terminal : Terminal
  pub fault : Fault
  pub observed_generation : ℕ

-- `struct df_gvs_call_control_result`
pub record ControlResult : Type 0 where
  pub runtime : RuntimeResult
  pub handshake : HandshakeResult
  pub handshake_frame_ready : Bool
  pub handshake_action_dropped : Bool
  pub frame_ready : Bool
  pub confirmation_started : Bool
  pub dispatch_failed : Bool
  pub dispatch_timed_out : Bool
  pub dispatch_cancelled : Bool

abbrev pub no_control_result : ControlResult
no_control_result = record {
  runtime = no_runtime;
  handshake = no_result;
  handshake_frame_ready = false;
  handshake_action_dropped = false;
  frame_ready = false;
  confirmation_started = false;
  dispatch_failed = false;
  dispatch_timed_out = false;
  dispatch_cancelled = false;
}

-- `df_gvs_call_control_record_terminal`, for the station and the generation of a session
unfoldable pub record_terminal : Control → EndReason → Fault → Session → Control
record_terminal c reason fault s =
    if s.generation == 0
      || (has_ended c.terminal.end_reason && c.terminal.generation == s.generation)
    then c
    else record c {
      terminal = record {
        end_reason = reason;
        fault = fault;
        station = s.peer;
        generation = s.generation;
      };
      fault = fault;
    }

abbrev pub observed : Session → Control → Control
observed s c = record c { observed_generation = s.generation }

-- The last case of the classification: the session has not ended.
unfoldable pub classify_going : Control → Session → Session → Fault → Control
classify_going c previous s fault =
    if is_fault fault
      && (not (has_ended c.terminal.end_reason) || not (c.terminal.generation == s.generation))
    then record c { fault = fault }
    else if not (is_active previous.state)
        && (is_active s.state && not (previous.generation == s.generation))
    then record c { fault = no_fault }
    else c

-- `df_gvs_call_control_classify_transition`
unfoldable pub classify : Control → Session → Session → ControlResult → Control
classify c previous s r =
    let fault : Fault =
      if r.runtime.acknowledgement_expired then confirmation_times_out else no_fault in
    if r.handshake.disconnected && is_active previous.state
    then observed s (record_terminal c by_heartbeat_timeout heartbeat_times_out previous)
    else if r.runtime.receive.preempted_session
    then observed s
        (record (if is_active previous.state
          then record_terminal c by_preemption is_preempted previous
          else c) { fault = no_fault })
    else if (r.runtime.session_timed_out || r.runtime.receive.timed_out_transition)
        && is_active previous.state
    then observed s (record_terminal c by_session_timeout no_fault previous)
    else if (r.runtime.receive.ended_transition || r.runtime.local_hangup)
        && (is_active previous.state && in_state s.state ended)
    then observed s (
        record_terminal c
          (if r.runtime.receive.local_hangup || r.runtime.local_hangup
            then by_local_hangup
            else by_peer_hangup)
          fault previous)
    else if is_active previous.state && in_state s.state ended
    then observed s (record_terminal c by_unknown fault previous)
    else observed s (classify_going c previous s fault)

-- `df_gvs_call_control_observe_external_end`
unfoldable pub observe_external_end : Control → Session → Session → Control
unfolding record_terminal
observe_external_end c previous s =
    if not (is_active previous.state)
      || (not (in_state s.state ended)
          || (not (previous.generation == s.generation) || not (addr_eq previous.peer s.peer)))
    then c
    else record_terminal c by_unknown no_fault previous

-- `df_gvs_call_control_init`
abbrev pub control_init_at : ℕ → Control
control_init_at now_ms = record {
  dispatch = dispatch_init now_ms;
  acknowledgement = ack_init now_ms;
  handshake = record empty_handshake { last_now_ms = now_ms };
  handshake_dispatch = dispatch_init now_ms;
  handshake_dropped = 0;
  terminal = record {
    end_reason = not_ended;
    fault = no_fault;
    station = zero_address;
    generation = 0;
  };
  fault = no_fault;
  observed_generation = 0;
}

-- `df_gvs_call_control_enqueue`
unfoldable pub control_enqueue : Control → CallCommand → ℕ → Status × Control
control_enqueue c command now_ms =
    if ltb now_ms c.acknowledgement.last_now_ms
    then (err_invalid, c)
    else if is_ack_waiting c.acknowledgement.state || at_work c.dispatch.state
    then (err_io, c)
    else (let (status, d) = dispatch_enqueue c.dispatch command now_ms in
        if is_ok status then (ok, record c { dispatch = d }) else (err_io, c))

abbrev pub submit_prepared : Control → ℕ → Option CallCommand → Status × Control
submit_prepared c now_ms none = (err_invalid, c)
submit_prepared c now_ms (some command) = control_enqueue c command now_ms

-- `df_gvs_call_control_submit_answer`
unfoldable pub submit_answer : Control → Session → ℕ → Address → ℕ → ℕ → ℕ → ℕ → Status × Control
unfolding control_enqueue
submit_answer c s expected local primary secondary duration now_ms =
    submit_prepared c now_ms (prepare_answer s expected local primary secondary duration)

-- `df_gvs_call_control_submit_call`
unfoldable pub submit_call : Control → Session → ℕ → Address → ℕ → ℕ → ℕ → ℕ → Status × Control
unfolding control_enqueue
submit_call c s expected local primary secondary duration now_ms =
    submit_prepared c now_ms (prepare_call s expected local primary secondary duration)

-- `df_gvs_call_control_submit_hangup`
unfoldable pub submit_hangup : Control → Session → ℕ → Address → ℕ → ℕ → Status × Control
unfolding control_enqueue
submit_hangup c s expected local reason now_ms =
    submit_prepared c now_ms (prepare_hangup s expected local reason)

abbrev pub is_ask : ActionType → Bool
is_ask ask = true
is_ask _ = false

abbrev pub hand_command : HandshakeAction → CallCommand
hand_command a = record {
  valid = true;
  kind = if is_ask a.kind then hand_ask else hand_reply;
  destination = a.destination;
  source = a.source;
  session_generation = a.session_generation;
  opcode = if is_ask a.kind then 0x51 else 0x52;
  payload = zero_payload;
  payload_length = 0;
}

-- `handshake_enqueue`
unfoldable pub handshake_enqueue : Control → HandshakeAction → ℕ → Status × Control
handshake_enqueue c a now_ms =
    if not a.valid
    then (ok, c)
    else (let (status, d) = dispatch_enqueue c.handshake_dispatch (hand_command a) now_ms in
        (status, record c { handshake_dispatch = d }))

abbrev pub count_dropped : Bool → Control → Control
count_dropped dropped c = record c {
  handshake_dropped =
      if dropped && ltb c.handshake_dropped u64_max
      then c.handshake_dropped + 1
      else c.handshake_dropped;
}

-- A keep-alive runs only while the session is active.
abbrev pub rest_handshake : Session → Control → Control
rest_handshake s c = record c {
  handshake = record c.handshake { active = is_active s.state && c.handshake.active };
}

abbrev pub Answer : Type 0
Answer = Option (Control × Session × Deadline × ControlResult)

-- A keep-alive frame; the session that the code works on is not stored.
unfoldable pub receive_hand : Control → Bytes → Address → Session → Deadline → ℕ → Answer
unfolding handshake_enqueue
receive_hand c datagram local s d now_ms =
    let (status, h, r) = handshake_receive c.handshake datagram s local now_ms in
    let (enqueued, next) = handshake_enqueue (record c { handshake = h }) r.action now_ms in
    if is_ok status
    then some (
      count_dropped (not (is_ok enqueued)) next,
      s,
      d,
      record no_control_result { handshake = r; handshake_action_dropped = not (is_ok enqueued) },
    )
    else none

unfoldable pub receive_call_frame : Control → Bytes → Address → Session → Deadline → ℕ → Answer
unfolding classify
receive_call_frame c datagram local s d now_ms =
    let (status, a, t, e, r) = runtime_receive c.acknowledgement datagram local s d now_ms in
    let result : ControlResult = record no_control_result { runtime = r } in
    if is_ok status
    then some
        (rest_handshake t (classify (record c { acknowledgement = a }) s t result), t, e, result)
    else none

unfoldable pub receive_parsed :
    Control → Bytes → Option (Frame × Event) → Address → Session → Deadline → ℕ → Answer
unfolding receive_hand receive_call_frame
receive_parsed c datagram none local s d now_ms = none
receive_parsed c datagram (some (f, e)) local s d now_ms =
    if f.family == 3 && (f.opcode == 0x51 || f.opcode == 0x52)
    then receive_hand c datagram local s d now_ms
    else receive_call_frame c datagram local s d now_ms

-- `df_gvs_call_control_receive`
unfoldable pub control_receive : Control → Bytes → Address → Session → Deadline → ℕ → Answer
unfolding receive_parsed
control_receive c datagram local s d now_ms =
    if ltb now_ms c.dispatch.last_now_ms
      || (ltb now_ms c.handshake.last_now_ms || ltb now_ms c.handshake_dispatch.last_now_ms)
    then none
    else receive_parsed c datagram (parse datagram) local s d now_ms
