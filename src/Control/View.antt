-- ===== src/Control/View.antt =====
-- src/gvs_call_control.c, `df_gvs_call_control_status_with_deadline`: what is shown of a call. The
-- enumerations hold their values, so that every name is found.
use doorfast.Prelude.{
  ℕ, ◌-◌, Bool, ◌&&◌, Option, none, some, ltb, ◌==◌, if◌then◌else◌, is_ok, Address,
}
use doorfast.Session.{Session, SessionState, is_active}
use doorfast.Deadline.{Deadline, deadline_remaining}
use doorfast.Call.Command.{CommandType}
use doorfast.Call.Dispatch.{DispatchState}
use doorfast.Call.Ack.{AckState, is_ack_waiting}
use doorfast.Control.{Control, EndReason, not_ended, Fault}

-- `enum df_gvs_call_timer` of src/gvs_call_runtime.h
pub data CallTimer : Type 0 where
  no_timer confirmation_timer session_timer : CallTimer

-- `struct df_gvs_call_control_status`
pub record ControlStatus : Type 0 where
  pub session_state : SessionState
  pub session_generation : ℕ
  pub command_type : CommandType
  pub dispatch_state : DispatchState
  pub acknowledgement_state : AckState
  pub attempts : ℕ
  pub handshake_active : Bool
  pub handshake_missed : ℕ
  pub handshake_next_ms : ℕ
  pub handshake_dropped : ℕ
  pub handshake_dispatch : DispatchState
  pub end_reason : EndReason
  pub fault : Fault
  pub last_station : Address
  pub last_generation : ℕ
  pub timer : CallTimer
  pub remaining_ms : ℕ

abbrev pub larger : ℕ → ℕ → ℕ
larger a b = if ltb a b then b else a

-- The latest time that the parts have seen.
abbrev pub latest_ms : Control → ℕ
latest_ms c =
    larger (larger c.acknowledgement.last_now_ms c.dispatch.last_now_ms) c.handshake.last_now_ms

abbrev pub confirming : Control → Session → Bool
confirming c s =
    is_active s.state
    && (is_ack_waiting c.acknowledgement.state
        && c.acknowledgement.command.session_generation == s.generation)

-- The timer that runs, and what is left of it.
unfoldable pub shown_timer : Control → Session → Option Deadline → Option (CallTimer × ℕ)
shown_timer c s none =
    if confirming c s
    then some (confirmation_timer, c.acknowledgement.deadline_ms - latest_ms c)
    else some (no_timer, 0)
shown_timer c s (some d) =
    let (status, remaining) = deadline_remaining d (latest_ms c) in
    if confirming c s
    then some (confirmation_timer, c.acknowledgement.deadline_ms - latest_ms c)
    else if is_active s.state && (d.armed && d.generation == s.generation)
    then (if is_ok status then some (session_timer, remaining) else none)
    else some (no_timer, 0)

unfoldable pub status_with : Control → Session → Option (CallTimer × ℕ) → Option ControlStatus
status_with c s none = none
status_with c s (some (timer, remaining)) = some (record {
  session_state = s.state;
  session_generation = s.generation;
  command_type = c.dispatch.command.kind;
  dispatch_state = c.dispatch.state;
  acknowledgement_state = c.acknowledgement.state;
  attempts = c.dispatch.attempts;
  handshake_active = c.handshake.active;
  handshake_missed = c.handshake.missed_replies;
  handshake_next_ms =
      if c.handshake.active && ltb c.handshake.last_now_ms c.handshake.next_probe_ms
      then c.handshake.next_probe_ms - c.handshake.last_now_ms
      else 0;
  handshake_dropped = c.handshake_dropped;
  handshake_dispatch = c.handshake_dispatch.state;
  end_reason = if is_active s.state then not_ended else c.terminal.end_reason;
  fault = c.fault;
  last_station = c.terminal.station;
  last_generation = c.terminal.generation;
  timer = timer;
  remaining_ms = remaining;
})

-- `df_gvs_call_control_status_with_deadline`; `df_gvs_call_control_status` passes no deadline.
unfoldable pub control_status : Control → Session → Option Deadline → Option ControlStatus
unfolding shown_timer status_with
control_status c s d = status_with c s (shown_timer c s d)
