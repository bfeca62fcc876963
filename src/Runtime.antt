-- ===== src/Runtime.antt =====
-- src/gvs_call_runtime.c and src/gvs_call_runtime.h: the acknowledgement, the session and its deadline
-- together. A refused tick leaves everything as it was; a received datagram is worked on in place, and
-- all that is written is returned.
use doorfast.Prelude.{
  ℕ, Bool, true, false, ◌&&◌, ◌||◌, not, Option, none, some, ◌==◌, if◌then◌else◌, Status, ok,
  err_invalid, is_ok, Bytes, Address,
}
use doorfast.Frame.{Frame, Event, parse}
use doorfast.Session.{Session, session_abort}
use doorfast.Deadline.{Deadline, cancelled, deadline_tick}
use doorfast.Call.Command.{hangup, is_command, is_pick}
use doorfast.Call.Ack.{Ack, AckState, expired, is_ack_waiting, ack_tick, ack_observe}
use doorfast.Receive.{ReceiveResult, nothing_received, receive_frame, Received}

-- `struct df_gvs_call_runtime_result`
pub record RuntimeResult : Type 0 where
  pub receive : ReceiveResult
  pub acknowledgement_confirmed : Bool
  pub acknowledgement_rejected : Bool
  pub acknowledgement_expired : Bool
  pub acknowledgement_cancelled : Bool
  pub session_timed_out : Bool
  pub local_hangup : Bool

abbrev pub no_runtime : RuntimeResult
no_runtime = record {
  receive = nothing_received;
  acknowledgement_confirmed = false;
  acknowledgement_rejected = false;
  acknowledgement_expired = false;
  acknowledgement_cancelled = false;
  session_timed_out = false;
  local_hangup = false;
}

abbrev pub is_ack_expired : AckState → Bool
is_ack_expired expired = true
is_ack_expired _ = false

abbrev pub is_ack_cancelled : AckState → Bool
is_ack_cancelled AckState.cancelled = true
is_ack_cancelled _ = false

-- `df_gvs_call_runtime_expected_ack`
unfoldable pub expected_ack : Ack → Frame → Bool
expected_ack a f =
    f.family == 0x03
    && ((is_pick a.command.kind && f.opcode == 0x83)
        || (is_command a.command.kind hangup && f.opcode == 0x82))

-- `df_gvs_call_runtime_record_terminal`
unfoldable pub record_ack_end : AckState → Ack → RuntimeResult → RuntimeResult
record_ack_end previous a r = record r {
  acknowledgement_expired =
      (is_ack_waiting previous && is_ack_expired a.state) || r.acknowledgement_expired;
  acknowledgement_cancelled =
      (is_ack_waiting previous && is_ack_cancelled a.state) || r.acknowledgement_cancelled;
}

abbrev pub Outcome : Type 0
Outcome = Status × Ack × Session × Deadline × RuntimeResult

-- The session ends with a hang-up of the unit's own, confirmed or not.
unfoldable pub hang_up : Ack → Session → RuntimeResult → Session × RuntimeResult
hang_up a s r =
    let (status, t, done) = session_abort s in
    (
      t,
      record r {
        receive = record r.receive { ended_transition = done; local_hangup = true };
        local_hangup = true;
      },
    )

abbrev pub hangup_expired : Ack → RuntimeResult → Bool
hangup_expired a r = r.acknowledgement_expired && is_command a.command.kind hangup

unfoldable pub end_expired :
    Ack → Session → Deadline → RuntimeResult → Session × Deadline × RuntimeResult
unfolding hang_up
end_expired a s d r =
    if hangup_expired a r then (let (t, q) = hang_up a s r in (t, cancelled, q)) else (s, d, r)

-- `df_gvs_call_runtime_tick`
unfoldable pub runtime_tick : Ack → Address → Session → Deadline → ℕ → Outcome
unfolding record_ack_end end_expired
runtime_tick a identity s d now_ms =
    let (timed, e, t, timed_out) = deadline_tick d s now_ms in
    let (ticked, b) = ack_tick a t identity now_ms in
    if is_ok timed && is_ok ticked
    then (let r = record_ack_end a.state b (record no_runtime { session_timed_out = timed_out }) in
        let (u, g, q) = end_expired b t e r in (ok, b, u, g, q))
    else (err_invalid, a, s, d, no_runtime)

abbrev pub with_received : Ack → RuntimeResult → Received → Outcome
with_received a r (status, s, d, received) = (status, a, s, d, record r { receive = received })

-- A frame that may acknowledge the command.
unfoldable pub receive_ack :
    Ack → Frame → Event → Address → Session → Deadline → ℕ → RuntimeResult → Outcome
unfolding hang_up
receive_ack a f e identity s d now_ms r =
    let (observed, b) = ack_observe a s identity f now_ms in
    if not (is_ack_waiting a.state) || not (is_ok observed)
    then (ok, a, s, d, record r { acknowledgement_rejected = true })
    else if is_command b.command.kind hangup
    then (let (t, q) = hang_up b s (record r { acknowledgement_confirmed = true }) in
        (ok, b, t, cancelled, q))
    else with_received b (record r { acknowledgement_confirmed = true })
        (receive_frame (some (f, e)) identity s d now_ms)

-- Any other frame: it is received, and the acknowledgement ticks again.
unfoldable pub receive_other :
    Ack → Frame → Event → Address → Session → Deadline → ℕ → RuntimeResult → Outcome
unfolding record_ack_end
receive_other a f e identity s d now_ms r =
    let (status, t, g, received) = receive_frame (some (f, e)) identity s d now_ms in
    let q : RuntimeResult = record r { receive = received } in
    if is_ok status
    then (let (ticked, b) = ack_tick a t identity now_ms in
        if is_ok ticked
        then (ok, b, t, g, record_ack_end a.state b q)
        else (err_invalid, b, t, g, q))
    else (status, a, t, g, q)

unfoldable pub runtime_frame :
    Ack → Option (Frame × Event) → Address → Session → Deadline → ℕ → Outcome
unfolding record_ack_end end_expired
runtime_frame a none identity s d now_ms = (err_invalid, a, s, d, no_runtime)
runtime_frame a (some (f, e)) identity s d now_ms =
    let (ticked, b) = ack_tick a s identity now_ms in
    let (t, g, r) = end_expired b s d (record_ack_end a.state b no_runtime) in
    if is_ok ticked
    then (if expected_ack b f
        then receive_ack b f e identity t g now_ms r
        else receive_other b f e identity t g now_ms r)
    else (err_invalid, b, s, d, no_runtime)

-- `df_gvs_call_runtime_receive`
unfoldable pub runtime_receive : Ack → Bytes → Address → Session → Deadline → ℕ → Outcome
runtime_receive a datagram identity s d now_ms =
    runtime_frame a (parse datagram) identity s d now_ms
