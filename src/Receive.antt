-- ===== src/Receive.antt =====
-- src/gvs_receive.c, src/gvs_receive.h and src/gvs_observer.c: what a received datagram does to the
-- session and its deadline. An operation returns its status and all that it has written by then: the code
-- writes in place, also where it fails in the end.
use doorfast.Prelude.{
  ℕ, ◌*◌, Bool, true, false, ◌&&◌, ◌||◌, not, Option, none, some, List, [], ◌∷◌, ltb, ◌==◌,
  if◌then◌else◌, get_or, Status, ok, err_invalid, is_ok, u64_max, Bytes, Address, addr_eq,
}
use doorfast.Frame.{Frame, Event, unknown, incoming_call, hangup, parse}
use doorfast.Identity.{frame_is_for_identity}
use doorfast.Priority.{call_category}
use doorfast.Session.{
  Session, idle, ringing, talking, ended, in_state, is_event, TransitionEvent, Preemption,
  no_preemption, session_apply, session_preempt, session_observe_pick,
}
use doorfast.Deadline.{Deadline, cancelled, deadline_arm, deadline_tick}

-- `struct df_gvs_observation`
pub record Observation : Type 0 where
  pub parsed : Event
  pub accepted : Bool
  pub transition : Preemption

abbrev pub empty_event : Event
empty_event = record { kind = unknown; call_id = []; remote_host = []; remote_port = 0 }

abbrev pub no_observation : Observation
no_observation = record { parsed = empty_event; accepted = false; transition = no_preemption }

abbrev pub first_call : Session → ℕ → Preemption
first_call s now_ms = record {
  events = record { kind = incoming_call; peer = s.peer; generation = s.generation } ∷ [];
  count = 1;
  ring_started_ms = now_ms;
}

-- The branches of an accepted call request: another station while the unit rings, or any other case.
unfoldable pub observe_call : Frame → Event → Address → Session → ℕ → Status × Session × Observation
observe_call f e identity s now_ms =
    let seen : Observation = record no_observation { parsed = e } in
    if in_state s.state ringing && not (addr_eq s.peer f.source)
    then (let (status, t, transition) =
          session_preempt s s.generation f.source (call_category s.peer identity)
            (call_category f.source identity) now_ms in
        (status, t, record seen { accepted = is_ok status; transition = transition }))
    else if (in_state s.state idle || in_state s.state ended) && s.generation == u64_max
    then (err_invalid, s, seen)
    else (let (status, t) = session_apply s f e in
        (
          status,
          t,
          record seen {
            accepted = is_ok status;
            transition =
                if is_ok status && not (t.generation == s.generation)
                then first_call t now_ms
                else no_preemption;
          },
        ))

unfoldable pub observe_parsed :
    Option (Frame × Event) → Address → Session → ℕ → Status × Session × Observation
unfolding observe_call
observe_parsed none identity s now_ms = (err_invalid, s, no_observation)
observe_parsed (some (f, e)) identity s now_ms =
    if not (is_event e.kind incoming_call) || not (frame_is_for_identity f identity)
    then (ok, s, record no_observation { parsed = e })
    else observe_call f e identity s now_ms

-- `df_gvs_observe_datagram_batch`
unfoldable pub observe_batch : Bytes → Address → Session → ℕ → Status × Session × Observation
unfolding observe_parsed
observe_batch datagram identity s now_ms = observe_parsed (parse datagram) identity s now_ms

unfoldable pub observe_frame : Option (Frame × Event) → Address → Session → Status × Session × Bool
observe_frame none identity s = (err_invalid, s, false)
observe_frame (some (f, e)) identity s =
    let (status, t) = session_apply s f e in
    if not (is_event e.kind incoming_call) || not (frame_is_for_identity f identity)
    then (ok, s, false)
    else (status, t, is_ok status)

-- `df_gvs_observe_datagram`; the Boolean is `*accepted`, and `*event` is what the parser gives.
unfoldable pub observe_datagram : Bytes → Address → Session → Status × Session × Bool
unfolding observe_frame
observe_datagram datagram identity s = observe_frame (parse datagram) identity s

-- `struct df_gvs_receive_result`
pub record ReceiveResult : Type 0 where
  pub transition : Preemption
  pub accepted_call : Bool
  pub talking_transition : Bool
  pub rejected_pick : Bool
  pub ended_transition : Bool
  pub observed_hangup : Bool
  pub local_hangup : Bool
  pub preempted_session : Bool
  pub time_sync_update : Bool
  pub rejected_time_sync : Bool
  pub timed_out_transition : Bool

abbrev pub nothing_received : ReceiveResult
nothing_received = record {
  transition = no_preemption;
  accepted_call = false;
  talking_transition = false;
  rejected_pick = false;
  ended_transition = false;
  observed_hangup = false;
  local_hangup = false;
  preempted_session = false;
  time_sync_update = false;
  rejected_time_sync = false;
  timed_out_transition = false;
}

abbrev pub pick_limit_ms : ℕ
pick_limit_ms = 3000

abbrev pub ring_limit_ms : ℕ
ring_limit_ms = 30000

abbrev pub talk_limit_ms : ℕ
talk_limit_ms = 120000

abbrev pub Received : Type 0
Received = Status × Session × Deadline × ReceiveResult

-- `df_gvs_receive_hangup`
unfoldable pub receive_hangup : Frame → Address → Session → Deadline → Received
receive_hangup f identity s d =
    let inbound = addr_eq f.source s.peer && frame_is_for_identity f identity in
    let outbound = addr_eq f.source identity && addr_eq f.destination s.peer in
    if not inbound && not outbound
    then (ok, s, d, nothing_received)
    else (let (status, t) =
          session_apply s (record f { source = s.peer }) (record empty_event { kind = hangup }) in
        if is_ok status
        then (
          ok,
          t,
          cancelled,
          record nothing_received {
            ended_transition = true;
            observed_hangup = true;
            local_hangup = outbound;
          },
        )
        else (ok, t, d, nothing_received))

abbrev pub first_byte : Frame → ℕ
first_byte f = elim f.payload [ none ↦ 0 | some bytes ↦ get_or bytes 0 0 ]

-- `df_gvs_receive_time_sync`
unfoldable pub receive_time_sync : Frame → Address → Session → Deadline → ℕ → Received
receive_time_sync f identity s d now_ms =
    let limit : ℕ = if in_state s.state talking then 120 else 30 in
    if (not (in_state s.state talking) && not (in_state s.state ringing))
      || (not (f.payload_length == 1)
          || (not (addr_eq f.source s.peer)
              || (not (addr_eq f.destination identity) || ltb limit (first_byte f))))
    then (ok, s, d, record nothing_received { rejected_time_sync = true })
    else (let (armed, e) = deadline_arm d s now_ms (first_byte f * 1000) in
        if is_ok armed
        then (let (status, g, t, timed_out) = deadline_tick e s now_ms in
            (
              status,
              t,
              g,
              record nothing_received { time_sync_update = true; timed_out_transition = timed_out },
            ))
        else (err_invalid, s, e, nothing_received))

-- `df_gvs_receive_pick`
unfoldable pub receive_pick : Frame → Address → Session → Deadline → ℕ → Received
receive_pick f identity s d now_ms =
    let (status, t) = session_observe_pick s f identity now_ms pick_limit_ms in
    if not (is_ok status)
    then (ok, t, d, record nothing_received { rejected_pick = true })
    else if not (in_state s.state talking) && in_state t.state talking
    then (let (armed, e) = deadline_arm d t now_ms talk_limit_ms in
        (armed, t, e, record nothing_received { talking_transition = true }))
    else (ok, t, d, nothing_received)

-- The loop over the events of a transition.
unfoldable pub apply_transitions :
    List TransitionEvent → ℕ → Session → Deadline → ReceiveResult → Received
apply_transitions [] started_ms s d r = (ok, s, d, r)
apply_transitions (e ∷ es) started_ms s d r =
    let ended_rest =
      apply_transitions es started_ms s cancelled
        (record r { ended_transition = true; preempted_session = true }) in
    let armed_rest =
      apply_transitions es started_ms s (deadline_arm d s started_ms ring_limit_ms).1 r in
    let rest = apply_transitions es started_ms s d r in
    if is_event e.kind hangup
    then ended_rest
    else if is_event e.kind incoming_call
    then (if is_ok (deadline_arm d s started_ms ring_limit_ms).0
        then armed_rest
        else (err_invalid, s, d, r))
    else rest

-- `df_gvs_receive_call`
unfoldable pub receive_call : Option (Frame × Event) → Address → Session → Deadline → ℕ → Received
unfolding apply_transitions
receive_call parsed identity s d now_ms =
    let (status, t, seen) = observe_parsed parsed identity s now_ms in
    if is_ok status
    then apply_transitions seen.transition.events seen.transition.ring_started_ms t d
        (record nothing_received { accepted_call = seen.accepted; transition = seen.transition })
    else (status, t, d, nothing_received)

unfoldable pub receive_frame : Option (Frame × Event) → Address → Session → Deadline → ℕ → Received
receive_frame none identity s d now_ms = (err_invalid, s, d, nothing_received)
receive_frame (some (f, e)) identity s d now_ms =
    if f.family == 3 && (f.opcode == 2 && f.payload_length == 1)
    then receive_hangup f identity s d
    else if f.family == 3 && f.opcode == 0x57
    then receive_time_sync f identity s d now_ms
    else if f.family == 3 && (f.opcode == 3 || f.opcode == 0x83)
    then receive_pick f identity s d now_ms
    else receive_call (some (f, e)) identity s d now_ms

-- `df_gvs_receive_datagram`
unfoldable pub receive_datagram : Bytes → Address → Session → Deadline → ℕ → Received
receive_datagram datagram identity s d now_ms = receive_frame (parse datagram) identity s d now_ms
