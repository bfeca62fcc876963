-- ===== src/Control/Tests.antt =====
-- A call that the station hangs up.
use doorfast.Prelude.{
  ◌≡◌, refl, ◌⊎◌, inl, true, false, ◌&&◌, [], ◌∷◌, arith, ◌==◌, zero_block, Bytes, addr_eq,
  bytes_eq,
}
use doorfast.Fixtures.{station, unit, call_in}
use doorfast.Frame.{parse}
use doorfast.Frame.Serialize.{request_of, frame_bytes}
use doorfast.Session.{talking, session_apply, ended}
use doorfast.Deadline.{cancelled}
use doorfast.Identity.{frame_is_for_identity}
use doorfast.Call.Ack.{ack_tick}
use doorfast.Receive.{receive_frame, receive_hangup, nothing_received}
use doorfast.Runtime.{no_runtime, runtime_receive, runtime_frame, expected_ack, receive_other}
use doorfast.Control.{
  record_terminal, ControlResult, no_control_result, Control, control_init_at, control_receive,
  has_ended, by_peer_hangup, no_fault,
}
use doorfast.Control.Ended.{Handled, received, ended_call}
use doorfast.Control.Reason.{IsReason}
use doorfast.Control.Lasting.{recorded_once}

abbrev hangup_bytes : Bytes
hangup_bytes = frame_bytes (request_of unit station 0x03 0x02 (0 ∷ [])) (zero_block, zero_block)

abbrev fresh : Control
fresh = control_init_at 100

abbrev hung_up : Control
hung_up = record fresh {
  acknowledgement = record fresh.acknowledgement { last_now_ms = 200 };
  terminal = record {
    end_reason = by_peer_hangup;
    fault = no_fault;
    station = station;
    generation = 7;
  };
  observed_generation = 7;
}

abbrev hung_result : ControlResult
hung_result = record no_control_result {
  runtime = record no_runtime {
    receive = record nothing_received { ended_transition = true; observed_hangup = true };
  };
}

hangup_Handled : Handled fresh (call_in talking) hung_up (call_in ended) hung_result
unfolding control_receive parse frame_bytes bytes_eq runtime_receive runtime_frame ack_tick
    expected_ack receive_other receive_frame receive_hangup addr_eq frame_is_for_identity
    session_apply record_terminal
hangup_Handled = received hangup_bytes unit cancelled 200 refl

ended_call_example :
    (((has_ended fresh.terminal.end_reason && fresh.terminal.generation == 7) ≡ true)
      × (hung_up.terminal ≡ fresh.terminal))
    ⊎ (((has_ended fresh.terminal.end_reason && fresh.terminal.generation == 7) ≡ false)
        × (hung_up.terminal.generation ≡ 7)
        × (hung_up.terminal.station ≡ station)
        × IsReason hung_result by_peer_hangup)
ended_call_example =
    ended_call fresh (call_in talking) {c' = hung_up} {s' = call_in ended} hangup_Handled refl
      (omega arith) (inl refl)

recorded_once_example :
    (hung_up.terminal ≡ fresh.terminal)
    ⊎ ((hung_up.terminal.generation ≡ 7)
        × (has_ended hung_up.terminal.end_reason ≡ true)
        × ((has_ended fresh.terminal.end_reason && fresh.terminal.generation == 7) ≡ false))
recorded_once_example =
    recorded_once fresh (call_in talking) {c' = hung_up} {s' = call_in ended} hangup_Handled
