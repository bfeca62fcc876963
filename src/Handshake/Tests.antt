-- ===== src/Handshake/Tests.antt =====
-- A keep-alive with an answering and with a silent station.
use doorfast.Prelude.{
  ℕ, ◌≤◌, ◌≡◌, ◌⊎◌, refl, true, none, List, [], ◌∷◌, arith, length, Bytes, zero_block, addr_eq,
  five_eq,
}
use doorfast.Frame.Serialize.{frame_bytes}
use doorfast.Session.{talking, ended}
use doorfast.Handshake.{Handshake, HandshakeAction, ask, handshake_start}
use doorfast.Handshake.Disconnect.{tick_all, silent_station}
use doorfast.Fixtures.{station, unit, call_in}

-- A keep-alive of the seventh call, with a question due at 500 and five unanswered.
abbrev waiting_long : Handshake
waiting_long = record {
  active = true;
  peer = station;
  local = unit;
  session_generation = 7;
  next_probe_ms = 500;
  last_now_ms = 400;
  missed_replies = 5;
}

abbrev times : List ℕ
times = 100 ∷ 2100 ∷ 4100 ∷ 6100 ∷ 8100 ∷ 10100 ∷ []

silent_station_example :
    let t =
      (tick_all (handshake_start (call_in talking) unit 100).1 (call_in talking) unit times).1 in
    ((length times ≤ 5) × (t ≡ call_in talking)) ⊎ ((6 ≤ length times) × (t.state ≡ ended))
unfolding handshake_start addr_eq five_eq
silent_station_example = silent_station (call_in talking) unit 100 times refl (omega arith)

-- The station asks.
abbrev question : HandshakeAction
question = record {
  valid = true;
  kind = ask;
  destination = unit;
  source = station;
  session_generation = 7;
}

abbrev question_bytes : Bytes
question_bytes =
    frame_bytes
      (record {
        destination = unit;
        source = station;
        family = 0x03;
        opcode = 0x51;
        payload = none;
        payload_length = 0;
      })
      (zero_block, zero_block)
