-- ===== src/Frame/Tests.antt =====
-- Runs of the frame parser and serializer on small frames.
use doorfast.Prelude.{
  ◌+◌, ◌≡◌, refl, ◌⊎◌, some, [], ◌∷◌, arith, length, drop, take, Bytes, zero_block, bytes_eq,
}
use doorfast.Frame.{
  Frame, EventType, header, header_size, declared_length, parse, frame_of, event_of, event_type,
  length_accepted,
}
use doorfast.Frame.Serialize.{HeaderRequest, control_serialize, frame_bytes}
use doorfast.Frame.RoundTrip.{parse-control_serialize, parse_sound, sent_frame}
use doorfast.Fixtures.{station, unit, zero_fields, frame}

abbrev request : HeaderRequest
request = record {
  destination = station;
  source = unit;
  family = 0x04;
  opcode = 0x09;
  payload = some (0x01 ∷ 0x02 ∷ []);
  payload_length = 2;
}

parse-control_serialize_example :
    let f = sent_frame request (0x01 ∷ 0x02 ∷ []) in
    parse (frame_bytes request (zero_block, zero_block)) ≡ some (f, event_of f)
unfolding control_serialize
parse-control_serialize_example =
    parse-control_serialize 100 request (some zero_fields) (omega arith) (omega arith) refl

-- A call request of the station, whose declared length is six more than what follows.
abbrev call_request : Bytes
call_request =
    b'G' ∷ b'V' ∷ b'S' ∷ b'G' ∷ b'V' ∷ b'S' ∷ 0xA5 ∷ 0xA5 ∷ 0xA5 ∷ 0xA5 ∷ 0x61 ∷ 1 ∷ 2 ∷ 5 ∷ 1 ∷ 0
    ∷ 0x32 ∷ 1 ∷ 2 ∷ 0 ∷ 1 ∷ 0 ∷ 0 ∷ 0 ∷ 0 ∷ 0 ∷ 0 ∷ 0 ∷ 0 ∷ 0 ∷ 0 ∷ 0 ∷ 0 ∷ 0 ∷ 0 ∷ 0 ∷ 0 ∷ 0
    ∷ 0x03 ∷ 0x01 ∷ 7 ∷ 0 ∷ 0x2a ∷ []

abbrev called : Frame
called = frame unit station 0x03 0x01 (0x2a ∷ []) 1

parse-call_request :
    parse call_request
    ≡ some (
      called,
      record { kind = EventType.incoming_call; call_id = []; remote_host = []; remote_port = 0 },
    )
unfolding parse length_accepted frame_of event_of event_type bytes_eq
parse-call_request = refl

parse_sound_example :
    (take 10 call_request ≡ header)
    × (header_size + 1 ≡ length call_request)
    × (some (0x2a ∷ []) ≡ some (drop header_size call_request))
    × (event_of called ≡ event_of called)
    × ((declared_length call_request ≡ 1)
        ⊎ ((called.family ≡ 0x03)
            × (called.opcode ≡ 0x01)
            × (declared_length call_request ≡ 1 + 6)))
unfolding parse length_accepted frame_of event_of event_type bytes_eq
parse_sound_example = parse_sound call_request {f = called} {e = event_of called} (omega arith) refl
