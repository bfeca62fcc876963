-- ===== src/Fixtures.antt =====
-- Stations, sessions and frames that the tests of the modules share.
use doorfast.Prelude.{ℕ, some, [], Bytes, zero_block, Address}
use doorfast.Frame.{Frame, EventType, Event}
use doorfast.Frame.Serialize.{HeaderProvider}
use doorfast.Session.{Session, SessionState, empty_session}

-- A door station, the indoor unit, and a second station.
abbrev pub station : Address
station = record { b0 = 0x32; b1 = 1; b2 = 2; b3 = 0; b4 = 1; b5 = 0 }

abbrev pub unit : Address
unit = record { b0 = 0x61; b1 = 1; b2 = 2; b3 = 5; b4 = 1; b5 = 0 }

abbrev pub other : Address
other = record { b0 = 0x31; b1 = 9; b2 = 2; b3 = 0; b4 = 1; b5 = 0 }

-- The seventh call, from the station.
abbrev pub call_in : SessionState → Session
call_in state = record empty_session { state = state; generation = 7; peer = station }

-- A provider that fills both fields with zeros.
abbrev pub zero_fields : HeaderProvider
zero_fields r = some (zero_block, zero_block)

abbrev pub frame : Address → Address → ℕ → ℕ → Bytes → ℕ → Frame
frame destination source family opcode payload n = record {
  destination = destination;
  source = source;
  family = family;
  opcode = opcode;
  payload_length = n;
  payload = some payload;
}

abbrev pub event : EventType → Event
event kind = record { kind = kind; call_id = []; remote_host = []; remote_port = 0 }
