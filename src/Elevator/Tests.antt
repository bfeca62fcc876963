-- ===== src/Elevator/Tests.antt =====
-- The lift of the unit 61 01 02 05 01 01.
use doorfast.Prelude.{
  negsuc, ◌+◌, ◌*◌, ◌/◌, ◌%◌, ◌≤◌, ◌≡◌, refl, true, some, List, [], ◌∷◌, Bytes, Address, zero_block,
}
use doorfast.Frame.{parse, event_of}
use doorfast.Frame.Serialize.{control_serialize, frame_bytes}
use doorfast.Identity.{unicast_ip, identity_fields, bcd_value}
use doorfast.Elevator.{
  up, bcd_decode, target_address, elevator_target, call_request, elevator_prepare_call,
  elevator_serialize,
}
use doorfast.Elevator.Requests.{prepared_call, call_frame, parse-elevator_prepare_call}
use doorfast.Elevator.Floors.{stopped, elevator_motion, ElevatorStatus, entry_of}
use doorfast.Elevator.Floors.Reports.{Report}
use doorfast.Fixtures.{zero_fields}

abbrev unit : Address
unit = record { b0 = 0x61; b1 = 1; b2 = 2; b3 = 0x12; b4 = 1; b5 = 1 }

abbrev lift : Address
lift = target_address unit

abbrev call_bytes : Bytes
call_bytes =
    frame_bytes
      (record {
        destination = lift;
        source = unit;
        family = 0x08;
        opcode = 0x02;
        payload = some (1 ∷ 12 ∷ 0x12 ∷ 1 ∷ []);
        payload_length = 4;
      })
      (zero_block, zero_block)

parse-elevator_prepare_call_example :
    let f = call_frame unit up (0x12 / 16 * 10 + 0x12 % 16) in
    (parse call_bytes ≡ some (f, event_of f)) × (unit.b0 ≡ 0x61) × (0x12 / 16 * 10 + 0x12 % 16 ≤ 99)
unfolding elevator_prepare_call call_request elevator_target unicast_ip identity_fields bcd_value
    bcd_decode elevator_serialize control_serialize frame_bytes
parse-elevator_prepare_call_example =
    parse-elevator_prepare_call unit up 46 (some zero_fields) {r = prepared_call unit up 12} refl
      refl

-- One cabin goes up at floor 3, one stands at the second floor below.
abbrev reports : List Report
reports = record { floor = 3; state = 1 } ∷ record { floor = 130; state = 3 } ∷ []

below :
    entry_of 130 3
    ≡ record { raw_floor = negsuc 125; floor = negsuc 1; raw_state = 3; motion = stopped }
unfolding elevator_motion
below = refl

abbrev read_status : ElevatorStatus
read_status = record {
  valid = true;
  count = 2;
  extension_length = 1;
  entries = entry_of 3 1 ∷ entry_of 130 3 ∷ [];
}
