-- ===== src/Elevator.antt =====
-- src/gvs_elevator.c and src/gvs_elevator.h: the requests to the lift of a building and its status.
-- The `memcpy` of a serialized frame leaves it as it is; a refusal leaves `*request`, `*status` and
-- `*output_length` zeroed: here it is `none`.
pub mod Requests
pub mod Floors
mod Tests
use doorfast.Prelude.{
  ℕ, suc, ◌+◌, ◌-◌, ◌*◌, ◌/◌, ◌%◌, Bool, true, false, ◌&&◌, ◌||◌, not, Option, none, some, List, [],
  ◌∷◌, ltb, ◌==◌, if◌then◌else◌, length, get_or, Bytes, Address, addr_eq,
}
use doorfast.Frame.{Frame}
use doorfast.Frame.Serialize.{HeaderProvider, control_serialize}
use doorfast.Session.{is_null}
use doorfast.Identity.{Ipv4, unicast_ip}

-- `enum df_gvs_elevator_direction`
pub data Direction : Type 0 where
  down up : Direction

abbrev pub direction_code : Direction → ℕ
direction_code down = 0
direction_code up = 1

-- `struct df_gvs_elevator_request`; `payload` is its first `payload_length` bytes.
pub record ElevatorRequest : Type 0 where
  pub valid : Bool
  pub destination : Address
  pub source : Address
  pub opcode : ℕ
  pub payload : Bytes
  pub payload_length : ℕ

-- `df_gvs_elevator_bcd_decode`
unfoldable pub bcd_decode : ℕ → Option ℕ
bcd_decode value =
    if ltb 9 (value / 16) || ltb 9 (value % 16)
    then none
    else some ((value / 16 * 10 + value % 16) % 256)

abbrev pub target_address : Address → Address
target_address local = record { b0 = 0x35; b1 = local.b1; b2 = local.b2; b3 = 0; b4 = 1; b5 = 0 }

abbrev pub target_if : Address → Option Ipv4 → Option Address
target_if local none = none
target_if local (some host) = some (target_address local)

-- `df_gvs_elevator_target`
unfoldable pub elevator_target : Address → Option Address
elevator_target local = if not (local.b0 == 0x61) then none else target_if local (unicast_ip local)

unfoldable pub call_request :
    Address → Direction → Option Address → Option ℕ → Option ElevatorRequest
call_request local direction none floor = none
call_request local direction (some target) none = none
call_request local direction (some target) (some floor) = some (record {
  valid = true;
  destination = target;
  source = local;
  opcode = 0x02;
  payload = direction_code direction ∷ floor ∷ local.b3 ∷ local.b4 ∷ [];
  payload_length = 4;
})

-- `df_gvs_elevator_prepare_call`
unfoldable pub elevator_prepare_call : Address → Direction → Option ElevatorRequest
unfolding call_request
elevator_prepare_call local direction =
    call_request local direction (elevator_target local) (bcd_decode local.b3)

abbrev pub query_request : Address → Option Address → Option ElevatorRequest
query_request local none = none
query_request local (some target) = some (record {
  valid = true;
  destination = target;
  source = local;
  opcode = 0x03;
  payload = [];
  payload_length = 0;
})

-- `df_gvs_elevator_prepare_query`
unfoldable pub elevator_prepare_query : Address → Option ElevatorRequest
elevator_prepare_query local = query_request local (elevator_target local)

abbrev checked_length : ℕ → Option Bytes → Option Bytes
checked_length required none = none
checked_length required (some frame) = if length frame == required then some frame else none

-- `df_gvs_elevator_serialize`; the frame is built in 46 bytes.
unfoldable pub elevator_serialize : ElevatorRequest → ℕ → Option HeaderProvider → Option Bytes
elevator_serialize r capacity none = none
elevator_serialize r capacity (some provide_fields) =
    if not r.valid
      || not (
          (r.opcode == 0x02 && r.payload_length == 4)
          || (r.opcode == 0x03 && r.payload_length == 0))
    then none
    else if ltb capacity (42 + r.payload_length)
    then none
    else checked_length (42 + r.payload_length) (
        control_serialize 46
          (record {
            destination = r.destination;
            source = r.source;
            family = 0x08;
            opcode = r.opcode;
            payload = if r.payload_length == 0 then none else some r.payload;
            payload_length = r.payload_length;
          })
          (some provide_fields))
