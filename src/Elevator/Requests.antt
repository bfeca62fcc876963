-- ===== src/Elevator/Requests.antt =====
-- src/gvs_elevator.c: what a lift request is on the wire.
use doorfast.Prelude.{
  ℕ, ◌+◌, ◌*◌, ◌/◌, ◌%◌, ◌≤◌, ◌≡◌, refl, true, false, Option, none, some, [], ◌∷◌, arith, ltb,
  Bytes, Address,
}
use doorfast.Frame.{Frame, parse, event_of}
use doorfast.Frame.Serialize.{HeaderProvider, HeaderRequest, control_serialize}
use doorfast.Frame.RoundTrip.{parse-control_serialize}
use doorfast.Elevator.{
  Direction, direction_code, ElevatorRequest, bcd_decode, target_address, elevator_target,
  call_request, elevator_prepare_call, elevator_serialize, checked_length,
}

-- What a prepared call is.
abbrev pub prepared_call : Address → Direction → ℕ → ElevatorRequest
prepared_call local direction floor = record {
  valid = true;
  destination = target_address local;
  source = local;
  opcode = 0x02;
  payload = direction_code direction ∷ floor ∷ local.b3 ∷ local.b4 ∷ [];
  payload_length = 4;
}

call_request_inv :
    (local : Address) (direction : Direction) (target : Option Address) (floor : Option ℕ)
    {r : ElevatorRequest}
    → call_request local direction target floor ≡ some r
    → (t : Address) × (n : ℕ) × (target ≡ some t)
      × (floor ≡ some n)
      × (r ≡ record (prepared_call local direction n) { destination = t })
unfolding call_request
call_request_inv local direction none floor h = absurd (ground arith)
call_request_inv local direction (some t) none h = absurd (ground arith)
call_request_inv local direction (some t) (some n) h = (t, n, refl, refl, ground arith)

elevator_target_inv :
    (local : Address) {t : Address}
    → elevator_target local ≡ some t
    → (local.b0 ≡ 0x61) × (t ≡ target_address local)
unfolding elevator_target
elevator_target_inv local {t} h = (ground arith, ground arith)

bcd_decode_inv :
    (value : ℕ) {n : ℕ} → bcd_decode value ≡ some n → (n ≡ value / 16 * 10 + value % 16) × (n ≤ 99)
unfolding bcd_decode
bcd_decode_inv value h = (ground arith, ground arith)

checked_length_inv :
    (n : ℕ) (o : Option Bytes) {out : Bytes} → checked_length n o ≡ some out → o ≡ some out
checked_length_inv n none h = h
checked_length_inv n (some frame) h = ground arith

-- The request that a prepared call is serialized as.
abbrev header_request : Address → Direction → ℕ → HeaderRequest
header_request local direction floor = record {
  destination = target_address local;
  source = local;
  family = 0x08;
  opcode = 0x02;
  payload = some (direction_code direction ∷ floor ∷ local.b3 ∷ local.b4 ∷ []);
  payload_length = 4;
}

serialized_call :
    (local : Address) (direction : Direction) (floor capacity : ℕ)
    (provider : Option HeaderProvider) {out : Bytes}
    → elevator_serialize (prepared_call local direction floor) capacity provider ≡ some out
    → control_serialize 46 (header_request local direction floor) provider ≡ some out
unfolding elevator_serialize
serialized_call local direction floor capacity none h = absurd (ground arith)
serialized_call local direction floor capacity (some provide_fields) h =
    let room : ltb capacity 46 ≡ false = ground arith in checked_length_inv 46 _ (rw room at h)

-- The frame of a call for the lift: to station 35 of the unit's own building and unit, of family 8,
-- with the direction, the floor as a number, and the floor and room bytes of the identity.
abbrev pub call_frame : Address → Direction → ℕ → Frame
call_frame local direction floor = record {
  destination = target_address local;
  source = local;
  family = 0x08;
  opcode = 0x02;
  payload_length = 4;
  payload = some (direction_code direction ∷ floor ∷ local.b3 ∷ local.b4 ∷ []);
}

-- A call that is prepared for an identity and then serialized is parsed as a frame from an indoor
-- unit to its lift, whose floor number has the two decimal digits of the identity's floor byte.
pub parse-elevator_prepare_call :
    (local : Address) (direction : Direction) (capacity : ℕ) (provider : Option HeaderProvider)
    {r : ElevatorRequest} {out : Bytes}
    → elevator_prepare_call local direction ≡ some r
    → elevator_serialize r capacity provider ≡ some out
    → let f = call_frame local direction (local.b3 / 16 * 10 + local.b3 % 16) in
      (parse out ≡ some (f, event_of f))
      × (local.b0 ≡ 0x61)
      × (local.b3 / 16 * 10 + local.b3 % 16 ≤ 99)
unfolding elevator_prepare_call
parse-elevator_prepare_call local direction capacity provider {r} {out} p h =
    let (t, n, et, en, er) = call_request_inv local direction _ _ p in
    let (unit, target) = elevator_target_inv local et in
    let (floor, small) = bcd_decode_inv local.b3 en in
    let same : r ≡ prepared_call local direction n = cc (er, target) in
    let sent = serialized_call local direction n capacity provider (rw same at h) in
    rw (← floor) (
      parse-control_serialize 46 (header_request local direction n) provider (omega arith)
          (omega arith) sent,
      unit,
      omega (arith, small, floor),
    )
