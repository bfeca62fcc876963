-- ===== src/Elevator/Floors/Reports.antt =====
-- src/gvs_elevator.c: what a lift reports is what `df_gvs_elevator_parse_status` reads.
use doorfast.Prelude.{
  ℕ, ◌+◌, ◌*◌, ◌≤◌, ◌≡◌, Option, none, some, List, [], ◌∷◌, arith, length, get_or, Bytes, Address,
  addr_eq_sound,
}
use doorfast.Frame.{Frame}
use doorfast.Elevator.{elevator_target}
use doorfast.Elevator.Floors.{
  ElevatorStatus, status_of, status_from, elevator_parse_status, bytes_of,
}

-- A lift's floor byte and state byte.
pub record Report : Type 0 where
  pub floor : ℕ
  pub state : ℕ

-- Two bytes for each report.
abbrev pub report_bytes : List Report → Bytes → Bytes
report_bytes [] extension = extension
report_bytes (r ∷ rs) extension = r.floor ∷ r.state ∷ report_bytes rs extension

abbrev pub status_frame : Address → Address → List Report → Bytes → Frame
status_frame local target reports extension = record {
  destination = local;
  source = target;
  family = 0x08;
  opcode = 0x83;
  payload_length = 1 + length reports * 2 + length extension;
  payload = some (length reports ∷ report_bytes reports extension);
}

status_of_inv :
    (n : ℕ) (p : Bytes) {st : ElevatorStatus}
    → status_of n p ≡ some st
    → (st.count ≡ get_or p 0 0) × (n ≡ 1 + st.count * 2 + st.extension_length)
unfolding status_of
status_of_inv n p h = (ground arith, ground arith)

status_from_inv :
    (f : Frame) (local : Address) (o : Option Address) {st : ElevatorStatus}
    → status_from f local o ≡ some st
    → (o ≡ some f.source)
      × (f.destination ≡ local)
      × (f.family ≡ 0x08)
      × (f.opcode ≡ 0x83)
      × (st.count ≤ 8)
      × (f.payload_length ≡ 1 + st.count * 2 + st.extension_length)
unfolding status_from
status_from_inv f local none h = absurd (ground arith)
status_from_inv f local (some target) {st} h =
    let from = addr_eq_sound f.source target in
    let to = addr_eq_sound f.destination local in
    let fields = status_of_inv f.payload_length (bytes_of f.payload) {st = st} in
    (
      ground (arith, from),
      ground (arith, to),
      ground arith,
      ground arith,
      ground (arith, fields),
      ground (arith, fields),
    )

-- A status is taken only from the lift of the unit's own building, as family 8 and opcode 83 to the
-- unit itself; it has eight entries at most, and its count, its two bytes for each entry and its
-- extension are the payload's whole length.
pub elevator_parse_status_sound :
    (f : Frame) (local : Address) {st : ElevatorStatus}
    → elevator_parse_status f local ≡ some st
    → (elevator_target local ≡ some f.source)
      × (f.destination ≡ local)
      × (f.family ≡ 0x08)
      × (f.opcode ≡ 0x83)
      × (st.count ≤ 8)
      × (f.payload_length ≡ 1 + st.count * 2 + st.extension_length)
unfolding elevator_parse_status
elevator_parse_status_sound f local h = status_from_inv f local (elevator_target local) h
