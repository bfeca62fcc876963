-- ===== src/Elevator/Floors.antt =====
-- src/gvs_elevator.c: `df_gvs_elevator_parse_status`. An `int8_t` or `int16_t` is an integer; the
-- entries are those in use, `entries[0 .. count)`.
use doorfast.Prelude.{
  ℕ, zero, suc, ◌+◌, ◌-◌, ◌*◌, ◌/◌, ◌%◌, Bool, true, false, ◌&&◌, ◌||◌, not, Option, none, some,
  List, [], ◌∷◌, ℤ, pos, negsuc, negative, signed_byte, ltb, ◌==◌, if◌then◌else◌, get_or, Bytes,
  Address, addr_eq,
}
use doorfast.Frame.{Frame}
use doorfast.Session.{is_null}
use doorfast.Elevator.{elevator_target}
pub mod Reports

-- `raw < 0 ? -(raw + 128) : raw`
abbrev pub floor_of : ℤ → ℤ
floor_of (pos n) = pos n
floor_of (negsuc n) = negative (127 - n)

-- `enum df_gvs_elevator_motion`
pub data Motion : Type 0 where
  fault moving_up moving_down stopped other : Motion

-- `df_gvs_elevator_motion`
unfoldable pub elevator_motion : ℕ → Motion
elevator_motion state =
    if state == 0
    then fault
    else if state == 1
    then moving_up
    else if state == 2
    then moving_down
    else if state == 3
    then stopped
    else other

-- `struct df_gvs_elevator_entry` and `struct df_gvs_elevator_status`
pub record ElevatorEntry : Type 0 where
  pub raw_floor : ℤ
  pub floor : ℤ
  pub raw_state : ℕ
  pub motion : Motion

pub record ElevatorStatus : Type 0 where
  pub valid : Bool
  pub count : ℕ
  pub extension_length : ℕ
  pub entries : List ElevatorEntry

abbrev pub entry_of : ℕ → ℕ → ElevatorEntry
entry_of raw state = record {
  raw_floor = signed_byte raw;
  floor = floor_of (signed_byte raw);
  raw_state = state;
  motion = elevator_motion state;
}

-- The loop, for `n` entries from `index` on.
unfoldable pub entries_from : Bytes → ℕ → ℕ → List ElevatorEntry
entries_from p index zero = []
entries_from p index (suc n) =
    entry_of (get_or p (1 + index * 2) 0) (get_or p (2 + index * 2) 0)
    ∷ entries_from p (index + 1) n

unfoldable pub status_of : ℕ → Bytes → Option ElevatorStatus
unfolding entries_from
status_of payload_length p =
    if ltb payload_length (1 + get_or p 0 0 * 2)
    then none
    else some (record {
      valid = true;
      count = get_or p 0 0;
      extension_length = payload_length - (1 + get_or p 0 0 * 2);
      entries = entries_from p 0 (get_or p 0 0);
    })

abbrev pub bytes_of : Option Bytes → Bytes
bytes_of none = []
bytes_of (some p) = p

unfoldable pub status_from : Frame → Address → Option Address → Option ElevatorStatus
unfolding status_of
status_from f local none = none
status_from f local (some target) =
    if not (f.family == 0x08)
      || (not (f.opcode == 0x83)
          || (is_null f.payload
              || (ltb f.payload_length 1
                  || (not (addr_eq f.source target)
                      || (not (addr_eq f.destination local)
                          || ltb 8 (get_or (bytes_of f.payload) 0 0))))))
    then none
    else status_of f.payload_length (bytes_of f.payload)

-- `df_gvs_elevator_parse_status`
unfoldable pub elevator_parse_status : Frame → Address → Option ElevatorStatus
unfolding status_from
elevator_parse_status f local = status_from f local (elevator_target local)
