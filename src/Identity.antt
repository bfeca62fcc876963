-- ===== src/Identity.antt =====
-- src/gvs_identity.c: an indoor unit's six-byte identity and the network addresses that belong to it.
-- The numbers of `IS:building-unit-room-machine` are what `sscanf` reads of the text, `none` if it does
-- not read exactly four. An IPv4 text is its octets: each is below 256, so that it fits its buffer.
pub mod Digits
pub mod Addresses
pub mod Peers
mod Tests
use Prim.Native.Nat.{bit_or}
use doorfast.Prelude.{
  ℕ, ◌+◌, ◌-◌, ◌*◌, ◌/◌, ◌%◌, Bool, true, false, ◌&&◌, ◌||◌, not, Option, none, some, List, [], ◌∷◌,
  ◌++◌, ltb, ◌==◌, if◌then◌else◌, length, Address, five_eq,
}
use doorfast.Frame.{Frame}

-- `df_gvs_bcd`
unfoldable pub bcd : ℕ → ℕ
bcd value = bit_or (value / 10 * 16) (value % 10) % 256

-- `df_gvs_bcd_value`
unfoldable pub bcd_value : ℕ → Option ℕ
bcd_value value =
    if ltb 9 (value / 16) || ltb 9 (value % 16) then none else some (value / 16 * 10 + value % 16)

-- What `df_gvs_identity_fields` writes through its pointers.
pub record Fields : Type 0 where
  pub building_unit : ℕ
  pub floor : ℕ
  pub room : ℕ
  pub machine : ℕ

abbrev fields_in_range : Fields → Bool
fields_in_range f = not (
    ltb f.building_unit 1
    || (ltb 999 f.building_unit
        || (ltb f.floor 1
            || (ltb 63 f.floor
                || (ltb f.room 1 || (ltb 32 f.room || (ltb f.machine 1 || ltb 6 f.machine)))))))

abbrev pub checked_fields : ℕ → ℕ → ℕ → ℕ → ℕ → Option Fields
checked_fields building unit floor room machine =
    let f : Fields = record {
      building_unit = building * 10 + unit;
      floor = floor;
      room = room;
      machine = machine;
    } in
    if fields_in_range f then some f else none

-- The five decodings, in the code's order.
abbrev pub decoded_fields : Option ℕ → Option ℕ → Option ℕ → Option ℕ → Option ℕ → Option Fields
decoded_fields (some building) (some unit) (some floor) (some room) (some machine) =
    checked_fields building unit floor room machine
decoded_fields _ _ _ _ _ = none

-- `df_gvs_identity_fields`
unfoldable pub identity_fields : Address → Option Fields
unfolding bcd_value
identity_fields i =
    if not (i.b0 == 0x61) && not (i.b0 == 0x62)
    then none
    else decoded_fields (bcd_value i.b1) (bcd_value i.b2) (bcd_value i.b3) (bcd_value i.b4)
        (bcd_value i.b5)

-- The four numbers of the text.
pub record Numbers : Type 0 where
  pub building : ℕ
  pub unit : ℕ
  pub room : ℕ
  pub machine : ℕ

abbrev numbers_in_range : Numbers → Bool
numbers_in_range n = not (
    ltb n.building 1
    || (ltb 99 n.building
        || (ltb n.unit 1
            || (ltb 9 n.unit
                || (ltb n.room 101
                    || (ltb 6332 n.room
                        || (n.room % 100 == 0
                            || (ltb 32 (n.room % 100)
                                || (ltb n.machine 1 || ltb 4 n.machine)))))))))

-- `df_gvs_identity_parse` from the result of `sscanf` on
unfoldable pub identity_parse : Option Numbers → Option Address
unfolding bcd
identity_parse none = none
identity_parse (some n) =
    if numbers_in_range n
    then some (record {
      b0 = 0x61;
      b1 = bcd n.building;
      b2 = bcd n.unit;
      b3 = bcd (n.room / 100);
      b4 = bcd (n.room % 100);
      b5 = bcd n.machine;
    })
    else none

-- The octets of an IPv4 address
pub record Ipv4 : Type 0 where
  pub o0 : ℕ
  pub o1 : ℕ
  pub o2 : ℕ
  pub o3 : ℕ

unfoldable pub unicast_of : Fields → Ipv4
unicast_of f = record {
  o0 = 10;
  o1 = f.building_unit / 4;
  o2 = bit_or (f.building_unit % 4 * 64) f.floor;
  o3 = bit_or ((f.machine - 1) * 32) (f.room - 1);
}

abbrev pub multicast_value : Fields → ℕ
multicast_value f = (f.building_unit - 1) * 2528 + 1024 + (f.floor - 1) * 32 + f.room

unfoldable pub multicast_of : Fields → Ipv4
multicast_of f = record {
  o0 = 238;
  o1 = multicast_value f / 65536 % 256;
  o2 = multicast_value f / 256 % 256;
  o3 = multicast_value f % 256;
}

abbrev ip_of : (Fields → Ipv4) → Option Fields → Option Ipv4
ip_of address none = none
ip_of address (some f) = some (address f)

-- `df_gvs_identity_unicast_ip`
unfoldable pub unicast_ip : Address → Option Ipv4
unfolding identity_fields unicast_of
unicast_ip i = ip_of unicast_of (identity_fields i)

-- `df_gvs_identity_multicast_ip`
unfoldable pub multicast_ip : Address → Option Ipv4
unfolding identity_fields multicast_of
multicast_ip i = ip_of multicast_of (identity_fields i)

-- The loops over the four indoor units and the two of type 62.
unfoldable pub other_machines : Address → ℕ → List ℕ → List Address
other_machines i machine [] = []
other_machines i machine (candidate ∷ candidates) =
    let rest = other_machines i machine candidates in
    if candidate == machine then rest else record i { b5 = candidate } ∷ rest

abbrev pub peers_of : Address → Option Fields → Option (List Address)
peers_of i none = none
peers_of i (some f) =
    if ltb 4 f.machine
    then none
    else (let peers =
          other_machines i f.machine (1 ∷ 2 ∷ 3 ∷ 4 ∷ [])
          ++ (record i { b0 = 0x62; b5 = 1 } ∷ record i { b0 = 0x62; b5 = 2 } ∷ []) in
        if length peers == 5 then some peers else none)

-- `df_gvs_identity_indoor_peers`
unfoldable pub indoor_peers : Address → Option (List Address)
unfolding identity_fields other_machines
indoor_peers i = peers_of i (identity_fields i)

-- `df_gvs_frame_is_for_identity`
unfoldable pub frame_is_for_identity : Frame → Address → Bool
frame_is_for_identity f i = five_eq f.destination i
