-- ===== src/Identity/Addresses.antt =====
-- src/gvs_identity.c: who shares an IPv4 address, and who are the peers of an indoor unit.
use Prim.Native.Nat.{bit_or}
use doorfast.Prelude.{
  ℕ, ◌+◌, ◌-◌, ◌*◌, ◌/◌, ◌%◌, ◌≤◌, ◌<◌, ◌≡◌, ◌↔◌, refl, ap, sym, ◌∙◌, true, ◌&&◌, not, Option, none,
  some, arith, ◌==◌, ==_iff, holds_below, read_table, Address, Bool-cases, inl, inr,
}
use doorfast.Identity.{
  Numbers, Fields, Ipv4, identity_parse, identity_fields, checked_fields, decoded_fields, bcd_value,
  unicast_of, multicast_of, multicast_value, unicast_ip, multicast_ip,
}
use doorfast.Identity.Digits.{InRange, identity_parse_inv, identity_fields-identity_parse}

-- The octets as the sums that they are.
or_table_64 : holds_below 256 (λ n. bit_or (n / 64 * 64) (n % 64) == n) ≡ true
unfolding holds_below
or_table_64 = refl

or_table_32 : holds_below 256 (λ n. bit_or (n / 32 * 32) (n % 32) == n) ≡ true
unfolding holds_below
or_table_32 = refl

or_64 : (k m : ℕ) → k < 4 → m < 64 → bit_or (k * 64) m ≡ k * 64 + m
or_64 k m h l =
    let e = (==_iff _ _).0 (read_table 256 _ or_table_64 (k * 64 + m) (omega arith)) in
    let d : (k * 64 + m) / 64 ≡ k = omega arith in
    let r : (k * 64 + m) % 64 ≡ m = omega arith in rw (d, r) at e

or_32 : (k m : ℕ) → k < 8 → m < 32 → bit_or (k * 32) m ≡ k * 32 + m
or_32 k m h l =
    let e = (==_iff _ _).0 (read_table 256 _ or_table_32 (k * 32 + m) (omega arith)) in
    let d : (k * 32 + m) / 32 ≡ k = omega arith in
    let r : (k * 32 + m) % 32 ≡ m = omega arith in rw (d, r) at e

-- The unicast address of four numbers.
abbrev pub unicast_sum : Numbers → Ipv4
unicast_sum n = record {
  o0 = 10;
  o1 = (n.building * 10 + n.unit) / 4;
  o2 = (n.building * 10 + n.unit) % 4 * 64 + n.room / 100;
  o3 = (n.machine - 1) * 32 + (n.room % 100 - 1);
}

unicast_ip-identity_parse :
    (n : Numbers) {i : Address}
    → identity_parse (some n) ≡ some i
    → unicast_ip i ≡ some (unicast_sum n)
unfolding unicast_ip unicast_of
unicast_ip-identity_parse n h =
    let (v, _) = identity_parse_inv n h in
    let third =
      or_64 ((n.building * 10 + n.unit) % 4) (n.room / 100) (omega arith) (ground arith) in
    let fourth = or_32 (n.machine - 1) (n.room % 100 - 1) (ground arith) (ground arith) in
    rw (identity_fields-identity_parse n h) (cc (third, fourth))

unicast_sum-injective :
    (n m : Numbers) → InRange n → InRange m → unicast_sum n ≡ unicast_sum m → n ≡ m
unicast_sum-injective n m v w e =
    let second = ap (λ (a : Ipv4). a.o1) e in
    let third = ap (λ (a : Ipv4). a.o2) e in
    let fourth = ap (λ (a : Ipv4). a.o3) e in
    let (_, _, vr, _) = v.room in
    let floors : (n.room / 100 < 64) × (m.room / 100 < 64) = ground arith in
    let floor : n.room / 100 ≡ m.room / 100 = omega (arith, third, floors.0, floors.1) in
    let low : (n.building * 10 + n.unit) % 4 ≡ (m.building * 10 + m.unit) % 4 =
      omega (arith, third, floor) in
    let both : n.building * 10 + n.unit ≡ m.building * 10 + m.unit = omega (arith, second, low) in
    let building : n.building ≡ m.building = omega (arith, both, v.unit, w.unit) in
    let unit : n.unit ≡ m.unit = omega (arith, both, building) in
    let machine : n.machine ≡ m.machine =
      omega (arith, fourth, v.room, w.room, v.machine, w.machine) in
    let door : n.room % 100 ≡ m.room % 100 =
      omega (arith, fourth, v.room, w.room, v.machine, w.machine, machine) in
    let room : n.room ≡ m.room = omega (arith, floor, door) in cc (building, unit, room, machine)

-- Two texts of indoor units that are both accepted have the same unicast address only if they are the
-- same four numbers, and each octet of such an address is below 256.
pub unicast_ip-injective :
    (n m : Numbers) {i j : Address} {a : Ipv4}
    → identity_parse (some n) ≡ some i
    → identity_parse (some m) ≡ some j
    → unicast_ip i ≡ some a
    → unicast_ip j ≡ some a
    → (n ≡ m) × (a.o0 ≡ 10) × (a.o1 < 256) × (a.o2 < 256) × (a.o3 < 256)
unicast_ip-injective n m {i} {j} {a} p q h k =
    let (v, _) = identity_parse_inv n p in
    let (w, _) = identity_parse_inv m q in
    let ea : unicast_sum n ≡ a = cc (unicast_ip-identity_parse n p, h) in
    let eb : unicast_sum m ≡ a = cc (unicast_ip-identity_parse m q, k) in
    rw (← ea) (
      unicast_sum-injective n m v w (ea ∙ sym eb),
      refl,
      omega (arith, v.building, v.unit),
      ground arith,
      omega (arith, v.room, v.machine),
    )

-- The bounds that every decoded identity is within.
pub record IsDecoded (f : Fields) : Type 0 where
  pub building_unit : (1 ≤ f.building_unit) × (f.building_unit ≤ 999)
  pub floor : (1 ≤ f.floor) × (f.floor ≤ 63)
  pub room : (1 ≤ f.room) × (f.room ≤ 32)
  pub machine : (1 ≤ f.machine) × (f.machine ≤ 6)

checked_fields-IsDecoded :
    (building unit floor room machine : ℕ) {f : Fields}
    → checked_fields building unit floor room machine ≡ some f
    → IsDecoded f
checked_fields-IsDecoded building unit floor room machine h = ground arith

decoded_fields-IsDecoded :
    (a b c d e : Option ℕ) {f : Fields} → decoded_fields a b c d e ≡ some f → IsDecoded f
decoded_fields-IsDecoded none b c d e h = absurd (ground arith)
decoded_fields-IsDecoded (some a) none c d e h = absurd (ground arith)
decoded_fields-IsDecoded (some a) (some b) none d e h = absurd (ground arith)
decoded_fields-IsDecoded (some a) (some b) (some c) none e h = absurd (ground arith)
decoded_fields-IsDecoded (some a) (some b) (some c) (some d) none h = absurd (ground arith)
decoded_fields-IsDecoded (some a) (some b) (some c) (some d) (some e) h =
    checked_fields-IsDecoded a b c d e h

identity_fields-IsDecoded : (i : Address) {f : Fields} → identity_fields i ≡ some f → IsDecoded f
unfolding identity_fields
identity_fields-IsDecoded i {f} h = elim (Bool-cases (not (i.b0 == 0x61) && not (i.b0 == 0x62))) [
  | inl kind ↦ absurd (none_ne_some f (rw kind at h))
  | inr kind ↦
      decoded_fields-IsDecoded (bcd_value i.b1) (bcd_value i.b2) (bcd_value i.b3) (bcd_value i.b4)
        (bcd_value i.b5) (rw kind at h)
]
  where
    none_ne_some : (g : Fields) → ¬ (none ≡ some g)
    none_ne_some g e = cc

-- Three octets determine a number of 24 bits.
octets_determine :
    (v w : ℕ)
    → v < 16777216
    → w < 16777216
    → v / 65536 % 256 ≡ w / 65536 % 256
    → v / 256 % 256 ≡ w / 256 % 256
    → v % 256 ≡ w % 256
    → v ≡ w
octets_determine v w h k a b c = omega (arith, a, b, c)

multicast_value-injective :
    (f g : Fields)
    → IsDecoded f
    → IsDecoded g
    → multicast_value f ≡ multicast_value g
    → (f.building_unit ≡ g.building_unit) × (f.floor ≡ g.floor) × (f.room ≡ g.room)
multicast_value-injective f g v w e =
    let block : f.building_unit ≡ g.building_unit =
      omega (arith, e, v.building_unit, v.floor, v.room, w.building_unit, w.floor, w.room) in
    let floor : f.floor ≡ g.floor = omega (arith, e, block, v.floor, v.room, w.floor, w.room) in
    (block, floor, omega (arith, e, block, floor))

multicast_value_lt : (f : Fields) → IsDecoded f → multicast_value f < 16777216
multicast_value_lt f v = omega (arith, v.building_unit, v.floor, v.room)

-- Two identities have the same multicast address exactly if they have the same building and unit
-- together, floor and room: the machines of one apartment share it.
pub multicast_ip_iff :
    (i j : Address) {f g : Fields}
    → identity_fields i ≡ some f
    → identity_fields j ≡ some g
    → (multicast_ip i ≡ multicast_ip j)
      ↔ ((f.building_unit ≡ g.building_unit) × (f.floor ≡ g.floor) × (f.room ≡ g.room))
unfolding multicast_ip multicast_of
multicast_ip_iff i j {f} {g} h k =
    let v = identity_fields-IsDecoded i h in
    let w = identity_fields-IsDecoded j k in
    rw (h, k)
      (
        (λ e.
            let same : multicast_of f ≡ multicast_of g = cc in
            multicast_value-injective f g v w (
              octets_determine (multicast_value f) (multicast_value g) (multicast_value_lt f v)
                (multicast_value_lt g w) (ap (λ (a : Ipv4). a.o1) same)
                (ap (λ (a : Ipv4). a.o2) same) (ap (λ (a : Ipv4). a.o3) same))),
        λ (a, b, c). rw (a, b, c) refl,
      )
