-- ===== src/Identity/Digits.antt =====
-- src/gvs_identity.c: the numbers of an indoor unit and its identity's bytes.
use doorfast.Prelude.{
  ℕ, ◌+◌, ◌*◌, ◌/◌, ◌%◌, ◌≤◌, ◌<◌, ◌≡◌, refl, true, ◌||◌, not, none, some, arith, ltb, ◌==◌, ==_iff,
  holds_below, read_table, Address,
}
use doorfast.Identity.{Numbers, Fields, bcd, bcd_value, identity_parse, identity_fields}

abbrev read_back : ℕ → ℕ
read_back n = elim (bcd_value (bcd n)) [ none ↦ 100 | some m ↦ m ]

bcd_table : holds_below 100 (λ n. bcd n / 16 * 10 + bcd n % 16 == n) ≡ true
unfolding holds_below bcd
bcd_table = refl

bcd_digits_table : holds_below 100 (λ n. not (ltb 9 (bcd n / 16) || ltb 9 (bcd n % 16))) ≡ true
unfolding holds_below bcd
bcd_digits_table = refl

-- Two decimal digits are read back.
pub bcd_value-bcd : (n : ℕ) → n < 100 → bcd_value (bcd n) ≡ some n
unfolding bcd_value
bcd_value-bcd n h =
    let value = (==_iff _ n).0 (read_table 100 _ bcd_table n h) in
    let digits =
      read_table 100 (λ n. not (ltb 9 (bcd n / 16) || ltb 9 (bcd n % 16))) bcd_digits_table n h in
    ground arith

abbrev pub fields_of : Numbers → Fields
fields_of n = record {
  building_unit = n.building * 10 + n.unit;
  floor = n.room / 100;
  room = n.room % 100;
  machine = n.machine;
}

-- The numbers that are accepted.
pub record InRange (n : Numbers) : Type 0 where
  pub building : (1 ≤ n.building) × (n.building ≤ 99)
  pub unit : (1 ≤ n.unit) × (n.unit ≤ 9)
  pub room : (101 ≤ n.room) × (n.room ≤ 6332) × (1 ≤ n.room % 100) × (n.room % 100 ≤ 32)
  pub machine : (1 ≤ n.machine) × (n.machine ≤ 4)

pub identity_parse_inv :
    (n : Numbers) {i : Address}
    → identity_parse (some n) ≡ some i
    → InRange n
      × (i ≡ record {
        b0 = 0x61;
        b1 = bcd n.building;
        b2 = bcd n.unit;
        b3 = bcd (n.room / 100);
        b4 = bcd (n.room % 100);
        b5 = bcd n.machine;
      })
unfolding identity_parse
identity_parse_inv n h = (ground arith, ground arith)

-- The identity that `df_gvs_identity_parse` makes of four numbers is decoded by
-- `df_gvs_identity_fields` to the same numbers.
pub identity_fields-identity_parse :
    (n : Numbers) {i : Address}
    → identity_parse (some n) ≡ some i
    → identity_fields i ≡ some (fields_of n)
unfolding identity_fields
identity_fields-identity_parse n h =
    let (v, e) = identity_parse_inv n h in
    rw e (
      rw
        (
          bcd_value-bcd n.building (ground arith),
          bcd_value-bcd n.unit (ground arith),
          bcd_value-bcd (n.room / 100) (ground arith),
          bcd_value-bcd (n.room % 100) (ground arith),
          bcd_value-bcd n.machine (ground arith),
        )
        (ground arith))
