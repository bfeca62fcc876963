-- ===== src/Identity/Peers.antt =====
-- src/gvs_identity.c, `df_gvs_identity_indoor_peers`: the other units of an apartment.
use mathlib.Core.Path.{subst}
use doorfast.Prelude.{
  ℕ, ◌/◌, ◌%◌, ◌≤◌, ◌<◌, ◌≡◌, ◌≢◌, ◌⊎◌, inl, inr, refl, ap, sym, Option, some, List, [], ◌∷◌, arith,
  length, All, Address,
}
use doorfast.Identity.{
  Numbers, bcd, bcd_value, identity_parse, identity_fields, multicast_of, multicast_ip,
  other_machines, indoor_peers, peers_of,
}
use doorfast.Identity.Digits.{
  fields_of, InRange, identity_parse_inv, bcd_value-bcd, identity_fields-identity_parse,
}

abbrev identity_of : Numbers → Address
identity_of n = record {
  b0 = 0x61;
  b1 = bcd n.building;
  b2 = bcd n.unit;
  b3 = bcd (n.room / 100);
  b4 = bcd (n.room % 100);
  b5 = bcd n.machine;
}

-- The unit of a kind and number in the apartment.
abbrev neighbour : Numbers → ℕ → ℕ → Address
neighbour n kind machine = record (identity_of n) { b0 = kind; b5 = machine }

bcd_value_small : (c : ℕ) → c < 10 → bcd_value c ≡ some c
unfolding bcd_value
bcd_value_small c h = ground arith

identity_fields-neighbour :
    (n : Numbers) (kind machine : ℕ)
    → InRange n
    → (kind ≡ 0x61) ⊎ (kind ≡ 0x62)
    → 1 ≤ machine
    → machine ≤ 4
    → identity_fields (neighbour n kind machine) ≡ some (record (fields_of n) { machine = machine })
unfolding identity_fields
identity_fields-neighbour n kind machine v k l m =
    rw
      (
        bcd_value-bcd n.building (ground arith),
        bcd_value-bcd n.unit (ground arith),
        bcd_value-bcd (n.room / 100) (ground arith),
        bcd_value-bcd (n.room % 100) (ground arith),
        bcd_value_small machine (omega arith),
      )
      (ground arith)

-- What a peer of a unit is: another unit of its apartment.
pub record IsPeer (i p : Address) : Type 0 where
  pub another : p ≢ i
  pub kind : (p.b0 ≡ 0x61) ⊎ (p.b0 ≡ 0x62)
  pub apartment : (p.b1 ≡ i.b1) × (p.b2 ≡ i.b2) × (p.b3 ≡ i.b3) × (p.b4 ≡ i.b4)
  pub multicast : multicast_ip p ≡ multicast_ip i

multicast_ip-neighbour :
    (n : Numbers) {i : Address} (kind machine : ℕ)
    → identity_parse (some n) ≡ some i
    → (kind ≡ 0x61) ⊎ (kind ≡ 0x62)
    → 1 ≤ machine
    → machine ≤ 4
    → multicast_ip (neighbour n kind machine) ≡ multicast_ip i
unfolding multicast_ip multicast_of
multicast_ip-neighbour n {i} kind machine h k l m =
    let (v, e) = identity_parse_inv n h in
    rw (identity_fields-identity_parse n h, identity_fields-neighbour n kind machine v k l m) refl

neighbour-IsPeer :
    (n : Numbers) {i : Address} (kind machine : ℕ)
    → identity_parse (some n) ≡ some i
    → (kind ≡ 0x61) ⊎ (kind ≡ 0x62)
    → 1 ≤ machine
    → machine ≤ 4
    → (kind ≢ 0x61) ⊎ (machine ≢ i.b5)
    → IsPeer i (neighbour n kind machine)
neighbour-IsPeer n {i} kind machine h k l m other =
    let (v, e) = identity_parse_inv n h in
    record {
      another = λ same. ground arith;
      kind = k;
      apartment = rw e (refl, refl, refl, refl);
      multicast = multicast_ip-neighbour n kind machine h k l m;
    }

abbrev Peers : Address → Option (List Address) → Type 0
Peers i o = (peers : List Address) × (o ≡ some peers) × (length peers ≡ 5) × All (IsPeer i) peers

module _ (n : Numbers) {i : Address} (h : identity_parse (some n) ≡ some i) where
  indoor : (c : ℕ) → 1 ≤ c → c ≤ 4 → c ≢ i.b5 → IsPeer i (neighbour n 0x61 c)
  indoor c l m e = neighbour-IsPeer n 0x61 c h (inl refl) l m (inr e)

  outdoor : (c : ℕ) → 1 ≤ c → c ≤ 4 → IsPeer i (neighbour n 0x62 c)
  outdoor c l m = neighbour-IsPeer n 0x62 c h (inr refl) l m (inl (omega arith))

  own_number : i.b5 ≡ bcd n.machine
  own_number = ap (λ (a : Address). a.b5) (identity_parse_inv n h).1

  peers-case :
      (a b c : ℕ)
      → (1 ≤ a) × (a ≤ 4) × (a ≢ i.b5)
      → (1 ≤ b) × (b ≤ 4) × (b ≢ i.b5)
      → (1 ≤ c) × (c ≤ 4) × (c ≢ i.b5)
      → All (IsPeer i) (
          neighbour n 0x61 a
          ∷ neighbour n 0x61 b
          ∷ neighbour n 0x61 c
          ∷ neighbour n 0x62 1
          ∷ neighbour n 0x62 2
          ∷ [])
  peers-case a b c x y z = (
    indoor a x.0 x.1 x.2,
    (
      indoor b y.0 y.1 y.2,
      (
        indoor c z.0 z.1 z.2,
        (outdoor 1 (omega arith) (omega arith), (outdoor 2 (omega arith) (omega arith), tt)),
      ),
    ),
  )

  machine_cases : (m : ℕ) → (1 ≤ m) × (m ≤ 4) → ((m ≡ 1) ⊎ (m ≡ 2)) ⊎ ((m ≡ 3) ⊎ (m ≡ 4))
  machine_cases m l = ground arith

  peers_of-Peers : Peers i (peers_of (identity_of n) (some (fields_of n)))
  unfolding other_machines bcd
  peers_of-Peers =
      let number = own_number in
      elim (machine_cases n.machine (identity_parse_inv n h).0.machine) [
        | inl (inl e) ↦
            rw e (_, refl, refl, peers-case 2 3 4 (ground arith) (ground arith) (ground arith))
        | inl (inr e) ↦
            rw e (_, refl, refl, peers-case 1 3 4 (ground arith) (ground arith) (ground arith))
        | inr (inl e) ↦
            rw e (_, refl, refl, peers-case 1 2 4 (ground arith) (ground arith) (ground arith))
        | inr (inr e) ↦
            rw e (_, refl, refl, peers-case 1 2 3 (ground arith) (ground arith) (ground arith))
      ]

-- An indoor unit whose text is accepted has five peers: other units than itself, of its own type 61 or
-- of type 62, in the same building, unit, floor and room, and with the same multicast address.
pub indoor_peers-identity_parse :
    (n : Numbers) {i : Address}
    → identity_parse (some n) ≡ some i
    → (peers : List Address) × (indoor_peers i ≡ some peers)
      × (length peers ≡ 5)
      × All (IsPeer i) peers
unfolding indoor_peers
indoor_peers-identity_parse n {i} h =
    let e = (identity_parse_inv n h).1 in
    let found = peers_of-Peers n h in
    rw (identity_fields-identity_parse n h)
      (subst (λ j. Peers i (peers_of j (some (fields_of n)))) (sym e) found)
