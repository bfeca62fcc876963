-- ===== src/Access/Control/Material.antt =====
-- src/gvs_access.c, `df_gvs_access_control_init`: the material from its sixteen hexadecimal digits.
use doorfast.Prelude.{
  ℕ, ◌+◌, ◌-◌, ◌/◌, ◌%◌, ◌<◌, ◌≤◌, ◌≡◌, ◌↔◌, ◌⊎◌, inl, inr, Bool-cases, false, none, refl, ap, ◌∙◌,
  true, ◌&&◌, Option, some, [], ◌∷◌, arith, ltb, ◌==◌, if◌then◌else◌, ==_iff, holds_below,
  read_table, length, All, Status, ok, Bytes, Block, IsBlock, zero_block,
}
use doorfast.Access.{AccessRequest, result_init}
use doorfast.Access.Control.{is_hex, hex_byte, hex_span, hex_block, control_init, unconfigured}

abbrev pub hex_digit : ℕ → ℕ
hex_digit n = if ltb n 10 then b'0' + n else b'a' + (n - 10)

-- The two digits of a byte, and the sixteen of a block.
abbrev pub high : ℕ → ℕ
high b = hex_digit (b / 16)

abbrev pub low : ℕ → ℕ
low b = hex_digit (b % 16)

abbrev pub hex_text : Block → Bytes
hex_text b =
    high b.c0
    ∷ low b.c0
    ∷ high b.c1
    ∷ low b.c1
    ∷ high b.c2
    ∷ low b.c2
    ∷ high b.c3
    ∷ low b.c3
    ∷ high b.c4
    ∷ low b.c4
    ∷ high b.c5
    ∷ low b.c5
    ∷ high b.c6
    ∷ low b.c6
    ∷ high b.c7
    ∷ low b.c7
    ∷ []

byte_table : holds_below 256 (λ b. hex_byte (high b) (low b) == b) ≡ true
unfolding holds_below hex_byte
byte_table = refl

hex_byte-digits : (b : ℕ) → b < 256 → hex_byte (high b) (low b) ≡ b
hex_byte-digits b h = (==_iff _ b).0 (read_table 256 _ byte_table b h)

digit_table : holds_below 256 (λ b. is_hex (high b) && is_hex (low b)) ≡ true
unfolding holds_below
digit_table = refl

digits_hex : (b : ℕ) → b < 256 → (is_hex (high b) ≡ true) × (is_hex (low b) ≡ true)
digits_hex b h =
    let e = read_table 256 (λ b. is_hex (high b) && is_hex (low b)) digit_table b h in
    (ground arith, ground arith)

hex_span-all : (t : Bytes) → All (λ c. is_hex c ≡ true) t → hex_span t ≡ length t
unfolding hex_span
hex_span-all [] h = refl
hex_span-all (c ∷ t) h = ground (arith, h.0, hex_span-all t h.1)

hex_block-hex_text : (b : Block) → IsBlock b → hex_block (hex_text b) ≡ b
unfolding hex_block
hex_block-hex_text b v = cc (
  hex_byte-digits b.c0 v.c0_lt,
  hex_byte-digits b.c1 v.c1_lt,
  hex_byte-digits b.c2 v.c2_lt,
  hex_byte-digits b.c3 v.c3_lt,
  hex_byte-digits b.c4 v.c4_lt,
  hex_byte-digits b.c5 v.c5_lt,
  hex_byte-digits b.c6 v.c6_lt,
  hex_byte-digits b.c7 v.c7_lt,
)

hex_text-All : (b : Block) → IsBlock b → All (λ c. is_hex c ≡ true) (hex_text b)
hex_text-All b v =
    let (h0, l0) = digits_hex b.c0 v.c0_lt in
    let (h1, l1) = digits_hex b.c1 v.c1_lt in
    let (h2, l2) = digits_hex b.c2 v.c2_lt in
    let (h3, l3) = digits_hex b.c3 v.c3_lt in
    let (h4, l4) = digits_hex b.c4 v.c4_lt in
    let (h5, l5) = digits_hex b.c5 v.c5_lt in
    let (h6, l6) = digits_hex b.c6 v.c6_lt in
    let (h7, l7) = digits_hex b.c7 v.c7_lt in
    (
      h0,
      (l0, (h1, (l1, (h2, (l2, (h3, (l3, (h4, (l4, (h5, (l5, (h6, (l6, (h7, (l7, tt))))))))))))))),
    )

control_init_accepts :
    (c : ℕ) (text : Bytes) (now_ms : ℕ) (send : Option (AccessRequest → Status))
    → length (c ∷ text) ≡ 16
    → hex_span (c ∷ text) ≡ 16
    → control_init (some (c ∷ text)) now_ms send ≡ (
      ok,
      record (unconfigured now_ms send) { material = hex_block (c ∷ text); configured = true },
    )
unfolding control_init
control_init_accepts c text now_ms send h k = rw (h, k)

-- The sixteen digits of any eight bytes configure exactly those bytes.
pub control_init-hex_text :
    (b : Block) (now_ms : ℕ) (send : Option (AccessRequest → Status))
    → IsBlock b
    → control_init (some (hex_text b)) now_ms send ≡ (
      ok,
      record {
        result = result_init now_ms;
        configured = true;
        material = b;
        attempted_generation = 0;
        send = send;
      },
    )
control_init-hex_text b now_ms send v =
    control_init_accepts _ _ now_ms send refl (hex_span-all (hex_text b) (hex_text-All b v))
    ∙ ap (λ m. (ok, record (unconfigured now_ms send) { material = m; configured = true }))
        (hex_block-hex_text b v)

hex_span-le : (t : Bytes) → hex_span t ≤ length t
unfolding hex_span
hex_span-le [] = omega arith
hex_span-le (c ∷ t) = ground (arith, hex_span-le t)

hex_span_all : (t : Bytes) → hex_span t ≡ length t → All (λ c. is_hex c ≡ true) t
unfolding hex_span
hex_span_all [] h = tt
hex_span_all (c ∷ t) h = ground (arith, hex_span_all t, hex_span-le t)

-- Whatever text is given, the control is configured only by sixteen hexadecimal digits; any other
-- text leaves it without material, and only a missing or empty one is no error.
pub control_init_configured :
    (text : Option Bytes) (now_ms : ℕ) (send : Option (AccessRequest → Status))
    → let (status, c) = control_init text now_ms send in
      ((c.configured ≡ false)
        × (c.material ≡ zero_block)
        × ((status ≡ ok) ↔ ((text ≡ none) ⊎ (text ≡ some []))))
      ⊎ ((c.configured ≡ true)
          × (status ≡ ok)
          × ((t : Bytes) × (text ≡ some t) × (length t ≡ 16) × All (λ d. is_hex d ≡ true) t))
unfolding control_init
control_init_configured none now_ms send = inl (refl, refl, ((λ _. inl refl), λ _. refl))
control_init_configured (some []) now_ms send = inl (refl, refl, ((λ _. inr refl), λ _. refl))
control_init_configured (some (c ∷ text)) now_ms send =
    elim (Bool-cases (length (c ∷ text) == 16 && hex_span (c ∷ text) == 16)) [
      | inl good ↦
          let all = hex_span_all (c ∷ text) (ground arith) in
          inr (ground arith, ground arith, (c ∷ text, refl, ground arith, all))
      | inr bad ↦ inl (ground arith, ground arith, ((λ h. ground arith), λ h. ground arith))
    ]
