-- ===== src/Prelude/Memory.antt =====
-- Six-byte station addresses and byte strings, with the comparisons that `memcmp` makes of them.
use Prim.Native.Nat.{ℕ, ◌<◌}
use mathlib.Core.Path.{◌≡◌, refl}
use mathlib.Core.Bool.{Bool, true, false, ◌&&◌}
use mathlib.Core.List.{List, [], ◌∷◌}
use native.Mathlib.Omega.{arith}
use doorfast.Prelude.Tests.{◌==◌}

abbrev pub Bytes : Type 0
Bytes = List ℕ

-- `uint8_t [6]`
pub record Address : Type 0 where
  pub b0 : ℕ
  pub b1 : ℕ
  pub b2 : ℕ
  pub b3 : ℕ
  pub b4 : ℕ
  pub b5 : ℕ

abbrev pub zero_address : Address
zero_address = record { b0 = 0; b1 = 0; b2 = 0; b3 = 0; b4 = 0; b5 = 0 }

abbrev pub address_bytes : Address → Bytes
address_bytes a = a.b0 ∷ a.b1 ∷ a.b2 ∷ a.b3 ∷ a.b4 ∷ a.b5 ∷ []

-- `uint8_t [8]`
pub record Block : Type 0 where
  pub c0 : ℕ
  pub c1 : ℕ
  pub c2 : ℕ
  pub c3 : ℕ
  pub c4 : ℕ
  pub c5 : ℕ
  pub c6 : ℕ
  pub c7 : ℕ

abbrev pub zero_block : Block
zero_block = record { c0 = 0; c1 = 0; c2 = 0; c3 = 0; c4 = 0; c5 = 0; c6 = 0; c7 = 0 }

abbrev pub block_bytes : Block → Bytes
block_bytes b = b.c0 ∷ b.c1 ∷ b.c2 ∷ b.c3 ∷ b.c4 ∷ b.c5 ∷ b.c6 ∷ b.c7 ∷ []

-- Each byte of a block fits in eight bits.
pub record IsBlock (b : Block) : Type 0 where
  pub c0_lt : b.c0 < 256
  pub c1_lt : b.c1 < 256
  pub c2_lt : b.c2 < 256
  pub c3_lt : b.c3 < 256
  pub c4_lt : b.c4 < 256
  pub c5_lt : b.c5 < 256
  pub c6_lt : b.c6 < 256
  pub c7_lt : b.c7 < 256

-- `memcmp(a, b, 5) == 0`
unfoldable pub five_eq : Address → Address → Bool
five_eq a b = a.b0 == b.b0 && (a.b1 == b.b1 && (a.b2 == b.b2 && (a.b3 == b.b3 && a.b4 == b.b4)))

-- `memcmp(a, b, 6) == 0`
unfoldable pub addr_eq : Address → Address → Bool
unfolding five_eq
addr_eq a b = five_eq a b && a.b5 == b.b5

pub addr_eq_sound : (a b : Address) → addr_eq a b ≡ true → a ≡ b
unfolding addr_eq
addr_eq_sound a b h = ground arith

pub addr_eq_refl : (a : Address) → addr_eq a a ≡ true
unfolding addr_eq
addr_eq_refl a = ground arith

-- `memcmp(a, b, n) == 0` for two strings of the same length `n`
unfoldable pub bytes_eq : Bytes → Bytes → Bool
bytes_eq [] [] = true
bytes_eq [] (y ∷ ys) = false
bytes_eq (x ∷ xs) [] = false
bytes_eq (x ∷ xs) (y ∷ ys) = x == y && bytes_eq xs ys

pub bytes_eq_sound : (xs ys : Bytes) → bytes_eq xs ys ≡ true → xs ≡ ys
unfolding bytes_eq
bytes_eq_sound [] [] h = refl
bytes_eq_sound [] (y ∷ ys) h = ground arith
bytes_eq_sound (x ∷ xs) [] h = ground arith
bytes_eq_sound (x ∷ xs) (y ∷ ys) h = ground (arith, bytes_eq_sound xs ys)

pub bytes_eq_refl : (xs : Bytes) → bytes_eq xs xs ≡ true
unfolding bytes_eq
bytes_eq_refl [] = refl
bytes_eq_refl (x ∷ xs) = ground (arith, bytes_eq_refl xs)

pub addr_eq_complete : (a b : Address) → a ≡ b → addr_eq a b ≡ true
addr_eq_complete a b e = rw e (addr_eq_refl b)
