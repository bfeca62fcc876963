-- ===== src/Prelude/Tests.antt =====
-- Boolean tests on the native numbers, the conditional, and the status codes of doorfast.h.
use Prim.Native.Nat.{ℕ, zero, suc, ◌<◌, ◌-◌, ◌%◌, ◌^◌, compare, Ordering}
use mathlib.Core.Path.{◌≡◌, refl}
use mathlib.Core.Logic.{◌↔◌, ◌⊎◌, inl, inr}
use mathlib.Core.Bool.{Bool, true, false}
use mathlib.Core.Option.{Option, none, some}
use native.Mathlib.Omega.{arith}

abbrev pub ltb : ℕ → ℕ → Bool
ltb a b = elim (compare a b) [ Ordering.lt ↦ true | _ ↦ false ]

abbrev pub leb : ℕ → ℕ → Bool
leb a b = elim (compare a b) [ Ordering.gt ↦ false | _ ↦ true ]

infix 50 ◌==◌
abbrev pub ◌==◌ : ℕ → ℕ → Bool
a == b = elim (compare a b) [ Ordering.eq ↦ true | _ ↦ false ]

infix 1 if◌then◌else◌
abbrev pub if◌then◌else◌ {ℓ} : {A : Type ℓ} → Bool → A → A → A
if true then x else y = x
if false then x else y = y

pub ==_iff : (a b : ℕ) → ((a == b) ≡ true) ↔ (a ≡ b)
==_iff a b = ground arith

-- To split on a computed value and keep the equation.
pub Bool-cases : (b : Bool) → (b ≡ true) ⊎ (b ≡ false)
Bool-cases true = inl refl
Bool-cases false = inr refl

-- What holds of both branches, each under what its test says, holds of the whole.
pub if-holds {ℓ ℓ'} :
    {A : Type ℓ} (P : A → Type ℓ') (b : Bool) {x y : A}
    → (b ≡ true → P x)
    → (b ≡ false → P y)
    → P (if b then x else y)
if-holds P true h k = h refl
if-holds P false h k = k refl

pub Option-cases {ℓ} : {A : Type ℓ} (o : Option A) → (o ≡ none) ⊎ ((a : A) × (o ≡ some a))
Option-cases none = inl refl
Option-cases (some a) = inr (a, refl)

-- `enum df_result`
pub data Status : Type 0 where
  ok err_invalid err_io : Status

abbrev pub is_ok : Status → Bool
is_ok ok = true
is_ok err_invalid = false
is_ok err_io = false

-- UINT64_MAX
abbrev pub u64_max : ℕ
u64_max = 2 ^ 64 - 1

abbrev pub u64 : ℕ → ℕ
u64 n = n % 2 ^ 64

-- A table of a test: its conjunction over the numbers from `bound` down.
unfoldable pub holds_below : ℕ → (ℕ → Bool) → Bool
holds_below zero test = true
holds_below (suc bound) test = if test bound then holds_below bound test else false

-- A line of a table that has been evaluated.
pub read_table :
    (bound : ℕ) (test : ℕ → Bool)
    → holds_below bound test ≡ true
    → (line : ℕ) → line < bound
    → test line ≡ true
unfolding holds_below
read_table zero test table line below = absurd (omega arith)
read_table (suc bound) test table line below =
    let earlier : holds_below bound test ≡ true → line < bound → test line ≡ true =
      λ rest. read_table bound test rest line in
    ground (arith, earlier)
