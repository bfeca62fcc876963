-- ===== src/Video/Count.antt =====
-- What a bitmap counts: the weight of the bits that are set, below a bound.
use doorfast.Prelude.{
  ℕ, zero, suc, ◌+◌, ◌*◌, ◌<◌, ◌≤◌, ◌≡◌, refl, ap, inl, inr, Bool, true, false, arith, ltb, ◌==◌,
  if◌then◌else◌, Bool-cases, holds_below,
}
use doorfast.Video.{set_bit, chunk_size}

abbrev pub weight : (ℕ → ℕ) → (ℕ → Bool) → ℕ → ℕ
weight w map zero = 0
weight w map (suc n) = (if map n then w n else 0) + weight w map n

abbrev pub one : ℕ → ℕ
one k = 1

abbrev pub all_set : ℕ → Bool
all_set k = true

module _ (w : ℕ → ℕ) (map : ℕ → Bool) where
  -- A bit beyond the bound does not count.
  weight-set_bit_beyond : (n k : ℕ) → n ≤ k → weight w (set_bit map k) n ≡ weight w map n
  weight-set_bit_beyond zero k le = refl
  weight-set_bit_beyond (suc n) k le =
      let rest = weight-set_bit_beyond n k (omega (arith, le)) in ground arith

  -- A bit that is set anew adds its weight.
  pub weight-set_bit :
      (n k : ℕ) → k < n → map k ≡ false → weight w (set_bit map k) n ≡ w k + weight w map n
  weight-set_bit zero k lt off = absurd (omega (arith, lt))
  weight-set_bit (suc n) k lt off = elim (Bool-cases (n == k)) [
    | inl here ↦
        let same : n ≡ k = ground arith in
        let rest = weight-set_bit_beyond n k (omega (arith, same)) in
        let clear : map n ≡ false = rw same off in
        let weighs = ap w same in rw (here, clear) (omega (arith, rest, weighs))
    | inr there ↦ let rest = weight-set_bit n k (ground arith) off in rw there (omega (arith, rest))
  ]

  pub weight_all : (n : ℕ) → holds_below n map ≡ true → weight w map n ≡ weight w all_set n
  unfolding holds_below
  weight_all zero h = refl
  weight_all (suc n) h = elim (Bool-cases (map n)) [
    | inl on ↦ rw on (ap (λ x. w n + x) (weight_all n (ground arith)))
    | inr off ↦ absurd (ground arith)
  ]

weight_bounded : (map : ℕ → Bool) (n : ℕ) → weight one map n ≤ n
weight_bounded map zero = omega arith
weight_bounded map (suc n) = let rest = weight_bounded map n in ground arith

-- There are as many bits as the bound only if all are set.
pub weight_one : (map : ℕ → Bool) (n : ℕ) → holds_below n map ≡ false → weight one map n < n
unfolding holds_below
weight_one map zero h = absurd (ground arith)
weight_one map (suc n) h = elim (Bool-cases (map n)) [
  | inl on ↦ let rest = weight_one map n (ground arith) in rw on (omega (arith, rest))
  | inr off ↦ let rest = weight_bounded map n in rw off (omega (arith, rest))
]

pub weight_one_all : (n : ℕ) → weight one all_set n ≡ n
weight_one_all zero = refl
weight_one_all (suc n) = omega (arith, weight_one_all n)

-- Together the chunks have the frame's length.
pub weight_sizes :
    (full_length capacity n : ℕ)
    → weight (λ k. chunk_size full_length capacity (k * capacity)) all_set n
      ≡ (if ltb full_length (n * capacity) then full_length else n * capacity)
weight_sizes full_length capacity zero = let none : 0 * capacity ≡ 0 = omega arith in ground arith
weight_sizes full_length capacity (suc n) =
    let rest = weight_sizes full_length capacity n in
    let next : suc n * capacity ≡ n * capacity + capacity = omega arith in ground arith
