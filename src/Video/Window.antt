-- ===== src/Video/Window.antt =====
-- src/gvs_video_reassembly.c: what the buffer holds after a chunk was copied.
use doorfast.Prelude.{
  ℕ, zero, suc, ◌+◌, ◌-◌, ◌<◌, ◌≤◌, ◌≡◌, refl, ap, ◌∙◌, sym, inl, inr, Bool, true, ◌&&◌, arith, ltb,
  leb, ◌==◌, ==_iff, ◌∷◌, Bool-cases, holds_below, get_or,
}
use doorfast.Video.{Buffer, window, memory_eq, memory_copy}

get_or-window :
    (c : Buffer) (offset n j : ℕ) → j < n → get_or (window c offset n) j 0 ≡ c (offset + j)
get_or-window c offset zero j lt = absurd (omega (arith, lt))
get_or-window c offset (suc n) zero lt = ap c (omega arith)
get_or-window c offset (suc n) (suc j) lt =
    let next : suc offset + j ≡ offset + suc j = omega arith in
    get_or-window c (suc offset) n j (omega (arith, lt)) ∙ ap c next

-- Buffers that agree have the same window.
pub window_agrees :
    (b c : Buffer) (offset n : ℕ)
    → ((j : ℕ) → j < n → b (offset + j) ≡ c (offset + j))
    → window b offset n ≡ window c offset n
window_agrees b c offset zero h = refl
window_agrees b c offset (suc n) h =
    let here : offset + 0 ≡ offset = omega arith in
    let first : b offset ≡ c offset = ap b (sym here) ∙ h 0 (omega arith) ∙ ap c here in
    let rest = window_agrees b c (suc offset) n (λ j lt.
      let next : offset + suc j ≡ suc offset + j = omega arith in
      ap b (sym next) ∙ h (suc j) (omega (arith, lt)) ∙ ap c next) in
    rw first (ap (λ xs. c offset ∷ xs) rest)

pub holds_below_intro :
    (n : ℕ) (test : ℕ → Bool) → ((j : ℕ) → j < n → test j ≡ true) → holds_below n test ≡ true
unfolding holds_below
holds_below_intro zero test h = refl
holds_below_intro (suc n) test h =
    rw (h n (omega arith)) (holds_below_intro n test (λ j lt. h j (omega (arith, lt))))

module _ (b c : Buffer) (offset n : ℕ) where
  -- A buffer that holds the chunk compares equal.
  pub memory_eq_holds :
      ((j : ℕ) → j < n → b (offset + j) ≡ c (offset + j))
      → memory_eq b offset (window c offset n) n ≡ true
  memory_eq_holds h =
      holds_below_intro n (λ j. b (offset + j) == get_or (window c offset n) j 0)
        (λ j lt.
          (==_iff (b (offset + j)) (get_or (window c offset n) j 0)).1
            (h j lt ∙ sym (get_or-window c offset n j lt)))

  -- Where the chunk lies the copy puts it, and nowhere else it changes the buffer.
  pub memory_copy_inside :
      (i : ℕ) → offset ≤ i → i < offset + n → memory_copy b offset (window c offset n) n i ≡ c i
  memory_copy_inside i le lt =
      let in_range : (leb offset i && ltb i (offset + n)) ≡ true = ground arith in
      let back : offset + (i - offset) ≡ i = omega (arith, le) in
      rw in_range (get_or-window c offset n (i - offset) (omega (arith, le, lt)) ∙ ap c back)

  pub memory_copy_keeps : (i : ℕ) → b i ≡ c i → memory_copy b offset (window c offset n) n i ≡ c i
  memory_copy_keeps i e = elim (Bool-cases (leb offset i && ltb i (offset + n))) [
    | inl here ↦ memory_copy_inside i (ground arith) (ground arith)
    | inr there ↦ rw there e
  ]
