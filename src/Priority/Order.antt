-- ===== src/Priority/Order.antt =====
-- src/gvs_priority.c: preemption is an order of three ranks.
use doorfast.Prelude.{
  ℕ, ◌≤◌, ◌≡◌, refl, sym, ◌∙◌, inl, inr, Option-cases, ◌≢◌, ◌⊎◌, Option, none, some, arith, Address,
}
use doorfast.Priority.{
  priority_rank, compare_ranks, priority_compare, preempt, keep, unsupported, call_category,
}

priority_rank_bound : (c : Option ℕ) {r : ℕ} → priority_rank c ≡ some r → r ≤ 2
unfolding priority_rank
priority_rank_bound none h = ground arith
priority_rank_bound (some c) h = ground arith

priority_compare_lem :
    (c i : Option ℕ) → priority_compare c i ≡ compare_ranks (priority_rank c) (priority_rank i)
unfolding priority_compare
priority_compare_lem c i = refl

-- Of three ranks that rise, the last is the highest there is.
compare_ranks_chain :
    (a b c d : Option ℕ)
    → (c ≡ none) ⊎ ((r : ℕ) × (c ≡ some r) × (r ≤ 2))
    → (d ≡ none) ⊎ ((r : ℕ) × (d ≡ some r) × (r ≤ 2))
    → compare_ranks a b ≡ preempt
    → compare_ranks b c ≡ preempt
    → (compare_ranks b a ≡ keep) × (compare_ranks a c ≡ preempt) × (compare_ranks c d ≢ preempt)
unfolding compare_ranks
compare_ranks_chain a b c d rc rd h k = ground arith

rank_cases :
    (c : Option ℕ) → (priority_rank c ≡ none) ⊎ ((r : ℕ) × (priority_rank c ≡ some r) × (r ≤ 2))
rank_cases c = elim (Option-cases (priority_rank c)) [
  | inl e ↦ inl e
  | inr (r, e) ↦ inr (r, e, priority_rank_bound c e)
]

-- A caller that preempts another is never preempted by it in turn, and no call is preempted more
-- than twice in a row: of three callers in a row the third is kept.
pub priority_compare_chain :
    (a b c d : Option ℕ)
    → priority_compare a b ≡ preempt
    → priority_compare b c ≡ preempt
    → (priority_compare b a ≡ keep)
      × (priority_compare a c ≡ preempt)
      × (priority_compare c d ≢ preempt)
priority_compare_chain a b c d h k =
    rw (priority_compare_lem b a, priority_compare_lem a c, priority_compare_lem c d)
      (compare_ranks_chain (priority_rank a) (priority_rank b) (priority_rank c) (priority_rank d)
        (rank_cases c) (rank_cases d) (sym (priority_compare_lem a b) ∙ h)
        (sym (priority_compare_lem b c) ∙ k))

-- Two callers with recognised first bytes are always comparable.
pub call_category_supported :
    (p q local : Address)
    → call_category p local ≢ none
    → call_category q local ≢ none
    → priority_compare (call_category p local) (call_category q local) ≢ unsupported
unfolding call_category priority_compare
call_category_supported p q local h k = ground arith
