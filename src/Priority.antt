-- ===== src/Priority.antt =====
-- src/gvs_priority.c: the category of a caller, and which of two callers goes first.
-- An `int` category is `none` where the code has a negative one; it makes no other than -1.
mod Order
mod Tests
use doorfast.Prelude.{ℕ, Option, none, some, ◌==◌, ◌||◌, if◌then◌else◌, ltb, Address, five_eq}

-- `df_gvs_call_category`
unfoldable pub call_category : Address → Address → Option ℕ
call_category peer local =
    if peer.b0 == 0x12 || peer.b0 == 0x31
    then some 1
    else if peer.b0 == 0x13 || peer.b0 == 0x32
    then some 0
    else if peer.b0 == 0x61
    then (if five_eq peer local then some 4 else some 3)
    else if peer.b0 == 0x62
    then some 7
    else none

-- `enum df_gvs_priority_decision`
pub data Decision : Type 0 where
  unsupported keep preempt : Decision

-- `priority_rank`; `none` is -1.
unfoldable pub priority_rank : Option ℕ → Option ℕ
priority_rank none = none
priority_rank (some c) =
    if c == 0 || (c == 1 || c == 7)
    then some 2
    else if c == 3
    then some 1
    else if c == 4
    then some 0
    else none

unfoldable pub compare_ranks : Option ℕ → Option ℕ → Decision
compare_ranks none incoming = unsupported
compare_ranks (some c) none = unsupported
compare_ranks (some c) (some i) = if ltb c i then preempt else keep

-- `df_gvs_priority_compare`
unfoldable pub priority_compare : Option ℕ → Option ℕ → Decision
unfolding priority_rank compare_ranks
priority_compare current incoming = compare_ranks (priority_rank current) (priority_rank incoming)
