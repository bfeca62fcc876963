-- ===== src/ReplyQueue/Valid.antt =====
-- src/gvs_reply_queue.c: a queue that is well formed, and what pruning, renewing and appending keep.
use doorfast.Prelude.{
  ℕ, ◌+◌, ◌≤◌, ◌<◌, ◌≡◌, ap, inl, inr, false, List, [], ◌∷◌, ◌++◌, map, arith, Bool-cases, length,
  length-append, All, All-append, All-append_left, All-append_right, leb,
}
use mathlib.Core.Path.{subst}
use doorfast.Frame.Serialize.{PeerReply}
use doorfast.ReplyQueue.{
  QueueEntry, ReplyQueue, capacity, ttl_ms, uint_max, prune, same_reply, coalesce, new_entry,
  renewed, enqueue_live, take_live,
}
use doorfast.ReplyQueue.Fifo.{live, prune-filter, coalesce_cases, same_reply_symm}

abbrev pub replies : List QueueEntry → List PeerReply
replies es = map (λ e. e.reply) es

-- No two of the replies are the same.
abbrev pub Distinct : List PeerReply → Type 0
Distinct [] = Unit {0}
Distinct (r ∷ rs) = All (λ x. same_reply x r ≡ false) rs × Distinct rs

-- An entry that waits at `now_ms`: it has run for no longer than its term, and counts its requests.
abbrev pub IsFresh : ℕ → QueueEntry → Type 0
IsFresh now_ms e =
    (now_ms < e.expires_ms)
    × (e.expires_ms ≤ now_ms + ttl_ms)
    × (1 ≤ e.repeat_count)
    × (e.repeat_count ≤ uint_max)

pub record IsValid (q : ReplyQueue) : Type 0 where
  pub small : length q.entries ≤ capacity
  pub fresh : All (IsFresh q.last_now_ms) q.entries
  pub distinct : Distinct (replies q.entries)

prune-length : (now_ms : ℕ) (es : List QueueEntry) → length (prune now_ms es).0 ≤ length es
unfolding prune
prune-length now_ms [] = omega arith
prune-length now_ms (e ∷ es) = ground (arith, prune-length now_ms es)

prune-IsFresh :
    (then_ms now_ms : ℕ) (es : List QueueEntry)
    → then_ms ≤ now_ms
    → All (IsFresh then_ms) es
    → All (IsFresh now_ms) (prune now_ms es).0
unfolding prune
prune-IsFresh then_ms now_ms [] l h = tt
prune-IsFresh then_ms now_ms (e ∷ es) l h = ground (arith, prune-IsFresh then_ms now_ms es l h.1)

prune-others :
    (now_ms : ℕ) (r : PeerReply) (es : List QueueEntry)
    → All (λ x. same_reply x r ≡ false) (replies es)
    → All (λ x. same_reply x r ≡ false) (replies (prune now_ms es).0)
unfolding prune
prune-others now_ms r [] h = tt
prune-others now_ms r (e ∷ es) h = ground (arith, prune-others now_ms r es h.1)

prune-Distinct :
    (now_ms : ℕ) (es : List QueueEntry)
    → Distinct (replies es)
    → Distinct (replies (prune now_ms es).0)
unfolding prune
prune-Distinct now_ms [] h = tt
prune-Distinct now_ms (e ∷ es) h =
    ground (arith, prune-Distinct now_ms es h.1, prune-others now_ms e.reply es h.0)

-- What is left after a prune, as a queue.
abbrev pruned : ℕ → ReplyQueue → ReplyQueue
pruned now_ms q = record { entries = (prune now_ms q.entries).0; last_now_ms = now_ms }

pub pruned-IsValid :
    (q : ReplyQueue) (now_ms : ℕ) → q.last_now_ms ≤ now_ms → IsValid q → IsValid (pruned now_ms q)
pruned-IsValid q now_ms l v = record {
  small = omega (arith, prune-length now_ms q.entries, v.small);
  fresh = prune-IsFresh q.last_now_ms now_ms q.entries l v.fresh;
  distinct = prune-Distinct now_ms q.entries v.distinct;
}

pub take_live-IsValid :
    (now_ms : ℕ) (es : List QueueEntry)
    → IsValid (record { entries = es; last_now_ms = now_ms })
    → IsValid (take_live now_ms es).1
unfolding take_live
take_live-IsValid now_ms [] v = v
take_live-IsValid now_ms (e ∷ es) v = record {
  small = omega (arith, v.small);
  fresh = v.fresh.1;
  distinct = v.distinct.1;
}

-- The queue around one entry.
abbrev around : List QueueEntry → QueueEntry → List QueueEntry → ℕ → ReplyQueue
around before e behind now_ms = record { entries = before ++ (e ∷ behind); last_now_ms = now_ms }

renew-IsFresh :
    (e : QueueEntry) (r : PeerReply) (now_ms : ℕ)
    → IsFresh now_ms e
    → IsFresh now_ms (renewed e r (now_ms + ttl_ms))
renew-IsFresh e r now_ms h = ground arith

renew-IsValid :
    (before behind : List QueueEntry) (e : QueueEntry) (r : PeerReply) (now_ms : ℕ)
    → e.reply ≡ r
    → IsValid (around before e behind now_ms)
    → IsValid (around before (renewed e r (now_ms + ttl_ms)) behind now_ms)
renew-IsValid before behind e r now_ms same v =
    let fresh = All-append_right (IsFresh now_ms) before (e ∷ behind) v.fresh in
    let new = renewed e r (now_ms + ttl_ms) in
    record {
      small =
          omega (
            arith,
            length-append before (e ∷ behind),
            length-append before (new ∷ behind),
            v.small,
          );
      fresh =
          All-append (IsFresh now_ms) before (new ∷ behind)
            (All-append_left (IsFresh now_ms) before (e ∷ behind) v.fresh)
            (renew-IsFresh e r now_ms fresh.0, fresh.1);
      distinct = subst Distinct (replies_same before) v.distinct;
    }
  where
    replies_same :
        (xs : List QueueEntry)
        → replies (xs ++ (e ∷ behind)) ≡ replies (xs ++ (renewed e r (now_ms + ttl_ms) ∷ behind))
    replies_same [] = ap (λ k. k ∷ replies behind) same
    replies_same (x ∷ xs) = ap (λ l. x.reply ∷ l) (replies_same xs)

append-others :
    (r k : PeerReply) (t : ℕ) (es : List QueueEntry)
    → All (λ x. same_reply x r ≡ false) (replies es)
    → same_reply k r ≡ false
    → All (λ x. same_reply x r ≡ false) (replies (es ++ (new_entry k t ∷ [])))
append-others r k t [] h n = (n, tt)
append-others r k t (e ∷ es) h n = (h.0, append-others r k t es h.1 n)

append-Distinct :
    (k : PeerReply) (t : ℕ) (es : List QueueEntry)
    → All (λ e. same_reply e.reply k ≡ false) es
    → Distinct (replies es)
    → Distinct (replies (es ++ (new_entry k t ∷ [])))
append-Distinct k t [] h d = (tt, tt)
append-Distinct k t (e ∷ es) h d = (
  append-others e.reply k t es d.0 (same_reply_symm e.reply k h.0),
  append-Distinct k t es h.1 d.1,
)

append-IsValid :
    (r : PeerReply) (now_ms : ℕ) (es : List QueueEntry)
    → length es < capacity
    → All (λ e. same_reply e.reply r ≡ false) es
    → IsValid (record { entries = es; last_now_ms = now_ms })
    → IsValid
        (record { entries = es ++ (new_entry r (now_ms + ttl_ms) ∷ []); last_now_ms = now_ms })
append-IsValid r now_ms es small others v = record {
  small = omega (arith, length-append es (new_entry r (now_ms + ttl_ms) ∷ []));
  fresh =
      All-append (IsFresh now_ms) es (new_entry r (now_ms + ttl_ms) ∷ []) v.fresh (omega arith, tt);
  distinct = append-Distinct r (now_ms + ttl_ms) es others v.distinct;
}

live-IsValid :
    (q : ReplyQueue) (now_ms : ℕ)
    → q.last_now_ms ≤ now_ms
    → IsValid q
    → IsValid (record { entries = live now_ms q; last_now_ms = now_ms })
live-IsValid q now_ms l v =
    subst (λ es. IsValid (record { entries = es; last_now_ms = now_ms }))
      (prune-filter now_ms q.entries) (pruned-IsValid q now_ms l v)

pub enqueue_live-IsValid :
    (q : ReplyQueue) (r : PeerReply) (now_ms : ℕ)
    → q.last_now_ms ≤ now_ms
    → IsValid q
    → IsValid
        (enqueue_live q r now_ms (live now_ms q) (coalesce r (now_ms + ttl_ms) (live now_ms q))).1
unfolding enqueue_live
enqueue_live-IsValid q r now_ms l v =
    let w = live-IsValid q now_ms l v in
    elim (coalesce_cases r (now_ms + ttl_ms) (live now_ms q)) [
      | inr (at, found) ↦
          let here =
            subst (λ es. IsValid (record { entries = es; last_now_ms = now_ms })) at.split w in
          rw found (renew-IsValid at.before at.behind at.entry r now_ms at.same here)
      | inl (n, others) ↦ rw n (elim (Bool-cases (leb capacity (length (live now_ms q)))) [
        | inl full ↦ rw full v
        | inr space ↦ rw space (append-IsValid r now_ms (live now_ms q) (ground arith) others w)
      ])
    ]
