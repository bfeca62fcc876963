-- ===== src/ReplyQueue/Fifo.antt =====
-- src/gvs_reply_queue.c: the queue against the list of the replies that have not run out.
use mathlib.Core.Bool.{false≢true}
use mathlib.Core.List.{filter}
use native.Mathlib.Decide.{dec_lt}
use doorfast.Prelude.{
  ℕ, ◌+◌, ◌≤◌, ◌<◌, ◌≡◌, refl, ◌⊎◌, inl, inr, true, false, Option, none, some, List, [], ◌∷◌, ◌++◌,
  arith, ap, sym, ◌∙◌, Bool-cases, length, All, Status, ok, err_io, u64_max, addr_eq_sound,
  addr_eq_refl,
}
use doorfast.Frame.Serialize.{PeerReply}
use doorfast.ReplyQueue.{
  QueueEntry, ReplyQueue, ttl_ms, prune, same_reply, coalesce, renewed, enqueue, enqueue_live,
  expire, take_reply, take_live,
}

-- The entries that have not run out, oldest first.
abbrev pub live : ℕ → ReplyQueue → List QueueEntry
live now_ms q = filter (λ e. dec_lt now_ms e.expires_ms) q.entries

pub prune-filter :
    (now_ms : ℕ) (es : List QueueEntry)
    → (prune now_ms es).0 ≡ filter (λ (e : QueueEntry). dec_lt now_ms e.expires_ms) es
unfolding prune
prune-filter now_ms [] = refl
prune-filter now_ms (e ∷ es) = ground (arith, prune-filter now_ms es)

prune_count :
    (now_ms : ℕ) (es : List QueueEntry)
    → length (prune now_ms es).0 + (prune now_ms es).1 ≡ length es
unfolding prune
prune_count now_ms [] = omega arith
prune_count now_ms (e ∷ es) = ground (arith, prune_count now_ms es)

pub take_reply_lem :
    (q : ReplyQueue) (now_ms : ℕ)
    → q.last_now_ms ≤ now_ms
    → take_reply q now_ms ≡ take_live now_ms (live now_ms q)
unfolding take_reply
take_reply_lem q now_ms h = rw (← prune-filter now_ms q.entries) (ground arith)

live_All :
    (now_ms : ℕ) (es : List QueueEntry)
    → All (λ e. now_ms < e.expires_ms) (filter (λ (e : QueueEntry). dec_lt now_ms e.expires_ms) es)
live_All now_ms [] = tt
live_All now_ms (e ∷ es) = ground (arith, live_All now_ms es)

abbrev Taken : ℕ → List QueueEntry → Status × ReplyQueue × Option QueueEntry → Type 0
Taken now_ms l o =
    (o.1.last_now_ms ≡ now_ms)
    × (((l ≡ []) × (o.0 ≡ err_io) × (o.2 ≡ none) × (o.1.entries ≡ []))
        ⊎ ((e : QueueEntry) × (l ≡ e ∷ o.1.entries)
            × (o.0 ≡ ok)
            × (o.2 ≡ some e)
            × (now_ms < e.expires_ms)))

take_live-Taken :
    (now_ms : ℕ) (l : List QueueEntry)
    → All (λ e. now_ms < e.expires_ms) l
    → Taken now_ms l (take_live now_ms l)
unfolding take_live
take_live-Taken now_ms [] h = (refl, inl (refl, refl, refl, refl))
take_live-Taken now_ms (e ∷ es) h = (refl, inr (e, refl, refl, refl, h.0))

-- `df_gvs_reply_queue_take` gives the oldest reply that has not run out, and keeps the others in
-- order; it finds none exactly when there is none, and never gives one that has run out.
pub take_reply-live :
    (q : ReplyQueue) (now_ms : ℕ)
    → q.last_now_ms ≤ now_ms
    → let (status, r, got) = take_reply q now_ms in
      (r.last_now_ms ≡ now_ms)
      × (((live now_ms q ≡ []) × (status ≡ err_io) × (got ≡ none) × (r.entries ≡ []))
          ⊎ ((e : QueueEntry) × (live now_ms q ≡ e ∷ r.entries)
              × (status ≡ ok)
              × (got ≡ some e)
              × (now_ms < e.expires_ms)))
take_reply-live q now_ms h =
    rw (take_reply_lem q now_ms h)
      (take_live-Taken now_ms (live now_ms q) (live_All now_ms q.entries))

-- `df_gvs_reply_queue_expire` keeps exactly the replies that have not run out, in order, and counts
-- the others.
pub expire-live :
    (q : ReplyQueue) (now_ms : ℕ)
    → q.last_now_ms ≤ now_ms
    → let (status, r, expired) = expire q now_ms in
      (status ≡ ok)
      × (r.entries ≡ live now_ms q)
      × (length (live now_ms q) + expired ≡ length q.entries)
unfolding expire
expire-live q now_ms h = ground (arith, prune-filter now_ms q.entries, prune_count now_ms q.entries)

pub enqueue_lem :
    (q : ReplyQueue) (reply : PeerReply) (now_ms : ℕ)
    → q.last_now_ms ≤ now_ms
    → now_ms + ttl_ms ≤ u64_max
    → enqueue q reply now_ms
      ≡ enqueue_live q reply now_ms
          (live now_ms q)
          (coalesce reply (now_ms + ttl_ms) (live now_ms q))
unfolding enqueue
enqueue_lem q reply now_ms h room = rw (← prune-filter now_ms q.entries) (ground arith)

-- Where the same reply waits: the entries before it, itself, and those behind.
pub record Waits (reply : PeerReply) (l : List QueueEntry) : Type 0 where
  pub before : List QueueEntry
  pub entry : QueueEntry
  pub behind : List QueueEntry
  pub split : l ≡ before ++ (entry ∷ behind)
  pub first : All (λ e. same_reply e.reply reply ≡ false) before
  pub same : entry.reply ≡ reply

pub same_reply_sound : (a b : PeerReply) → same_reply a b ≡ true → a ≡ b
unfolding same_reply
same_reply_sound a b h = ground (arith, addr_eq_sound a.target b.target)

same_reply_refl : (a : PeerReply) → same_reply a a ≡ true
unfolding same_reply
same_reply_refl a = ground (arith, addr_eq_refl a.target)

pub same_reply_symm : (a b : PeerReply) → same_reply a b ≡ false → same_reply b a ≡ false
same_reply_symm a b h = elim (Bool-cases (same_reply b a)) [
  | inr e ↦ e
  | inl e ↦ absurd (false≢true (sym h ∙ rw (same_reply_sound b a e) (same_reply_refl a)))
]

pub coalesce_cases :
    (reply : PeerReply) (t : ℕ) (l : List QueueEntry)
    → ((coalesce reply t l ≡ none) × All (λ e. same_reply e.reply reply ≡ false) l)
      ⊎ ((w : Waits reply l) × (coalesce reply t l
            ≡ some (w.before ++ (renewed w.entry reply t ∷ w.behind))))
unfolding coalesce
coalesce_cases reply t [] = inl (refl, tt)
coalesce_cases reply t (e ∷ l) = elim (Bool-cases (same_reply e.reply reply)) [
  | inl hit ↦ inr (
    record {
      before = [];
      entry = e;
      behind = l;
      split = refl;
      first = tt;
      same = same_reply_sound e.reply reply hit;
    },
    rw hit,
  )
  | inr miss ↦ elim (coalesce_cases reply t l) [
    | inl (n, all) ↦ inl (rw (miss, n), (miss, all))
    | inr (w, found) ↦ inr (
      record {
        before = e ∷ w.before;
        entry = w.entry;
        behind = w.behind;
        split = ap (λ r. e ∷ r) w.split;
        first = (miss, w.first);
        same = w.same;
      },
      rw (miss, found),
    )
  ]
]
