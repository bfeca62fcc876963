-- ===== src/ReplyQueue.antt =====
-- src/gvs_reply_queue.c and src/gvs_reply_queue.h: the replies to peers that wait to be sent.
-- The array and its count are one list: `entries[0 .. count)`; the code zeroes what stands behind.
pub mod Fifo
pub mod Valid
pub mod Invariant
mod Tests
use doorfast.Prelude.{
  ℕ, suc, ◌+◌, ◌-◌, ◌^◌, Bool, true, false, ◌&&◌, ◌||◌, Option, none, some, List, [], ◌∷◌, ◌++◌,
  ltb, leb, ◌==◌, if◌then◌else◌, length, Status, ok, err_invalid, err_io, u64_max, addr_eq,
}
use doorfast.Frame.Serialize.{PeerReply}

-- `struct df_gvs_reply_queue_entry`
pub record QueueEntry : Type 0 where
  pub reply : PeerReply
  pub expires_ms : ℕ
  pub repeat_count : ℕ

-- `struct df_gvs_reply_queue`
pub record ReplyQueue : Type 0 where
  pub entries : List QueueEntry
  pub last_now_ms : ℕ

abbrev pub capacity : ℕ
capacity = 16

abbrev pub ttl_ms : ℕ
ttl_ms = 1000

-- UINT_MAX
abbrev pub uint_max : ℕ
uint_max = 2 ^ 32 - 1

-- Has run out at `now_ms`.
abbrev pub is_expired : ℕ → QueueEntry → Bool
is_expired now_ms e = leb e.expires_ms now_ms

-- `df_gvs_reply_queue_prune`: the entries kept, in order, and how many were not.
unfoldable pub prune : ℕ → List QueueEntry → List QueueEntry × ℕ
prune now_ms [] = ([], 0)
prune now_ms (e ∷ es) =
    let (kept, expired) = prune now_ms es in
    if is_expired now_ms e then (kept, suc expired) else (e ∷ kept, expired)

-- `df_gvs_reply_queue_init`
abbrev pub queue_init : ℕ → ReplyQueue
queue_init now_ms = record { entries = []; last_now_ms = now_ms }

-- The two `memcmp` of the code.
unfoldable pub same_reply : PeerReply → PeerReply → Bool
same_reply a b =
    addr_eq a.target b.target
    && (a.request_data0 == b.request_data0 && a.request_data1 == b.request_data1)

-- A waiting entry that is asked for again.
abbrev pub renewed : QueueEntry → PeerReply → ℕ → QueueEntry
renewed e reply expires_ms = record {
  reply = reply;
  expires_ms = expires_ms;
  repeat_count = if ltb e.repeat_count uint_max then e.repeat_count + 1 else e.repeat_count;
}

abbrev keep_first : QueueEntry → Option (List QueueEntry) → Option (List QueueEntry)
keep_first e none = none
keep_first e (some es) = some (e ∷ es)

-- The loop that renews the first entry for the same reply; `none` if there is none.
unfoldable pub coalesce : PeerReply → ℕ → List QueueEntry → Option (List QueueEntry)
coalesce reply expires_ms [] = none
coalesce reply expires_ms (e ∷ es) =
    let rest = keep_first e (coalesce reply expires_ms es) in
    if same_reply e.reply reply then some (renewed e reply expires_ms ∷ es) else rest

abbrev pub new_entry : PeerReply → ℕ → QueueEntry
new_entry reply expires_ms = record { reply = reply; expires_ms = expires_ms; repeat_count = 1 }

-- The end of `df_gvs_reply_queue_enqueue`, after the loop; `live` are the entries not pruned.
unfoldable pub enqueue_live :
    ReplyQueue
    → PeerReply
    → ℕ
    → List QueueEntry
    → Option (List QueueEntry)
    → Status × ReplyQueue × Bool
enqueue_live q reply now_ms live (some es) =
    (ok, record { entries = es; last_now_ms = now_ms }, true)
enqueue_live q reply now_ms live none = if leb capacity (length live) then (err_io, q, false) else (
  ok,
  record { entries = live ++ (new_entry reply (now_ms + ttl_ms) ∷ []); last_now_ms = now_ms },
  false,
)

-- `df_gvs_reply_queue_enqueue`; the Boolean is `*coalesced`.
unfoldable pub enqueue : ReplyQueue → PeerReply → ℕ → Status × ReplyQueue × Bool
unfolding enqueue_live
enqueue q reply now_ms =
    if ltb now_ms q.last_now_ms || ltb (u64_max - ttl_ms) now_ms
    then (err_invalid, q, false)
    else (let (live, expired) = prune now_ms q.entries in
        enqueue_live q reply now_ms live (coalesce reply (now_ms + ttl_ms) live))

-- `df_gvs_reply_queue_expire`; the number is `*expired_count`.
unfoldable pub expire : ReplyQueue → ℕ → Status × ReplyQueue × ℕ
expire q now_ms =
    if ltb now_ms q.last_now_ms
    then (err_invalid, q, 0)
    else (let (live, expired) = prune now_ms q.entries in
        (ok, record { entries = live; last_now_ms = now_ms }, expired))

unfoldable pub take_live : ℕ → List QueueEntry → Status × ReplyQueue × Option QueueEntry
take_live now_ms [] = (err_io, record { entries = []; last_now_ms = now_ms }, none)
take_live now_ms (e ∷ es) = (ok, record { entries = es; last_now_ms = now_ms }, some e)

-- `df_gvs_reply_queue_take`; `none` is the zeroed `*entry`.
unfoldable pub take_reply : ReplyQueue → ℕ → Status × ReplyQueue × Option QueueEntry
unfolding take_live
take_reply q now_ms =
    if ltb now_ms q.last_now_ms
    then (err_invalid, q, none)
    else take_live now_ms (prune now_ms q.entries).0
