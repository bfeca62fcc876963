-- ===== src/ReplyQueue/Invariant.antt =====
-- src/gvs_reply_queue.c: what every operation keeps.
use doorfast.Prelude.{
  ℕ, ◌+◌, ◌<◌, ◌≡◌, ◌⊎◌, inl, inr, List, [], ◌∷◌, arith, Bool-cases, u64_max, ltb,
}
use native.Mathlib.Decide.{dec_le}
use doorfast.Frame.Serialize.{PeerReply}
use doorfast.ReplyQueue.{ReplyQueue, ttl_ms, queue_init, prune, enqueue, expire, take_reply}
use doorfast.ReplyQueue.Fifo.{enqueue_lem}
use doorfast.ReplyQueue.Valid.{IsValid, pruned-IsValid, take_live-IsValid, enqueue_live-IsValid}

enqueue-refused :
    (q : ReplyQueue) (r : PeerReply) (now_ms : ℕ)
    → (now_ms < q.last_now_ms) ⊎ (u64_max < now_ms + ttl_ms)
    → (enqueue q r now_ms).1 ≡ q
unfolding enqueue
enqueue-refused q r now_ms h = ground arith

pub enqueue-IsValid :
    (q : ReplyQueue) (r : PeerReply) (now_ms : ℕ) → IsValid q → IsValid (enqueue q r now_ms).1
enqueue-IsValid q r now_ms v = elim (dec_le q.last_now_ms now_ms) [
  | no back ↦ rw (enqueue-refused q r now_ms (inl (omega arith))) v
  | yes l ↦ elim (dec_le (now_ms + ttl_ms) u64_max) [
    | no end ↦ rw (enqueue-refused q r now_ms (inr (omega arith))) v
    | yes room ↦ rw (enqueue_lem q r now_ms l room) (enqueue_live-IsValid q r now_ms l v)
  ]
]

pub take_reply-IsValid : (q : ReplyQueue) (now_ms : ℕ) → IsValid q → IsValid (take_reply q now_ms).1
unfolding take_reply
take_reply-IsValid q now_ms v = elim (Bool-cases (ltb now_ms q.last_now_ms)) [
  | inl back ↦ rw back v
  | inr on ↦ rw on (
      take_live-IsValid now_ms (prune now_ms q.entries).0
        (pruned-IsValid q now_ms (ground arith) v))
]

expire-IsValid : (q : ReplyQueue) (now_ms : ℕ) → IsValid q → IsValid (expire q now_ms).1
unfolding expire
expire-IsValid q now_ms v = elim (Bool-cases (ltb now_ms q.last_now_ms)) [
  | inl back ↦ rw back v
  | inr on ↦ rw on (pruned-IsValid q now_ms (ground arith) v)
]

-- A call on the queue.
pub data QueueCall : Type 0 where
  enqueues : PeerReply → ℕ → QueueCall
  takes expires : ℕ → QueueCall

unfoldable pub queue_run : ReplyQueue → List QueueCall → ReplyQueue
queue_run q [] = q
queue_run q (enqueues r now_ms ∷ calls) = queue_run (enqueue q r now_ms).1 calls
queue_run q (takes now_ms ∷ calls) = queue_run (take_reply q now_ms).1 calls
queue_run q (expires now_ms ∷ calls) = queue_run (expire q now_ms).1 calls

queue_run-keeps :
    (q : ReplyQueue) (calls : List QueueCall) → IsValid q → IsValid (queue_run q calls)
unfolding queue_run
queue_run-keeps q [] v = v
queue_run-keeps q (enqueues r now_ms ∷ calls) v =
    queue_run-keeps (enqueue q r now_ms).1 calls (enqueue-IsValid q r now_ms v)
queue_run-keeps q (takes now_ms ∷ calls) v =
    queue_run-keeps (take_reply q now_ms).1 calls (take_reply-IsValid q now_ms v)
queue_run-keeps q (expires now_ms ∷ calls) v =
    queue_run-keeps (expire q now_ms).1 calls (expire-IsValid q now_ms v)

-- Whatever is called on a new queue, at whatever clocks, it holds at most 16 replies, no two the
-- same, each with more than nothing and at most a full term to run, and with a count of requests
-- that is at least 1 and fits an unsigned int.
pub queue_run-IsValid :
    (start_ms : ℕ) (calls : List QueueCall) → IsValid (queue_run (queue_init start_ms) calls)
queue_run-IsValid start_ms calls =
    queue_run-keeps (queue_init start_ms) calls
      (record { small = omega arith; fresh = tt; distinct = tt })
