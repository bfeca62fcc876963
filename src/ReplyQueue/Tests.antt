-- ===== src/ReplyQueue/Tests.antt =====
-- A reply queue with two replies, at fixed clocks.
use doorfast.Prelude.{[], ◌∷◌}
use doorfast.Frame.Serialize.{PeerReply}
use doorfast.ReplyQueue.{ReplyQueue, queue_init, new_entry}
use doorfast.ReplyQueue.Valid.{IsValid}
use doorfast.ReplyQueue.Invariant.{enqueues, takes, expires, queue_run, queue_run-IsValid}
use doorfast.Fixtures.{station, other}

abbrev first : PeerReply
first = record { target = station; request_data0 = 1; request_data1 = 2 }

abbrev second : PeerReply
second = record { target = other; request_data0 = 3; request_data1 = 4 }

-- Both wait; the first has run out at 1100.
abbrev both : ReplyQueue
both = record { entries = new_entry first 1100 ∷ new_entry second 1500 ∷ []; last_now_ms = 500 }

queue_run-IsValid_example :
    IsValid (
      queue_run (queue_init 0) (enqueues first 10 ∷ enqueues first 20 ∷ takes 30 ∷ expires 40 ∷ []))
queue_run-IsValid_example =
    queue_run-IsValid 0 (enqueues first 10 ∷ enqueues first 20 ∷ takes 30 ∷ expires 40 ∷ [])
