-- ===== src/FrameQueue/Runs.antt =====
-- src/media_frame_queue.c: the ring through any history of calls after it is set up.
use doorfast.Prelude.{ℕ, ◌≡◌, Bool, List, [], ◌∷◌, arith, ok, Bytes}
use doorfast.FrameQueue.{
  FrameQueue, frame_queue_init, frame_queue_reset, frame_queue_push, frame_queue_pop,
}
use doorfast.FrameQueue.Refine.{IsRing, frame_queue_push-waiting}
use doorfast.FrameQueue.Take.{frame_queue_pop-waiting}

frame_queue_init-IsRing :
    (q : FrameQueue) (generation maximum : ℕ) (allocate : ℕ → Bool) (fresh : ℕ → Bytes)
    → (frame_queue_init q generation maximum allocate fresh).0 ≡ ok
    → IsRing (frame_queue_init q generation maximum allocate fresh).1
unfolding frame_queue_init
frame_queue_init-IsRing q generation maximum allocate fresh h = ground arith

frame_queue_reset-IsRing :
    (q : FrameQueue) (generation : ℕ) → IsRing q → IsRing (frame_queue_reset q generation).1
unfolding frame_queue_reset
frame_queue_reset-IsRing q generation v = ground arith

-- A call on the queue.
pub data FrameCall : Type 0 where
  pushes : Bytes → ℕ → ℕ → FrameCall
  pops : FrameCall
  resets : ℕ → FrameCall

unfoldable pub frame_call : FrameQueue → FrameCall → FrameQueue
frame_call q (pushes jpeg generation timestamp_ms) =
    (frame_queue_push q jpeg generation timestamp_ms).1
frame_call q pops = (frame_queue_pop q).1
frame_call q (resets generation) = (frame_queue_reset q generation).1

unfoldable pub frame_run : FrameQueue → List FrameCall → FrameQueue
frame_run q [] = q
frame_run q (call ∷ calls) = frame_run (frame_call q call) calls

frame_call-IsRing : (q : FrameQueue) (call : FrameCall) → IsRing q → IsRing (frame_call q call)
unfolding frame_call
frame_call-IsRing q (pushes jpeg generation timestamp_ms) v =
    (frame_queue_push-waiting q jpeg generation timestamp_ms v).0
frame_call-IsRing q pops v = (frame_queue_pop-waiting q v).0
frame_call-IsRing q (resets generation) v = frame_queue_reset-IsRing q generation v

frame_run-keeps : (q : FrameQueue) (calls : List FrameCall) → IsRing q → IsRing (frame_run q calls)
unfolding frame_run
frame_run-keeps q [] v = v
frame_run-keeps q (call ∷ calls) v =
    frame_run-keeps (frame_call q call) calls (frame_call-IsRing q call v)

-- A queue that has been set up stays a ring of four through any calls: its indexes are in range, at
-- most four frames wait, and the next entry to write is the one behind them.
pub frame_run-IsRing :
    (q : FrameQueue) (generation maximum : ℕ) (allocate : ℕ → Bool) (fresh : ℕ → Bytes)
    (calls : List FrameCall)
    → (frame_queue_init q generation maximum allocate fresh).0 ≡ ok
    → IsRing (frame_run (frame_queue_init q generation maximum allocate fresh).1 calls)
frame_run-IsRing q generation maximum allocate fresh calls h =
    frame_run-keeps (frame_queue_init q generation maximum allocate fresh).1 calls
      (frame_queue_init-IsRing q generation maximum allocate fresh h)
