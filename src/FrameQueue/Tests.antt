-- ===== src/FrameQueue/Tests.antt =====
-- A queue with three frames, at fixed bytes and clocks.
use doorfast.Prelude.{
  ℕ, ◌+◌, ◌≡◌, refl, ◌⊎◌, Bool, true, [], ◌∷◌, ◌++◌, arith, ok, err_invalid, Bytes,
}
use doorfast.FrameQueue.{FrameEntry, FrameQueue, frame_at, shown, frame_queue_push, frame_queue_pop}
use doorfast.FrameQueue.Refine.{
  IsRing, waiting, kept, new_view, Acceptable, frame_queue_push-waiting,
}
use doorfast.FrameQueue.Pointer.{push_all, push_all-shown}

-- Entry `i` holds two bytes.
abbrev entry : ℕ → FrameEntry
entry i = record { bytes = 0xff ∷ i ∷ []; size = 2; generation = 7; timestamp_ms = 100 + i }

-- Entries 3, 0 and 1 wait.
abbrev three : FrameQueue
three = record {
  entries = entry;
  read = 3;
  write = 2;
  count = 3;
  capacity = 4;
  maximum_frame_length = 1000;
  generation = 7;
  dropped_oldest = 0;
}

abbrev three-IsRing : IsRing three
three-IsRing = record { size = refl; reads = omega arith; used = omega arith; writes = refl }

abbrev jpeg : Bytes
jpeg = 0xff ∷ 0xd8 ∷ []

frame_queue_push-waiting_example :
    let (status, r) = frame_queue_push three jpeg 7 200 in
    IsRing r
    × ((status ≡ ok)
          × Acceptable three jpeg 7
          × (waiting r ≡ kept (waiting three) ++ (new_view jpeg 7 200 ∷ []))
        ⊎ (status ≡ err_invalid) × (¬ Acceptable three jpeg 7) × (r ≡ three))
frame_queue_push-waiting_example = frame_queue_push-waiting three jpeg 7 200 three-IsRing

push_all-shown_example :
    shown
      (push_all
        (frame_queue_pop three).1
        (record { jpeg = jpeg; generation = 7; timestamp_ms = 200 } ∷ []))
      (frame_at three)
    ≡ 0xff ∷ 3 ∷ []
unfolding frame_queue_pop
push_all-shown_example =
    push_all-shown three (record { jpeg = jpeg; generation = 7; timestamp_ms = 200 } ∷ [])
      {f = frame_at three} three-IsRing refl (omega arith)

abbrev granted : ℕ → Bool
granted i = true

abbrev unwritten : ℕ → Bytes
unwritten i = []
