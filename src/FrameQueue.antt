-- ===== src/FrameQueue.antt =====
-- src/media_frame_queue.c and src/media_frame_queue.h: the JPEG frames that wait for the encoder.
-- The array of entries is a function from the index. An entry's buffer is its bytes; what a new one
-- holds is the allocator's, `fresh`. A popped frame's pointer is the index of the entry it points to.
pub mod Window
pub mod Refine
pub mod Take
pub mod Pointer
pub mod Runs
mod Tests
use doorfast.Prelude.{
  ℕ, suc, ◌+◌, ◌-◌, ◌*◌, ◌%◌, ◌^◌, Bool, true, false, ◌&&◌, ◌||◌, not, Option, none, some, [], ◌++◌,
  ltb, ◌==◌, if◌then◌else◌, length, take, drop, Status, ok, err_invalid, err_io, Bytes,
}

-- `struct df_media_frame_queue_entry`
pub record FrameEntry : Type 0 where
  pub bytes : Bytes
  pub size : ℕ
  pub generation : ℕ
  pub timestamp_ms : ℕ

-- `struct df_media_frame_queue`
pub record FrameQueue : Type 0 where
  pub entries : ℕ → FrameEntry
  pub read : ℕ
  pub write : ℕ
  pub count : ℕ
  pub capacity : ℕ
  pub maximum_frame_length : ℕ
  pub generation : ℕ
  pub dropped_oldest : ℕ

-- `struct df_media_frame`
pub record MediaFrame : Type 0 where
  pub data_index : ℕ
  pub size : ℕ
  pub generation : ℕ
  pub timestamp_ms : ℕ

abbrev pub queue_capacity : ℕ
queue_capacity = 4

-- DF_GVS_VIDEO_MAX_FRAME
abbrev pub max_frame : ℕ
max_frame = 1024 * 1024

abbrev zero_frame_entry : FrameEntry
zero_frame_entry = record { bytes = []; size = 0; generation = 0; timestamp_ms = 0 }

-- The zeroed structure
abbrev pub no_queue : FrameQueue
no_queue = record {
  entries = λ i. zero_frame_entry;
  read = 0;
  write = 0;
  count = 0;
  capacity = 0;
  maximum_frame_length = 0;
  generation = 0;
  dropped_oldest = 0;
}

-- `df_media_frame_queue_destroy`
abbrev pub frame_queue_destroy : FrameQueue → FrameQueue
frame_queue_destroy q = no_queue

-- The loop of allocations; `allocate` tells which of them succeed.
abbrev all_allocated : (ℕ → Bool) → Bool
all_allocated allocate = allocate 0 && (allocate 1 && (allocate 2 && allocate 3))

abbrev fresh_entry : Bytes → FrameEntry
fresh_entry bytes = record zero_frame_entry { bytes = bytes }

-- `df_media_frame_queue_init`; a refusal for its arguments leaves the queue as it was.
unfoldable pub frame_queue_init :
    FrameQueue → ℕ → ℕ → (ℕ → Bool) → (ℕ → Bytes) → Status × FrameQueue
frame_queue_init q generation maximum allocate fresh =
    if generation == 0 || (maximum == 0 || ltb max_frame maximum)
    then (err_invalid, q)
    else if not (all_allocated allocate)
    then (err_io, frame_queue_destroy q)
    else (
      ok,
      record no_queue {
        entries = λ i. fresh_entry (fresh i);
        capacity = queue_capacity;
        maximum_frame_length = maximum;
        generation = generation;
      },
    )

-- An array with one entry changed
abbrev pub update : (ℕ → FrameEntry) → ℕ → FrameEntry → ℕ → FrameEntry
update entries i e j = if j == i then e else entries j

-- `length`, `generation` and `timestamp_ms` set to zero
abbrev pub cleared : FrameEntry → FrameEntry
cleared e = record e { size = 0; generation = 0; timestamp_ms = 0 }

abbrev clear_below : ℕ → (ℕ → FrameEntry) → ℕ → FrameEntry
clear_below n entries i = if ltb i n then cleared (entries i) else entries i

-- `df_media_frame_queue_reset`
unfoldable pub frame_queue_reset : FrameQueue → ℕ → Status × FrameQueue
frame_queue_reset q generation =
    if generation == 0 || (q.capacity == 0 || q.maximum_frame_length == 0)
    then (err_invalid, q)
    else (
      ok,
      record q {
        entries = clear_below q.capacity q.entries;
        read = 0;
        write = 0;
        count = 0;
        generation = generation;
        dropped_oldest = 0;
      },
    )

-- The oldest frame is dropped from a full queue.
abbrev pub drop_oldest : FrameQueue → FrameQueue
drop_oldest q =
    if q.count == q.capacity
    then record q {
      read = (q.read + 1) % q.capacity;
      count = q.count - 1;
      dropped_oldest = (q.dropped_oldest + 1) % 2 ^ 32;
    }
    else q

-- `memcpy` into the buffer, and the fields beside it
abbrev pub filled : FrameEntry → Bytes → ℕ → ℕ → FrameEntry
filled e jpeg generation timestamp_ms = record {
  bytes = jpeg ++ drop (length jpeg) e.bytes;
  size = length jpeg;
  generation = generation;
  timestamp_ms = timestamp_ms;
}

abbrev pub write_frame : FrameQueue → Bytes → ℕ → ℕ → FrameQueue
write_frame q jpeg generation timestamp_ms = record q {
  entries = update q.entries q.write (filled (q.entries q.write) jpeg generation timestamp_ms);
  write = (q.write + 1) % q.capacity;
  count = q.count + 1;
}

-- `df_media_frame_queue_push`
unfoldable pub frame_queue_push : FrameQueue → Bytes → ℕ → ℕ → Status × FrameQueue
frame_queue_push q jpeg generation timestamp_ms =
    if length jpeg == 0
      || (generation == 0
          || (q.capacity == 0
              || (q.maximum_frame_length == 0 || ltb q.maximum_frame_length (length jpeg))))
    then (err_invalid, q)
    else if not (q.generation == generation)
    then (err_invalid, q)
    else (ok, write_frame (drop_oldest q) jpeg generation timestamp_ms)

abbrev pub frame_at : FrameQueue → MediaFrame
frame_at q = record {
  data_index = q.read;
  size = (q.entries q.read).size;
  generation = (q.entries q.read).generation;
  timestamp_ms = (q.entries q.read).timestamp_ms;
}

abbrev pub without_first : FrameQueue → FrameQueue
without_first q = record q {
  entries = update q.entries q.read (cleared (q.entries q.read));
  read = (q.read + 1) % q.capacity;
  count = q.count - 1;
}

-- `df_media_frame_queue_pop`
unfoldable pub frame_queue_pop : FrameQueue → Status × FrameQueue × Option MediaFrame
frame_queue_pop q =
    if q.capacity == 0 || q.count == 0
    then (err_invalid, q, none)
    else (ok, without_first q, some (frame_at q))

-- What a popped frame's pointer and length show in the queue's memory.
abbrev pub shown : FrameQueue → MediaFrame → Bytes
shown q f = take f.size (q.entries f.data_index).bytes
