-- ===== src/Video.antt =====
-- src/gvs_video_reassembly.c and src/gvs_video_reassembly.h: the frame that is put together of its
-- chunks. The buffer is a function from the offset, the bitmap one from the chunk's number less one. What
-- `malloc` and `calloc` give is an argument, `none` where one of them fails; a push that returns the
-- buffer returns its bytes.
pub mod Jpeg
pub mod Count
pub mod Window
pub mod Assembly
pub mod Outcome
pub mod Reassemble
mod Tests
use doorfast.Prelude.{
  ℕ, zero, suc, ◌+◌, ◌-◌, ◌*◌, ◌/◌, ◌%◌, Bool, true, false, ◌&&◌, ◌||◌, not, Option, none, some,
  List, [], ◌∷◌, ltb, leb, ◌==◌, if◌then◌else◌, get_or, length, Bytes, holds_below,
}
use doorfast.Media.{VideoPacket}

-- `enum df_gvs_video_reassembly_result`
pub data VideoResult : Type 0 where
  error incomplete complete duplicate late : VideoResult

abbrev pub Buffer : Type 0
Buffer = ℕ → ℕ

-- `struct df_gvs_video_reassembly`
pub record Reassembly : Type 0 where
  pub frame_no : ℕ
  pub chunk_count : ℕ
  pub chunk_capacity : ℕ
  pub full_length : ℕ
  pub received : ℕ
  pub received_chunks : ℕ
  pub buffer : Option Buffer
  pub received_map : ℕ → Bool
  pub capacity : ℕ
  pub map_size : ℕ
  pub is_complete : Bool

-- `df_gvs_video_reassembly_init`, and what `df_gvs_video_reassembly_reset` leaves
abbrev pub reassembly_init : Reassembly
reassembly_init = record {
  frame_no = 0;
  chunk_count = 0;
  chunk_capacity = 0;
  full_length = 0;
  received = 0;
  received_chunks = 0;
  buffer = none;
  received_map = λ k. false;
  capacity = 0;
  map_size = 0;
  is_complete = false;
}

-- `DF_GVS_VIDEO_MAX_FRAME`
abbrev pub max_frame : ℕ
max_frame = 1024 * 1024

abbrev pub expected_count : ℕ → ℕ → ℕ
expected_count full_length capacity = (full_length + capacity - 1) / capacity

abbrev pub chunk_offset : ℕ → ℕ → ℕ
chunk_offset index capacity = (index - 1) * capacity

abbrev pub chunk_size : ℕ → ℕ → ℕ → ℕ
chunk_size full_length capacity offset =
    if ltb capacity (full_length - offset) then capacity else full_length - offset

-- `packet_geometry`, for a payload that is there: `*offset` and `*expected_length`
unfoldable pub packet_geometry : VideoPacket → Option (ℕ × ℕ)
packet_geometry p =
    let offset = chunk_offset p.chunk_index p.capacity in
    if (p.full_length == 0 || (ltb max_frame p.full_length || p.capacity == 0))
      || (ltb 1200 p.capacity
          || (p.chunk_count == 0 || (p.chunk_index == 0 || ltb p.chunk_count p.chunk_index)))
    then none
    else if ltb 65535 (expected_count p.full_length p.capacity)
        || not (p.chunk_count == expected_count p.full_length p.capacity)
    then none
    else if leb p.full_length offset
    then none
    else if p.chunk_length == chunk_size p.full_length p.capacity offset
    then some (offset, p.chunk_length)
    else none

-- `start_frame`, with what was allocated
abbrev pub start_frame : VideoPacket → Buffer → Reassembly
start_frame p memory = record reassembly_init {
  buffer = some memory;
  capacity = p.full_length;
  map_size = (p.chunk_count + 7) / 8;
  frame_no = p.frame_no;
  chunk_count = p.chunk_count;
  chunk_capacity = p.capacity;
  full_length = p.full_length;
}

-- `memcmp(buffer + offset, payload, n) == 0` and `memcpy(buffer + offset, payload, n)`
abbrev pub memory_eq : Buffer → ℕ → Bytes → ℕ → Bool
memory_eq b offset payload n = holds_below n (λ j. b (offset + j) == get_or payload j 0)

abbrev pub memory_copy : Buffer → ℕ → Bytes → ℕ → Buffer
memory_copy b offset payload n j =
    if leb offset j && ltb j (offset + n) then get_or payload (j - offset) 0 else b j

abbrev pub set_bit : (ℕ → Bool) → ℕ → ℕ → Bool
set_bit map k i = if i == k then true else map i

-- The first `n` bytes from an offset
abbrev pub window : Buffer → ℕ → ℕ → Bytes
window b offset zero = []
window b offset (suc n) = b offset ∷ window b (suc offset) n

abbrev pub VideoAnswer : Type 0
VideoAnswer = VideoResult × Reassembly × Option Bytes

-- A chunk of the frame in the buffer
unfoldable pub put_chunk : Reassembly → Buffer → VideoPacket → Bytes → ℕ → ℕ → VideoAnswer
put_chunk r b p payload offset n =
    let next : Reassembly = record r {
      buffer = some (memory_copy b offset payload n);
      received_map = set_bit r.received_map (p.chunk_index - 1);
      received = r.received + n;
      received_chunks = r.received_chunks + 1;
    } in
    if r.received_map (p.chunk_index - 1)
    then (if memory_eq b offset payload n then (duplicate, r, none) else (error, r, none))
    else if next.received_chunks == next.chunk_count
    then (if next.received == next.full_length
        then (
          complete,
          record next { is_complete = true },
          some (window (memory_copy b offset payload n) 0 next.received),
        )
        else (error, next, none))
    else (incomplete, next, none)

unfoldable pub begin_frame : Reassembly → Option Buffer → VideoPacket → Bytes → ℕ → ℕ → VideoAnswer
unfolding put_chunk
begin_frame r none p payload offset n = (error, r, none)
begin_frame r (some memory) p payload offset n =
    put_chunk (start_frame p memory) memory p payload offset n

unfoldable pub push_chunk :
    Reassembly → Option Buffer → Option Buffer → VideoPacket → Bytes → ℕ → ℕ → VideoAnswer
unfolding put_chunk begin_frame
push_chunk r none memory p payload offset n = begin_frame r memory p payload offset n
push_chunk r (some b) memory p payload offset n =
    if not (p.frame_no == r.frame_no)
    then (if ltb 32767 ((p.frame_no + 65536 - r.frame_no) % 65536)
        then (late, r, none)
        else begin_frame r memory p payload offset n)
    else if not (p.full_length == r.full_length)
        || (not (p.chunk_count == r.chunk_count) || not (p.capacity == r.chunk_capacity))
    then (error, r, none)
    else put_chunk r b p payload offset n

unfoldable pub push_checked :
    Reassembly → Option Buffer → VideoPacket → Option Bytes → Option (ℕ × ℕ) → VideoAnswer
unfolding push_chunk
push_checked r memory p none geometry = (error, r, none)
push_checked r memory p (some payload) none = (error, r, none)
push_checked r memory p (some payload) (some (offset, n)) =
    push_chunk r r.buffer memory p payload offset n

-- `df_gvs_video_reassembly_push`
unfoldable pub reassembly_push : Reassembly → Option Buffer → VideoPacket → VideoAnswer
unfolding push_checked packet_geometry
reassembly_push r memory p = push_checked r memory p p.payload (packet_geometry p)

-- `df_gvs_jpeg_validate`
unfoldable pub jpeg_validate : Bytes → Bool
jpeg_validate s =
    leb 4 (length s)
    && (get_or s 0 0 == 0xFF
        && (get_or s 1 0 == 0xD8
            && (get_or s (length s - 2) 0 == 0xFF && get_or s (length s - 1) 0 == 0xD9)))
