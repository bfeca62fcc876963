-- ===== src/Video/Assembly.antt =====
-- src/gvs_video_reassembly.c: the chunks of one frame, pushed in any order, and what the reassembly knows
-- of the frame by then.
use doorfast.Prelude.{
  ℕ, ◌+◌, ◌-◌, ◌*◌, ◌/◌, ◌%◌, ◌<◌, ◌≤◌, ◌≡◌, refl, ap, ◌∙◌, sym, inl, inr, Bool, true, some, arith,
  ◌==◌, Bool-cases, holds_below, read_table, Bytes, Address,
}
use doorfast.Media.{VideoPacket}
use doorfast.Video.{
  Buffer, Reassembly, max_frame, expected_count, chunk_offset, chunk_size, packet_geometry,
  memory_copy, set_bit, window,
}
use doorfast.Video.Window.{window_agrees, memory_copy_inside, memory_copy_keeps}
use doorfast.Video.Count.{weight, one, all_set, weight_sizes}

-- A frame that is sent in chunks.
pub record SentFrame : Type 0 where
  pub destination : Address
  pub source : Address
  pub frame_no : ℕ
  pub capacity : ℕ
  pub full_length : ℕ
  pub content : Buffer

abbrev pub count_of : SentFrame → ℕ
count_of v = expected_count v.full_length v.capacity

-- What the protocol allows: a frame of up to a mebibyte, in chunks of up to 1200 bytes.
abbrev pub IsFrame : SentFrame → Type 0
IsFrame v =
    (0 < v.full_length)
    × (v.full_length ≤ max_frame)
    × (0 < v.capacity)
    × (v.capacity ≤ 1200)
    × (count_of v ≤ 65535)

abbrev pub size_of : SentFrame → ℕ → ℕ
size_of v k = chunk_size v.full_length v.capacity (k * v.capacity)

-- The packet of a chunk, counted from zero.
abbrev pub chunk : SentFrame → ℕ → VideoPacket
chunk v k = record {
  destination = v.destination;
  source = v.source;
  frame_no = v.frame_no;
  chunk_count = count_of v;
  chunk_index = k + 1;
  chunk_length = size_of v k;
  capacity = v.capacity;
  full_length = v.full_length;
  payload = some (window v.content (k * v.capacity) (size_of v k));
}

-- A chunk has its place in the frame.
count_of_covers : (v : SentFrame) → IsFrame v → v.full_length ≤ count_of v * v.capacity
count_of_covers v (p, m, c, _, _) = grind arith

chunk_inside : (v : SentFrame) (k : ℕ) → IsFrame v → k < count_of v → k * v.capacity < v.full_length
chunk_inside v k (p, m, c, _, _) lt = grind arith

-- What is accepted as the geometry of a chunk.
packet_geometry_accepts :
    (p : VideoPacket)
    → 0 < p.full_length
    → p.full_length ≤ max_frame
    → 0 < p.capacity
    → p.capacity ≤ 1200
    → 0 < p.chunk_index
    → p.chunk_index ≤ p.chunk_count
    → p.chunk_count ≤ 65535
    → p.chunk_count ≡ expected_count p.full_length p.capacity
    → chunk_offset p.chunk_index p.capacity < p.full_length
    → p.chunk_length ≡ chunk_size p.full_length p.capacity (chunk_offset p.chunk_index p.capacity)
    → packet_geometry p ≡ some (chunk_offset p.chunk_index p.capacity, p.chunk_length)
unfolding packet_geometry
packet_geometry_accepts p l m c d i j n e o s = rw (← e, ← s) (ground arith)

pub chunk-geometry :
    (v : SentFrame) (k : ℕ)
    → IsFrame v
    → k < count_of v
    → packet_geometry (chunk v k) ≡ some (k * v.capacity, size_of v k)
chunk-geometry v k f lt =
    let here : k + 1 - 1 ≡ k = omega arith in
    let accepted =
      packet_geometry_accepts (chunk v k) f.0 f.1 f.2 f.3 (omega arith) (omega (arith, lt)) f.4 refl
        (rw here (chunk_inside v k f lt)) (rw here refl) in
    rw here at accepted

-- The buffer holds the content at the chunks that the bitmap names.
abbrev pub Agrees : SentFrame → Buffer → (ℕ → Bool) → Type 0
Agrees v b map =
    (k j : ℕ)
    → k < count_of v
    → map k ≡ true
    → j < size_of v k
    → b (k * v.capacity + j) ≡ v.content (k * v.capacity + j)

-- What a reassembly knows of a frame.
pub record Assembling (v : SentFrame) (r : Reassembly) (b : Buffer) : Type 0 where
  pub holds : r.buffer ≡ some b
  pub same_frame : r.frame_no ≡ v.frame_no
  pub same_count : r.chunk_count ≡ count_of v
  pub same_capacity : r.chunk_capacity ≡ v.capacity
  pub same_length : r.full_length ≡ v.full_length
  pub counts : r.received_chunks ≡ weight one r.received_map (count_of v)
  pub measures : r.received ≡ weight (size_of v) r.received_map (count_of v)
  pub agrees : Agrees v b r.received_map

module _ (v : SentFrame) (f : IsFrame v) (k : ℕ) (lt : k < count_of v) where
  abbrev offset : ℕ
  offset = k * v.capacity

  abbrev size : ℕ
  size = size_of v k

  abbrev body : Bytes
  body = window v.content offset size

  pub copy-Agrees :
      (b : Buffer) (map : ℕ → Bool)
      → Agrees v b map
      → Agrees v (memory_copy b offset body size) (set_bit map k)
  copy-Agrees b map h m j below on inside = elim (Bool-cases (m == k)) [
    | inl same ↦
        let here : m ≡ k = ground arith in
        let place : m * v.capacity ≡ offset = ap (λ x. x * v.capacity) here in
        let room : j < size = rw here at inside in
        memory_copy_inside b v.content offset size (m * v.capacity + j) (omega (arith, place))
          (omega (arith, place, room))
    | inr apart ↦
        memory_copy_keeps b v.content offset size (m * v.capacity + j)
          (h m j below (rw apart at on) inside)
  ]

  -- Where a byte of the frame lies.
  located :
      (i : ℕ)
      → i < v.full_length
      → ((i / v.capacity < count_of v) × (i % v.capacity < size_of v (i / v.capacity)))
        × (0 + i ≡ i / v.capacity * v.capacity + i % v.capacity)
  located i below = ((grind (arith, f), grind (arith, f)), grind (arith, f))

  -- Once every bit is set the buffer is the frame.
  pub all-Agrees :
      (b : Buffer) (map : ℕ → Bool)
      → Agrees v b map
      → holds_below (count_of v) map ≡ true
      → window b 0 v.full_length ≡ window v.content 0 v.full_length
  all-Agrees b map h all = window_agrees b v.content 0 v.full_length (λ i below.
      let (at, placed) = located i below in
      let on = read_table (count_of v) map all (i / v.capacity) at.0 in
      ap b placed ∙ h (i / v.capacity) (i % v.capacity) at.0 on at.1 ∙ ap v.content (sym placed))

  pub all_measured : weight (size_of v) all_set (count_of v) ≡ v.full_length
  all_measured =
      let covers = count_of_covers v f in
      weight_sizes v.full_length v.capacity (count_of v) ∙ ground arith
