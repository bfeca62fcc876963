-- ===== src/Video/Outcome.antt =====
-- src/gvs_video_reassembly.c: what a push of a frame's chunk returns, whatever came before it.
use doorfast.Prelude.{
  ℕ, ◌+◌, ◌-◌, ◌*◌, ◌<◌, ◌≡◌, refl, ap, ◌∙◌, sym, inl, inr, Bool, true, false, Option, none, some,
  arith, ◌==◌, if◌then◌else◌, ==_iff, Bool-cases, holds_below, Bytes,
}
use doorfast.Video.{
  VideoResult, incomplete, complete, duplicate, Buffer, Reassembly, memory_copy, set_bit, window,
  VideoAnswer, put_chunk,
}
use doorfast.Video.Count.{weight, one, weight-set_bit, weight_all, weight_one, weight_one_all}
use doorfast.Video.Window.{memory_eq_holds}
use doorfast.Video.Assembly.{
  SentFrame, count_of, IsFrame, size_of, chunk, Assembling, copy-Agrees, all-Agrees, all_measured,
}

-- The frame as the receiver is to see it.
abbrev pub whole_frame : SentFrame → Bytes
whole_frame v = window v.content 0 v.full_length

-- What a push of chunk `k` is to return when the bitmap is `map`.
abbrev pub expected : SentFrame → (ℕ → Bool) → ℕ → VideoResult × Option Bytes
expected v map k =
    if map k
    then (duplicate, none)
    else if holds_below (count_of v) (set_bit map k)
    then (complete, some (whole_frame v))
    else (incomplete, none)

-- An answer is as expected, and the reassembly goes on with the chunk's bit set.
abbrev pub Continues : SentFrame → (ℕ → Bool) → ℕ → VideoAnswer → Type 0
Continues v map k answer =
    ((answer.0, answer.2) ≡ expected v map k)
    × (c : Buffer) × Assembling v answer.1 c
    × ((i : ℕ) → answer.1.received_map i ≡ set_bit map k i)

module _ (v : SentFrame) (f : IsFrame v) (k : ℕ) (lt : k < count_of v) where
  abbrev payload : Bytes
  payload = window v.content (k * v.capacity) (size_of v k)

  set_again : (map : ℕ → Bool) → map k ≡ true → (i : ℕ) → map i ≡ set_bit map k i
  set_again map on i = elim (Bool-cases (i == k)) [
    | inl same ↦ let here : i ≡ k = ground arith in rw same (ap map here ∙ on)
    | inr apart ↦ rw apart refl
  ]

  abbrev copied : Buffer → Buffer
  copied b = memory_copy b (k * v.capacity) payload (size_of v k)

  module _ (r : Reassembly) (b : Buffer) (a : Assembling v r b)
      (off : r.received_map k ≡ false) where
    chunks_next : r.received_chunks + 1 ≡ weight one (set_bit r.received_map k) (count_of v)
    chunks_next =
        let counts = a.counts in
        omega (arith, counts, weight-set_bit one r.received_map (count_of v) k lt off)

    bytes_next :
        r.received + size_of v k ≡ weight (size_of v) (set_bit r.received_map k) (count_of v)
    bytes_next =
        let measures = a.measures in
        omega (arith, measures, weight-set_bit (size_of v) r.received_map (count_of v) k lt off)

    -- The reassembly with the chunk in place
    abbrev next : Bool → Reassembly
    next done = record r {
      buffer = some (copied b);
      received_map = set_bit r.received_map k;
      received = r.received + size_of v k;
      received_chunks = r.received_chunks + 1;
      is_complete = done;
    }

    next-Assembling : (done : Bool) → Assembling v (next done) (copied b)
    next-Assembling done = record {
      holds = refl;
      same_frame = a.same_frame;
      same_count = a.same_count;
      same_capacity = a.same_capacity;
      same_length = a.same_length;
      counts = chunks_next;
      measures = bytes_next;
      agrees = copy-Agrees v f k lt b r.received_map a.agrees;
    }

    chunks_full :
        holds_below (count_of v) (set_bit r.received_map k) ≡ true
        → (r.received_chunks + 1 == r.chunk_count) ≡ true
    chunks_full full = (==_iff (r.received_chunks + 1) r.chunk_count).1 (
        chunks_next
        ∙ weight_all one (set_bit r.received_map k) (count_of v) full
        ∙ weight_one_all (count_of v)
        ∙ sym a.same_count)

    bytes_full :
        holds_below (count_of v) (set_bit r.received_map k) ≡ true
        → r.received + size_of v k ≡ r.full_length
    bytes_full full =
        bytes_next
        ∙ weight_all (size_of v) (set_bit r.received_map k) (count_of v) full
        ∙ all_measured v f k lt
        ∙ sym a.same_length

    chunks_partial :
        holds_below (count_of v) (set_bit r.received_map k) ≡ false
        → (r.received_chunks + 1 == r.chunk_count) ≡ false
    chunks_partial partial =
        let few = weight_one (set_bit r.received_map k) (count_of v) partial in
        let counts = chunks_next in let all = a.same_count in ground (arith, few, counts, all)

  pub put_chunk-Continues :
      (r : Reassembly) (b : Buffer)
      → Assembling v r b
      → Continues v r.received_map k
          (put_chunk r b (chunk v k) payload (k * v.capacity) (size_of v k))
  unfolding put_chunk
  put_chunk-Continues r b a =
      let here : k + 1 - 1 ≡ k = omega arith in
      elim (Bool-cases (r.received_map k)) [
        | inl on ↦
            let equal =
              memory_eq_holds b v.content (k * v.capacity) (size_of v k)
                (λ j inside. a.agrees k j lt on inside) in
            rw (here, on, equal) (refl, b, a, set_again r.received_map on)
        | inr off ↦ elim (Bool-cases (holds_below (count_of v) (set_bit r.received_map k))) [
          | inl full ↦
              let counted = chunks_full r b a off full in
              let measured = bytes_full r b a off full in
              let shown =
                ap (λ n. window (copied b) 0 n) measured
                ∙ ap (λ n. window (copied b) 0 n) a.same_length
                ∙ all-Agrees v f k lt (copied b) (set_bit r.received_map k)
                    (copy-Agrees v f k lt b r.received_map a.agrees) full in
              let whole = (==_iff (r.received + size_of v k) r.full_length).1 measured in
              rw (here, off, full, counted, whole, shown)
                (refl, copied b, next-Assembling r b a off true, λ i. refl)
          | inr partial ↦
              let counted = chunks_partial r b a off partial in
              rw (here, off, partial, counted)
                (refl, copied b, next-Assembling r b a off r.is_complete, λ i. refl)
        ]
      ]
