-- ===== src/Video/Reassemble.antt =====
-- src/gvs_video_reassembly.c: a frame is put together of its chunks in whatever order they come.
use doorfast.Prelude.{
  ℕ, zero, suc, ◌*◌, ◌<◌, ◌≡◌, refl, ap, ◌∙◌, sym, ◌⊎◌, inl, inr, Bool, false, Option, none, some,
  List, [], ◌∷◌, arith, if◌then◌else◌, ==_iff, holds_below, All, Bytes,
}
use doorfast.Video.{
  VideoResult, Buffer, Reassembly, VideoAnswer, reassembly_init, window, start_frame, set_bit,
  begin_frame, push_chunk, push_checked, reassembly_push,
}
use doorfast.Video.Count.{weight, one}
use doorfast.Video.Assembly.{
  SentFrame, count_of, IsFrame, size_of, chunk, chunk-geometry, Assembling,
}
use doorfast.Video.Outcome.{expected, Continues, put_chunk-Continues}

weight_none : (w : ℕ → ℕ) (n : ℕ) → weight w (λ k. false) n ≡ 0
weight_none w zero = refl
weight_none w (suc n) = omega (arith, weight_none w n)

-- What a push returns
abbrev pub shown : VideoAnswer → VideoResult × Option Bytes
shown answer = (answer.0, answer.2)

-- Before its first chunk, or among its chunks.
abbrev Ready : SentFrame → Reassembly → Type 0
Ready v r = (r ≡ reassembly_init) ⊎ ((b : Buffer) × Assembling v r b)

-- The reassembly after the chunks of a list, the latest first.
abbrev pub pushed : SentFrame → Buffer → List ℕ → Reassembly
pushed v memory [] = reassembly_init
pushed v memory (k ∷ ks) = (reassembly_push (pushed v memory ks) (some memory) (chunk v k)).1

-- The chunks that have come.
abbrev pub has_come : List ℕ → ℕ → Bool
has_come [] = λ i. false
has_come (k ∷ ks) = set_bit (has_come ks) k

module _ (v : SentFrame) (f : IsFrame v) (memory : Buffer) where
  start_frame-Assembling : (k : ℕ) → Assembling v (start_frame (chunk v k) memory) memory
  start_frame-Assembling k = record {
    holds = refl;
    same_frame = refl;
    same_count = refl;
    same_capacity = refl;
    same_length = refl;
    counts = sym (weight_none one (count_of v));
    measures = sym (weight_none (size_of v) (count_of v));
    agrees = λ k j below on inside. absurd (ground (arith, on));
  }

  begin_frame-Continues :
      (k : ℕ)
      → k < count_of v
      → Continues v
          (λ i. false)
          k
          (begin_frame reassembly_init
            (some memory)
            (chunk v k)
            (window v.content (k * v.capacity) (size_of v k))
            (k * v.capacity)
            (size_of v k))
  unfolding begin_frame
  begin_frame-Continues k lt =
      put_chunk-Continues v f k lt (start_frame (chunk v k) memory) memory
        (start_frame-Assembling k)

  push_chunk-Continues :
      (r : Reassembly) (b : Buffer) (k : ℕ)
      → k < count_of v
      → Assembling v r b
      → Continues v r.received_map k (
          push_chunk r
            (some b)
            (some memory)
            (chunk v k)
            (window v.content (k * v.capacity) (size_of v k))
            (k * v.capacity)
            (size_of v k))
  unfolding push_chunk
  push_chunk-Continues r b k lt a =
      let same_no = (==_iff v.frame_no r.frame_no).1 (sym a.same_frame) in
      let same_length = (==_iff v.full_length r.full_length).1 (sym a.same_length) in
      let same_count = (==_iff (count_of v) r.chunk_count).1 (sym a.same_count) in
      let same_capacity = (==_iff v.capacity r.chunk_capacity).1 (sym a.same_capacity) in
      rw (same_no, same_length, same_count, same_capacity) (put_chunk-Continues v f k lt r b a)

  buffered-Continues :
      (r : Reassembly) (b : Buffer) (o : Option Buffer) (k : ℕ)
      → o ≡ some b
      → k < count_of v
      → Assembling v r b
      → Continues v r.received_map k (
          push_chunk r o
            (some memory)
            (chunk v k)
            (window v.content (k * v.capacity) (size_of v k))
            (k * v.capacity)
            (size_of v k))
  buffered-Continues r b o k e lt a = rw e (push_chunk-Continues r b k lt a)

  push-Continues :
      (r : Reassembly) (k : ℕ)
      → k < count_of v
      → Ready v r
      → Continues v r.received_map k (reassembly_push r (some memory) (chunk v k))
  unfolding reassembly_push push_checked
  push-Continues r k lt (inl fresh) =
      rw (fresh, chunk-geometry v k f lt) (begin_frame-Continues k lt)
  push-Continues r k lt (inr (b, a)) =
      rw (chunk-geometry v k f lt) (buffered-Continues r b r.buffer k a.holds lt a)

  pushed-Ready : (ks : List ℕ) → All (λ k. k < count_of v) ks → Ready v (pushed v memory ks)
  pushed-Ready [] below = inl refl
  pushed-Ready (k ∷ ks) (lt, below) =
      let (_, c, a, _) = push-Continues (pushed v memory ks) k lt (pushed-Ready ks below) in
      inr (c, a)

  pushed-has_come :
      (ks : List ℕ) → All (λ k. k < count_of v) ks → (pushed v memory ks).received_map ≡ has_come ks
  pushed-has_come [] below = refl
  pushed-has_come (k ∷ ks) (lt, below) =
      let (_, c, a, e) = push-Continues (pushed v memory ks) k lt (pushed-Ready ks below) in
      (λ i x. e x i) ∙ ap (λ map. set_bit map k) (pushed-has_come ks below)

  -- A frame of the allowed size whose chunks are pushed in any order, with any repetitions, to a fresh
  -- reassembly, where allocation succeeds: a push of one more chunk is a duplicate if that chunk has
  -- come before; it completes the frame and returns exactly its bytes if it is the last one missing; and
  -- it is incomplete otherwise. No push is an error.
  pub reassembly_push-chunk :
      (ks : List ℕ) (k : ℕ)
      → All (λ i. i < count_of v) ks
      → k < count_of v
      → shown (reassembly_push (pushed v memory ks) (some memory) (chunk v k)) ≡ (
          if has_come ks k
          then (VideoResult.duplicate, none)
          else if holds_below (count_of v) (has_come (k ∷ ks))
          then (VideoResult.complete, some (window v.content 0 v.full_length))
          else (VideoResult.incomplete, none))
  reassembly_push-chunk ks k below lt =
      (push-Continues (pushed v memory ks) k lt (pushed-Ready ks below)).0
      ∙ ap (λ map. expected v map k) (pushed-has_come ks below)
