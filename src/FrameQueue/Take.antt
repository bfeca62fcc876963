-- ===== src/FrameQueue/Take.antt =====
-- src/media_frame_queue.c: a pop, against the list of the frames that wait.
use doorfast.Prelude.{
  ℕ, suc, ◌+◌, ◌-◌, ◌%◌, ◌≡◌, refl, ap, sym, ◌∙◌, ◌⊎◌, inl, inr, Bool, true, false, Option, none,
  some, [], ◌∷◌, arith, ◌==◌, if◌then◌else◌, Status, ok, err_invalid,
}
use doorfast.FrameQueue.{
  FrameQueue, MediaFrame, cleared, without_first, frame_at, shown, frame_queue_pop,
}
use doorfast.FrameQueue.Window.{view, window, window-update}
use doorfast.FrameQueue.Refine.{IsRing, waiting, new_view}

-- What a pop takes from a queue with frames.
abbrev Popped : FrameQueue → FrameQueue → Type 0
Popped q r =
    IsRing r
    × (shown r (frame_at q) ≡ shown q (frame_at q))
    × (waiting q
        ≡ new_view (shown r (frame_at q)) (q.entries q.read).generation
            (q.entries q.read).timestamp_ms
          ∷ waiting r)

without_first-Popped :
    (q : FrameQueue) (n : ℕ) → IsRing q → q.count ≡ suc n → Popped q (without_first q)
unfolding window
without_first-Popped q n v c =
    let size = v.size in
    let less : q.count - 1 ≡ n = omega (arith, c) in
    let hit : (q.read == q.read) ≡ true = ground arith in
    let rest =
      window-update q.entries ((q.read + 1) % 4) n 3 q.read (cleared (q.entries q.read))
        (omega arith) (omega (arith, c, v.used)) (omega arith) (omega (arith, v.reads)) in
    let ring : IsRing (without_first q) = record {
      size = size;
      reads = rw size (omega arith);
      used = omega (arith, v.used);
      writes = rw size (omega (arith, v.writes, c));
    } in
    let r = without_first q in
    let same : shown r (frame_at q) ≡ shown q (frame_at q) = rw hit refl in
    let tail : waiting r ≡ window q.entries ((q.read + 1) % 4) n =
      ap (λ m. window r.entries ((q.read + 1) % m) (q.count - 1)) size
      ∙ ap (λ m. window r.entries ((q.read + 1) % 4) m) less
      ∙ rest in
    let first = q.entries q.read in
    let frames : waiting q ≡ view first ∷ window q.entries ((q.read + 1) % 4) n =
      ap (λ m. window q.entries q.read m) c in
    let shown_first =
      ap (λ b. new_view b first.generation first.timestamp_ms ∷ waiting r) (sym same) in
    (ring, same, frames ∙ ap (λ l. view first ∷ l) (sym tail) ∙ shown_first)

abbrev PopResult : FrameQueue → Status × FrameQueue × Option MediaFrame → Type 0
PopResult q o =
    IsRing o.1
    × ((o.0 ≡ err_invalid) × (waiting q ≡ []) × (o.2 ≡ none) × (o.1 ≡ q)
        ⊎ (f : MediaFrame) × (o.0 ≡ ok)
          × (o.2 ≡ some f)
          × (shown o.1 f ≡ shown q f)
          × (waiting q ≡ new_view (shown o.1 f) f.generation f.timestamp_ms ∷ waiting o.1))

pop_cases :
    (q : FrameQueue) (none_left : Bool)
    → IsRing q
    → (none_left ≡ true → waiting q ≡ [])
    → (none_left ≡ false → Popped q (without_first q))
    → PopResult q
        (if none_left then (err_invalid, q, none) else (ok, without_first q, some (frame_at q)))
pop_cases q true v a b = (v, inl (refl, a refl, refl, refl))
pop_cases q false v a b =
    let (ring, same, frames) = b refl in (ring, inr (frame_at q, refl, refl, same, frames))

waiting-none : (q : FrameQueue) → q.count ≡ 0 → waiting q ≡ []
unfolding window
waiting-none q e = ap (λ n. window q.entries q.read n) e

-- The frame that a pop gives is the oldest: its pointer shows the bytes as they were pushed, in the
-- queue before and after, and the others wait on in order. An empty queue gives none.
pub frame_queue_pop-waiting :
    (q : FrameQueue)
    → IsRing q
    → let (status, r, got) = frame_queue_pop q in
      IsRing r
      × ((status ≡ err_invalid) × (waiting q ≡ []) × (got ≡ none) × (r ≡ q)
          ⊎ (f : MediaFrame) × (status ≡ ok)
            × (got ≡ some f)
            × (shown r f ≡ shown q f)
            × (waiting q ≡ new_view (shown r f) f.generation f.timestamp_ms ∷ waiting r))
unfolding frame_queue_pop
frame_queue_pop-waiting q v =
    let size = v.size in
    pop_cases q _ v (λ none_left. waiting-none q (ground (arith, size)))
      (λ some_left. without_first-Popped q (q.count - 1) v (ground arith))
