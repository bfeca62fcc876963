-- ===== src/FrameQueue/Window.antt =====
-- src/media_frame_queue.c: the entries in use, in order, in the ring of four.
use doorfast.Prelude.{
  ℕ, zero, suc, ◌+◌, ◌%◌, ◌≤◌, ◌<◌, ◌≡◌, refl, ap, false, List, [], ◌∷◌, ◌++◌, arith, ◌==◌, length,
  take, Bytes,
}
use doorfast.FrameQueue.{FrameEntry, update}

-- What a frame is to its reader.
pub record View : Type 0 where
  pub jpeg : Bytes
  pub generation : ℕ
  pub timestamp_ms : ℕ

abbrev pub view : FrameEntry → View
view e = record {
  jpeg = take e.size e.bytes;
  generation = e.generation;
  timestamp_ms = e.timestamp_ms;
}

-- `n` entries from index `i` on, around the ring.
unfoldable pub window : (ℕ → FrameEntry) → ℕ → ℕ → List View
window entries i zero = []
window entries i (suc n) = view (entries i) ∷ window entries ((i + 1) % 4) n

pub length-window : (entries : ℕ → FrameEntry) (i n : ℕ) → length (window entries i n) ≡ n
unfolding window
length-window entries i zero = refl
length-window entries i (suc n) = ap suc (length-window entries ((i + 1) % 4) n)

-- An entry beyond the window can change.
pub window-update :
    (entries : ℕ → FrameEntry) (i n k w : ℕ) (e : FrameEntry)
    → i < 4
    → n ≤ k
    → k < 4
    → w ≡ (i + k) % 4
    → window (update entries w e) i n ≡ window entries i n
unfolding window
window-update entries i zero k w e l m h s = refl
window-update entries i (suc n) zero w e l m h s = absurd (omega arith)
window-update entries i (suc n) (suc k) w e l m h s =
    let rest =
      window-update entries ((i + 1) % 4) n k w e (omega arith) (omega arith) (omega arith)
        (omega (arith, s)) in
    let other : (i == w) ≡ false = ground arith in rw (other, rest) refl

pub window-snoc :
    (entries : ℕ → FrameEntry) (i n : ℕ)
    → i < 4
    → window entries i (suc n) ≡ window entries i n ++ (view (entries ((i + n) % 4)) ∷ [])
unfolding window
window-snoc entries i zero l = let same : (i + 0) % 4 ≡ i = omega arith in rw same refl
window-snoc entries i (suc n) l =
    let rest = window-snoc entries ((i + 1) % 4) n (omega arith) in
    let same : ((i + 1) % 4 + n) % 4 ≡ (i + suc n) % 4 = omega arith in
    ap (λ l. view (entries i) ∷ l) (rw same at rest)
