-- ===== src/FrameQueue/Refine.antt =====
-- src/media_frame_queue.c: the ring against the list of the frames that wait, and a push.
use doorfast.Prelude.{
  ℕ, suc, ◌+◌, ◌-◌, ◌%◌, ◌≤◌, ◌<◌, ◌≡◌, ◌≢◌, refl, ap, sym, ◌∙◌, ◌⊎◌, inl, inr, Bool, true, false,
  List, [], ◌∷◌, ◌++◌, arith, ◌==◌, if◌then◌else◌, Bool-cases, length, take, drop, Status, ok,
  err_invalid, Bytes,
}
use doorfast.FrameQueue.{
  FrameEntry, FrameQueue, update, filled, drop_oldest, write_frame, frame_queue_push,
}
use doorfast.FrameQueue.Window.{View, view, window, length-window, window-update, window-snoc}

-- The ring of four: the next entry to write is behind those in use.
pub record IsRing (q : FrameQueue) : Type 0 where
  pub size : q.capacity ≡ 4
  pub reads : q.read < 4
  pub used : q.count ≤ 4
  pub writes : q.write ≡ (q.read + q.count) % 4

-- The frames that wait, oldest first.
abbrev pub waiting : FrameQueue → List View
waiting q = window q.entries q.read q.count

-- A list of four drops its first to take another.
abbrev pub kept : List View → List View
kept w = if length w == 4 then drop 1 w else w

take_whole : (xs ys : Bytes) → take (length xs) (xs ++ ys) ≡ xs
take_whole [] ys = refl
take_whole (x ∷ xs) ys = ap (λ l. x ∷ l) (take_whole xs ys)

record Dropped (q r : FrameQueue) : Type 0 where
  ring : IsRing r
  room : r.count < 4
  kept_frames : waiting r ≡ kept (waiting q)

kept-short : (w : List View) → length w ≢ 4 → kept w ≡ w
kept-short w h = let short : (length w == 4) ≡ false = ground arith in rw short refl

window-full :
    (entries : ℕ → FrameEntry) (i : ℕ) → window entries ((i + 1) % 4) 3 ≡ kept (window entries i 4)
unfolding window
window-full entries i = refl

drop_oldest-Dropped : (q : FrameQueue) → IsRing q → Dropped q (drop_oldest q)
drop_oldest-Dropped q v = elim (Bool-cases (q.count == q.capacity)) [
  | inr some_room ↦
      let less : q.count < 4 = ground arith in
      let n = length-window q.entries q.read q.count in
      let same = kept-short (waiting q) (omega (arith, n, less)) in
      rw some_room (record { ring = v; room = less; kept_frames = sym same })
  | inl full ↦
      let size = v.size in
      let four : q.count ≡ 4 = ground arith in
      let frames : window q.entries ((q.read + 1) % q.capacity) (q.count - 1) ≡ kept (waiting q) =
        rw (size, four) (window-full q.entries q.read) in
      rw full (record {
        ring = record {
          size = size;
          reads = rw size (omega arith);
          used = omega (arith, four);
          writes = rw size (omega (arith, v.writes, four));
        };
        room = omega (arith, four);
        kept_frames = frames;
      })
]

-- The frame that a push writes.
abbrev pub new_view : Bytes → ℕ → ℕ → View
new_view jpeg generation timestamp_ms = record {
  jpeg = jpeg;
  generation = generation;
  timestamp_ms = timestamp_ms;
}

view-filled :
    (e : FrameEntry) (jpeg : Bytes) (generation timestamp_ms : ℕ)
    → view (filled e jpeg generation timestamp_ms) ≡ new_view jpeg generation timestamp_ms
view-filled e jpeg generation timestamp_ms =
    ap (λ b. new_view b generation timestamp_ms) (take_whole jpeg (drop (length jpeg) e.bytes))

write_frame-IsRing :
    (q : FrameQueue) (jpeg : Bytes) (generation timestamp_ms : ℕ)
    → IsRing q
    → q.count < 4
    → IsRing (write_frame q jpeg generation timestamp_ms)
write_frame-IsRing q jpeg generation timestamp_ms v room =
    let size = v.size in
    record {
      size = size;
      reads = v.reads;
      used = omega (arith, room);
      writes = rw size (omega (arith, v.writes, v.reads));
    }

write_frame-waiting :
    (q : FrameQueue) (jpeg : Bytes) (generation timestamp_ms : ℕ)
    → IsRing q
    → q.count < 4
    → waiting (write_frame q jpeg generation timestamp_ms)
      ≡ waiting q ++ (new_view jpeg generation timestamp_ms ∷ [])
write_frame-waiting q jpeg generation timestamp_ms v room =
    let e = filled (q.entries q.write) jpeg generation timestamp_ms in
    let entries = update q.entries q.write e in
    let more : q.count + 1 ≡ suc q.count = omega arith in
    let snoc = window-snoc entries q.read q.count v.reads in
    let before =
      window-update q.entries q.read q.count q.count q.write e v.reads (omega arith) room
        v.writes in
    let hit : ((q.read + q.count) % 4 == q.write) ≡ true = ground (arith, v.writes) in
    let last = view-filled (q.entries q.write) jpeg generation timestamp_ms in
    let stored : view (entries ((q.read + q.count) % 4)) ≡ new_view jpeg generation timestamp_ms =
      rw hit last in
    let joined =
      ap (λ l. l ++ (view (entries ((q.read + q.count) % 4)) ∷ [])) before
      ∙ ap (λ x. waiting q ++ (x ∷ [])) stored in
    rw more (snoc ∙ joined)

-- A push that is taken: a frame that fits, of the queue's own generation.
abbrev pub Acceptable : FrameQueue → Bytes → ℕ → Type 0
Acceptable q jpeg generation =
    (1 ≤ length jpeg)
    × (length jpeg ≤ q.maximum_frame_length)
    × (generation ≡ q.generation)
    × (1 ≤ generation)

abbrev Pushed : FrameQueue → Bytes → ℕ → ℕ → Status × FrameQueue → Type 0
Pushed q jpeg generation timestamp_ms o =
    IsRing o.1
    × ((o.0 ≡ ok)
          × Acceptable q jpeg generation
          × (waiting o.1 ≡ kept (waiting q) ++ (new_view jpeg generation timestamp_ms ∷ []))
        ⊎ (o.0 ≡ err_invalid) × (¬ Acceptable q jpeg generation) × (o.1 ≡ q))

-- A refusal, a wrong generation, or the frame.
push_cases :
    (q : FrameQueue) (jpeg : Bytes) (generation timestamp_ms : ℕ) (refuse other : Bool)
    (r : FrameQueue)
    → IsRing q
    → IsRing r
    → waiting r ≡ kept (waiting q) ++ (new_view jpeg generation timestamp_ms ∷ [])
    → (refuse ≡ true → ¬ Acceptable q jpeg generation)
    → (other ≡ true → ¬ Acceptable q jpeg generation)
    → (refuse ≡ false → other ≡ false → Acceptable q jpeg generation)
    → Pushed q jpeg generation timestamp_ms
        (if refuse then (err_invalid, q) else if other then (err_invalid, q) else (ok, r))
push_cases q jpeg generation timestamp_ms true other r v ring frames a b c =
    (v, inr (refl, a refl, refl))
push_cases q jpeg generation timestamp_ms false true r v ring frames a b c =
    (v, inr (refl, b refl, refl))
push_cases q jpeg generation timestamp_ms false false r v ring frames a b c =
    (ring, inl (refl, c refl refl, frames))

-- A push is accepted exactly for a frame that is not empty, fits and has the queue's generation. It
-- then waits behind the others, and if four wait already the oldest is dropped for it; a refusal
-- leaves the queue as it was.
pub frame_queue_push-waiting :
    (q : FrameQueue) (jpeg : Bytes) (generation timestamp_ms : ℕ)
    → IsRing q
    → let (status, r) = frame_queue_push q jpeg generation timestamp_ms in
      IsRing r
      × ((status ≡ ok)
            × Acceptable q jpeg generation
            × (waiting r ≡ kept (waiting q) ++ (new_view jpeg generation timestamp_ms ∷ []))
          ⊎ (status ≡ err_invalid) × (¬ Acceptable q jpeg generation) × (r ≡ q))
unfolding frame_queue_push
frame_queue_push-waiting q jpeg generation timestamp_ms v =
    let d = drop_oldest-Dropped q v in
    let ring = write_frame-IsRing (drop_oldest q) jpeg generation timestamp_ms d.ring d.room in
    let frames : waiting (write_frame (drop_oldest q) jpeg generation timestamp_ms)
        ≡ kept (waiting q) ++ (new_view jpeg generation timestamp_ms ∷ []) =
      write_frame-waiting (drop_oldest q) jpeg generation timestamp_ms d.ring d.room
      ∙ ap (λ l. l ++ (new_view jpeg generation timestamp_ms ∷ [])) d.kept_frames in
    let size = v.size in
    push_cases q jpeg generation timestamp_ms _ _ _ v ring frames
      (λ refused acceptable. ground (arith, size)) (λ other acceptable. ground arith)
      (λ taken same. ground arith)
