-- ===== src/FrameQueue/Pointer.antt =====
-- src/media_frame_queue.c: how long the pointer of a popped frame is good.
use doorfast.Prelude.{
  ℕ, ◌+◌, ◌-◌, ◌%◌, ◌≤◌, ◌<◌, ◌≡◌, ◌≢◌, refl, ap, ◌∙◌, Bool, true, false, Option, none, some, List,
  [], ◌∷◌, arith, ◌==◌, if◌then◌else◌, length, take, Status, ok, err_invalid, Bytes,
}
use doorfast.FrameQueue.{
  FrameEntry, FrameQueue, MediaFrame, drop_oldest, write_frame, without_first, frame_at, shown,
  frame_queue_push, frame_queue_pop,
}
use doorfast.FrameQueue.Refine.{IsRing, frame_queue_push-waiting}
use doorfast.FrameQueue.Take.{frame_queue_pop-waiting}

-- A frame that is pushed.
pub record Push : Type 0 where
  pub jpeg : Bytes
  pub generation : ℕ
  pub timestamp_ms : ℕ

unfoldable pub push_all : FrameQueue → List Push → FrameQueue
push_all q [] = q
push_all q (p ∷ ps) = push_all (frame_queue_push q p.jpeg p.generation p.timestamp_ms).1 ps

-- What a push does to an entry that is neither in use nor next.
record Spares (q r : FrameQueue) (slot : ℕ) : Type 0 where
  entry : r.entries slot ≡ q.entries slot
  reads : r.read ≡ q.read
  used : r.count ≤ q.count + 1

write_frame-Spares :
    (q : FrameQueue) (jpeg : Bytes) (generation timestamp_ms slot : ℕ)
    → slot ≢ q.write
    → Spares q (write_frame q jpeg generation timestamp_ms) slot
write_frame-Spares q jpeg generation timestamp_ms slot h =
    let other : (slot == q.write) ≡ false = ground arith in
    record { entry = rw other refl; reads = refl; used = omega arith }

refused_or_written :
    (q : FrameQueue) (slot : ℕ) (refuse other : Bool) (r : FrameQueue)
    → Spares q r slot
    → let o : Status × FrameQueue =
        if refuse then (err_invalid, q) else if other then (err_invalid, q) else (ok, r) in
      Spares q o.1 slot
refused_or_written q slot true other r s = record { entry = refl; reads = refl; used = omega arith }
refused_or_written q slot false true r s = record { entry = refl; reads = refl; used = omega arith }
refused_or_written q slot false false r s = s

push-Spares :
    (q : FrameQueue) (jpeg : Bytes) (generation timestamp_ms k slot : ℕ)
    → IsRing q
    → q.count < k
    → k < 4
    → slot ≡ (q.read + k) % 4
    → Spares q (frame_queue_push q jpeg generation timestamp_ms).1 slot
unfolding frame_queue_push
push-Spares q jpeg generation timestamp_ms k slot v l m e =
    let size = v.size in
    let some_room : (q.count == q.capacity) ≡ false = ground (arith, size) in
    let other : slot ≢ q.write = omega (arith, v.writes, v.reads, e) in
    let written = write_frame-Spares q jpeg generation timestamp_ms slot other in
    refused_or_written q slot _ _ (write_frame (drop_oldest q) jpeg generation timestamp_ms)
      (rw some_room written)

push_all-entry :
    (q : FrameQueue) (ps : List Push) (k slot : ℕ)
    → IsRing q
    → q.count + length ps ≤ k
    → k < 4
    → slot ≡ (q.read + k) % 4
    → (push_all q ps).entries slot ≡ q.entries slot
unfolding push_all
push_all-entry q [] k slot v l m e = refl
push_all-entry q (p ∷ ps) k slot v l m e =
    let r = (frame_queue_push q p.jpeg p.generation p.timestamp_ms).1 in
    let s = push-Spares q p.jpeg p.generation p.timestamp_ms k slot v (omega (arith, l)) m e in
    let ring = (frame_queue_push-waiting q p.jpeg p.generation p.timestamp_ms v).0 in
    let later =
      push_all-entry r ps k slot ring (omega (arith, l, s.used)) m (omega (arith, e, s.reads)) in
    later ∙ s.entry

pop_cases :
    (q : FrameQueue) (none_left : Bool) {f : MediaFrame}
    → let o : Status × FrameQueue × Option MediaFrame =
        if none_left then (err_invalid, q, none) else (ok, without_first q, some (frame_at q)) in
      o.2 ≡ some f → (o.1 ≡ without_first q) × (f ≡ frame_at q) × (none_left ≡ false)
pop_cases q true h = absurd (ground arith)
pop_cases q false h = (refl, ground arith, refl)

pop_inv :
    (q : FrameQueue) {f : MediaFrame}
    → (frame_queue_pop q).2 ≡ some f
    → ((frame_queue_pop q).1 ≡ without_first q) × (f ≡ frame_at q) × (1 ≤ q.count)
unfolding frame_queue_pop
pop_inv q h = let (e, f, some_left) = pop_cases q _ h in (e, f, ground arith)

popped-shown :
    (q : FrameQueue) (r : FrameQueue) (f : MediaFrame)
    → r ≡ without_first q
    → f ≡ frame_at q
    → shown r f ≡ shown q f
popped-shown q r f e k =
    let hit : (q.read == q.read) ≡ true = ground arith in rw (e, k) (rw hit refl)

-- The frame that a pop gives, seen through its pointer, is still whole after as many pushes as the
-- queue had entries free before the pop, whatever is pushed.
pub push_all-shown :
    (q : FrameQueue) (ps : List Push) {f : MediaFrame}
    → IsRing q
    → (frame_queue_pop q).2 ≡ some f
    → q.count + length ps ≤ 4
    → shown (push_all (frame_queue_pop q).1 ps) f ≡ shown q f
push_all-shown q ps {f} v h l =
    let r = (frame_queue_pop q).1 in
    let (e, k, some_left) = pop_inv q h in
    let ring = (frame_queue_pop-waiting q v).0 in
    let size = v.size in
    let reads : r.read ≡ (q.read + 1) % 4 =
      ap (λ (p : FrameQueue). p.read) e ∙ ap (λ n. (q.read + 1) % n) size in
    let count : r.count ≡ q.count - 1 = ap (λ (p : FrameQueue). p.count) e in
    let slot : f.data_index ≡ q.read = ap (λ (g : MediaFrame). g.data_index) k in
    let same =
      push_all-entry r ps 3 f.data_index ring (omega (arith, count, l, some_left)) (omega arith)
        (omega (arith, slot, reads, v.reads)) in
    ap (λ (x : FrameEntry). take f.size x.bytes) same ∙ popped-shown q r f e k
