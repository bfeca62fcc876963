-- ===== src/Video/Jpeg.antt =====
-- src/gvs_video_reassembly.c: the size of a picture. The data from the offset on is a list, and the loop over
-- the segments has fuel, as many rounds as there are bytes.
use doorfast.Prelude.{
  ℕ, zero, suc, ◌+◌, ◌*◌, ◌<◌, ◌≤◌, ◌≡◌, refl, Bool, true, ◌&&◌, ◌||◌, not, Option, none, some, [],
  ◌∷◌, arith, ltb, leb, ◌==◌, if◌then◌else◌, Bool-cases, inl, inr, length, length-drop, get_or,
  drop, Bytes,
}

-- The loop over the fill bytes
abbrev pub skip_fill : Bytes → Bytes
skip_fill [] = []
skip_fill (b ∷ bs) = let rest = skip_fill bs in if b == 0xFF then rest else b ∷ bs

abbrev pub has_no_segment : ℕ → Bool
has_no_segment marker = marker == 0x01 || (leb 0xD0 marker && leb marker 0xD7)

abbrev pub starts_frame : ℕ → Bool
starts_frame marker =
    (leb 0xC0 marker && leb marker 0xC3)
    || ((leb 0xC5 marker && leb marker 0xC7)
        || ((leb 0xC9 marker && leb marker 0xCB) || (leb 0xCD marker && leb marker 0xCF)))

abbrev pub be16 : Bytes → ℕ → ℕ
be16 s i = get_or s i 0 * 256 + get_or s (i + 1) 0

-- Width and height of a segment that starts a frame
abbrev pub segment_size : Bytes → Option (ℕ × ℕ)
segment_size segment =
    if ltb (be16 segment 0) 8 || (be16 segment 5 == 0 || be16 segment 3 == 0)
    then none
    else some (be16 segment 5, be16 segment 3)

abbrev pub is_bad_segment : Bytes → Bool
is_bad_segment segment =
    ltb (length segment) 2 || (ltb (be16 segment 0) 2 || ltb (length segment) (be16 segment 0))

-- The data of the next round
abbrev pub following : ℕ → Bytes → Bytes
following marker segment = if has_no_segment marker then segment else drop (be16 segment 0) segment

-- The loop over the segments, from the data at `offset`
unfoldable pub scan : ℕ → Bytes → Option (ℕ × ℕ)
scan zero s = none
scan (suc fuel) s =
    let rest = skip_fill (drop 1 s) in
    let marker = get_or rest 0 0 in
    let segment = drop 1 rest in
    let next = scan fuel (following marker segment) in
    if ltb (length s) 2
    then none
    else if not (get_or s 0 0 == 0xFF) || (length rest == 0 || (marker == 0xD9 || marker == 0xDA))
    then none
    else if has_no_segment marker
    then next
    else if is_bad_segment segment
    then none
    else if starts_frame marker
    then segment_size segment
    else next

-- `df_gvs_jpeg_dimensions`
unfoldable pub jpeg_dimensions : Bytes → Option (ℕ × ℕ)
unfolding scan
jpeg_dimensions s =
    if ltb (length s) 4 || (not (get_or s 0 0 == 0xFF) || not (get_or s 1 0 == 0xD8))
    then none
    else scan (length s) (drop 2 s)

length-skip_fill : (s : Bytes) → length (skip_fill s) ≤ length s
length-skip_fill [] = omega arith
length-skip_fill (b ∷ bs) = let rest = length-skip_fill bs in ground (arith, rest)

-- A round leaves less data to the next one.
following_shorter :
    (s : Bytes) (marker : ℕ)
    → 2 ≤ length s
    → length (following marker (drop 1 (skip_fill (drop 1 s)))) < length s
following_shorter s marker long =
    let tail = drop 1 s in
    let fill = length-skip_fill tail in
    let segment = drop 1 (skip_fill tail) in
    let one = length-drop 1 s in
    let two = length-drop 1 (skip_fill tail) in
    let skipped = length-drop (be16 segment 0) segment in
    elim (Bool-cases (has_no_segment marker)) [
      | inl on ↦ rw on (omega (arith, fill, one, two, long))
      | inr off ↦ rw off (omega (arith, fill, one, two, skipped, long))
    ]

-- More fuel than bytes changes nothing: the loop ends before its fuel does.
pub scan_enough :
    (fuel more : ℕ) (s : Bytes) → length s ≤ fuel → fuel ≤ more → scan fuel s ≡ scan more s
unfolding scan
scan_enough zero zero s le m = refl
scan_enough zero (suc more) s le m =
    let short : ltb (length s) 2 ≡ true = ground arith in rw short refl
scan_enough (suc fuel) zero s le m = absurd (omega (arith, m))
scan_enough (suc fuel) (suc more) s le m = elim (Bool-cases (ltb (length s) 2)) [
  | inl short ↦ rw short refl
  | inr long ↦
      let rest = skip_fill (drop 1 s) in
      let shorter = following_shorter s (get_or rest 0 0) (ground arith) in
      let same =
        scan_enough fuel more (following (get_or rest 0 0) (drop 1 rest))
          (omega (arith, shorter, le)) (omega (arith, m)) in
      rw same refl
]
