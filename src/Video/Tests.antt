-- ===== src/Video/Tests.antt =====
-- A frame of five bytes in three chunks, whose second one comes last.
use doorfast.Prelude.{ℕ, ◌+◌, ◌≡◌, some, [], ◌∷◌, arith, holds_below}
use doorfast.Fixtures.{station, unit}
use doorfast.Video.{VideoResult, reassembly_push}
use doorfast.Video.Assembly.{SentFrame, chunk}
use doorfast.Video.Reassemble.{pushed, shown, reassembly_push-chunk}

abbrev picture : SentFrame
picture = record {
  destination = unit;
  source = station;
  frame_no = 9;
  capacity = 2;
  full_length = 5;
  content = λ i. i + 10;
}

abbrev empty_memory : ℕ → ℕ
empty_memory i = 0

reassembly_push-chunk_example :
    shown (
      reassembly_push
        (pushed picture empty_memory (0 ∷ 2 ∷ []))
        (some empty_memory)
        (chunk picture 1))
    ≡ (VideoResult.complete, some (10 ∷ 11 ∷ 12 ∷ 13 ∷ 14 ∷ []))
unfolding holds_below
reassembly_push-chunk_example =
    reassembly_push-chunk picture (omega arith, omega arith, omega arith, omega arith, omega arith)
      empty_memory (0 ∷ 2 ∷ []) 1 (omega arith, (omega arith, tt)) (omega arith)
