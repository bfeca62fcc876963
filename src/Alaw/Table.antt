-- ===== src/Alaw/Table.antt =====
-- src/g711_alaw.c: the 256 codes, one by one.
use doorfast.Prelude.{ℕ, ◌<◌, ◌≡◌, refl, true, ◌==◌, ==_iff, holds_below, read_table}
use doorfast.Alaw.{alaw_encode_sample, alaw_decode_sample}

table : holds_below 256 (λ code. alaw_encode_sample (alaw_decode_sample code) == code) ≡ true
unfolding holds_below alaw_encode_sample alaw_decode_sample
table = refl

pub encode-decode_sample :
    (code : ℕ) → code < 256 → alaw_encode_sample (alaw_decode_sample code) ≡ code
encode-decode_sample code lt =
    (==_iff (alaw_encode_sample (alaw_decode_sample code)) code).0
      (read_table 256 (λ c. alaw_encode_sample (alaw_decode_sample c) == c) table code lt)
