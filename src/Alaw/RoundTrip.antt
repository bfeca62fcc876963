-- ===== src/Alaw/RoundTrip.antt =====
-- src/g711_alaw.c: samples that are decoded and encoded again.
use doorfast.Prelude.{
  ℕ, suc, ◌<◌, ◌≡◌, refl, ap, ◌∙◌, some, List, [], ◌∷◌, map, false, arith, ltb, length, All, Bytes,
  ℤ,
}
use doorfast.Alaw.{alaw_encode_sample, alaw_decode_sample, alaw_encode, alaw_decode}
use doorfast.Alaw.Table.{encode-decode_sample}

map-encode-decode :
    (codes : Bytes)
    → All (λ c. c < 256) codes
    → map alaw_encode_sample (map alaw_decode_sample codes) ≡ codes
map-encode-decode [] below = refl
map-encode-decode (c ∷ codes) (lt, below) =
    ap (λ x. x ∷ map alaw_encode_sample (map alaw_decode_sample codes)) (encode-decode_sample c lt)
    ∙ ap (λ xs. c ∷ xs) (map-encode-decode codes below)

length-decoded : (codes : Bytes) → length (map alaw_decode_sample codes) ≡ length codes
length-decoded [] = refl
length-decoded (c ∷ codes) = ap (λ n. suc n) (length-decoded codes)

-- Bytes that are decoded into a buffer that holds them and encoded again, into one as large, are the same
-- bytes: every one of the 256 codes stands for a sample that is encoded as that code.
pub alaw_encode-alaw_decode :
    (codes : Bytes) (capacity : ℕ) {samples : List ℤ}
    → All (λ c. c < 256) codes
    → alaw_decode codes capacity ≡ some samples
    → alaw_encode samples capacity ≡ some codes
unfolding alaw_decode alaw_encode
alaw_encode-alaw_decode codes capacity {samples} below h =
    let same : samples ≡ map alaw_decode_sample codes = ground (arith, h) in
    let fits : ltb capacity (length codes) ≡ false = ground (arith, h) in
    rw (same, length-decoded codes, fits) (ap some (map-encode-decode codes below))
