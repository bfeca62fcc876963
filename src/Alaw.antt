-- ===== src/Alaw.antt =====
-- src/g711_alaw.c: the A-law code of a sample. An `int16_t` is an integer; the negative of one less is its
-- complement, so that `negsuc n` is the sample whose complement is `n`.
mod Table
pub mod RoundTrip
mod Tests
use Prim.Native.Nat.{bit_xor}
use doorfast.Prelude.{
  ℕ, zero, suc, ◌+◌, ◌-◌, ◌*◌, ◌/◌, ◌%◌, ◌^◌, Bool, Option, none, some, List, [], ◌∷◌, map, ltb,
  leb, ◌==◌, if◌then◌else◌, length, Bytes, ℤ, pos, negsuc, negative,
}

-- The size of a sample, by its segment and its step in it
abbrev pub magnitude : ℕ → ℕ → ℕ
magnitude zero step = step * 16 + 8
magnitude (suc zero) step = step * 16 + 0x108
magnitude (suc (suc n)) step = (step * 16 + 0x108) * 2 ^ suc n

-- `df_g711_alaw_decode_sample`
unfoldable pub alaw_decode_sample : ℕ → ℤ
alaw_decode_sample code =
    let value = bit_xor code 0x55 in
    let size = magnitude (value / 16 % 8) (value % 16) in
    if leb 128 value then pos size else negative size

-- `segment_end`
abbrev segment_ends : List ℕ
segment_ends = 0x1F ∷ 0x3F ∷ 0x7F ∷ 0xFF ∷ 0x1FF ∷ 0x3FF ∷ 0x7FF ∷ 0xFFF ∷ []

-- The loop over the segments: how many ends the sample is beyond.
abbrev segment_of : List ℕ → ℕ → ℕ
segment_of [] pcm = 0
segment_of (e ∷ es) pcm = let rest = segment_of es pcm in if ltb e pcm then suc rest else 0

abbrev encode_magnitude : ℕ → ℕ → ℕ
encode_magnitude pcm mask =
    let segment = segment_of segment_ends pcm in
    let step = if ltb segment 2 then pcm / 2 % 16 else pcm / 2 ^ segment % 16 in
    if leb 8 segment then bit_xor 0x7F mask else bit_xor (segment * 16 + step) mask

-- `df_g711_alaw_encode_sample`
unfoldable pub alaw_encode_sample : ℤ → ℕ
alaw_encode_sample (pos n) = encode_magnitude (n / 8) 0xD5
alaw_encode_sample (negsuc n) = encode_magnitude (n / 8) 0x55

-- `df_g711_alaw_encode` and `df_g711_alaw_decode`: what is written, `none` where the output is too short
unfoldable pub alaw_encode : List ℤ → ℕ → Option Bytes
alaw_encode input capacity =
    if ltb capacity (length input) then none else some (map alaw_encode_sample input)

unfoldable pub alaw_decode : Bytes → ℕ → Option (List ℤ)
alaw_decode input capacity =
    if ltb capacity (length input) then none else some (map alaw_decode_sample input)
