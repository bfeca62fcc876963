-- ===== src/Alaw/Tests.antt =====
-- Silence and the two extreme codes.
use doorfast.Prelude.{◌≡◌, refl, some, [], ◌∷◌, arith, pos, negsuc}
use doorfast.Alaw.{alaw_encode, alaw_decode, alaw_decode_sample}
use doorfast.Alaw.RoundTrip.{alaw_encode-alaw_decode}

alaw_encode-alaw_decode_example :
    alaw_encode (pos 8 ∷ pos 32256 ∷ negsuc 32255 ∷ []) 4 ≡ some (0xD5 ∷ 0xAA ∷ 0x2A ∷ [])
unfolding alaw_decode alaw_decode_sample
alaw_encode-alaw_decode_example =
    alaw_encode-alaw_decode (0xD5 ∷ 0xAA ∷ 0x2A ∷ []) 4
      (omega arith, (omega arith, (omega arith, tt))) refl
