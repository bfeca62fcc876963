-- ===== src/Media/Tests.antt =====
-- An audio packet of three samples.
use doorfast.Prelude.{◌≡◌, refl, some, [], ◌∷◌, arith}
use doorfast.Fixtures.{station, unit}
use doorfast.Media.{audio_bytes, serialize_audio, parse_audio}
use doorfast.Media.RoundTrip.{sent_audio, parse_audio-serialize_audio}

parse_audio-serialize_audio_example :
    parse_audio (audio_bytes station unit 300 (0xD5 ∷ 0x55 ∷ 0xD4 ∷ []))
    ≡ some (sent_audio station unit 300 (0xD5 ∷ 0x55 ∷ 0xD4 ∷ []))
unfolding serialize_audio
parse_audio-serialize_audio_example =
    parse_audio-serialize_audio station unit 300 (0xD5 ∷ 0x55 ∷ 0xD4 ∷ []) 1500 (omega arith) refl
