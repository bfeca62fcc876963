-- ===== src/Media/RoundTrip.antt =====
-- src/gvs_media.c: an audio packet that is sent is read as it was meant.
use doorfast.Prelude.{
  ℕ, ◌+◌, ◌-◌, ◌<◌, ◌≤◌, ◌≡◌, ap, ◌∙◌, true, some, arith, length, Bytes, Address, bytes_eq,
}
use doorfast.Media.{
  AudioPacket, audio_bytes, serialize_audio, parse_audio, audio_of, has_magic, le16, le32,
}

-- What an audio packet of a payload says.
abbrev pub sent_audio : Address → Address → ℕ → Bytes → AudioPacket
sent_audio destination source sequence payload = record {
  destination = destination;
  source = source;
  sequence = sequence;
  field_c = length payload;
  field_d = 1;
  field_e = 1;
  field_f = 256;
  payload = payload;
  payload_length = length payload;
}

module _ (destination source : Address) (sequence : ℕ) (payload : Bytes) where
  abbrev out : Bytes
  out = audio_bytes destination source sequence payload

  length-audio_bytes :
      length (audio_bytes destination source sequence payload) ≡ 42 + length payload
  unfolding audio_bytes
  length-audio_bytes = omega arith

  has_magic-audio_bytes : has_magic out ≡ true
  unfolding has_magic audio_bytes bytes_eq
  has_magic-audio_bytes = ground arith

  audio_of-audio_bytes :
      sequence < 65536
      → length payload < 65536
      → audio_of out ≡ sent_audio destination source sequence payload
  unfolding audio_of audio_bytes
  audio_of-audio_bytes s l = ground arith

  audio_lengths :
      sequence < 65536
      → length payload < 65536
      → (le16 out 34 ≡ length payload) × (le32 out 26 ≡ length payload)
  unfolding audio_of
  audio_lengths s l =
      let says = audio_of-audio_bytes s l in
      (ap (λ (p : AudioPacket). p.payload_length) says, ap (λ (p : AudioPacket). p.field_c) says)

-- What is accepted as an audio packet.
parse_audio_accepts :
    (s : Bytes)
    → has_magic s ≡ true
    → 42 < length s
    → le16 s 34 ≡ length s - 42
    → le32 s 26 ≡ length s - 42
    → parse_audio s ≡ some (audio_of s)
unfolding parse_audio
parse_audio_accepts s m l k e = ground arith

-- The bytes that an audio packet is serialized to are parsed, and say the identities, the sequence number
-- and the payload that were given, its length in both places, and the constants of the three other
-- fields.
pub parse_audio-serialize_audio :
    (destination source : Address) (sequence : ℕ) (payload : Bytes) (capacity : ℕ) {out : Bytes}
    → sequence < 65536
    → serialize_audio destination source sequence payload capacity ≡ some out
    → parse_audio out ≡ some (sent_audio destination source sequence payload)
unfolding serialize_audio
parse_audio-serialize_audio destination source sequence payload capacity {out} s h =
    let bytes = audio_bytes destination source sequence payload in
    let same : out ≡ bytes = ground (arith, h) in
    let short : length payload ≤ 1458 = ground (arith, h) in
    let present : 0 < length payload = ground (arith, h) in
    let says = audio_of-audio_bytes destination source sequence payload s (omega (arith, short)) in
    let lengths = audio_lengths destination source sequence payload s (omega (arith, short)) in
    let measure = length-audio_bytes destination source sequence payload in
    let rest : length payload ≡ length bytes - 42 = rw measure (omega arith) in
    rw (same, ← says)
      (parse_audio_accepts bytes (has_magic-audio_bytes destination source sequence payload)
        (rw measure (omega (arith, present))) (lengths.0 ∙ rest) (lengths.1 ∙ rest))
