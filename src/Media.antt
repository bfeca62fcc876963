-- ===== src/Media.antt =====
-- src/gvs_media.c and src/gvs_media.h: the packets of audio and video. A datagram and its length are one
-- list. A parse that returns -1 is `none`: what it leaves in the packet is read by no caller.
pub mod RoundTrip
mod Tests
use doorfast.Prelude.{
  ℕ, ◌+◌, ◌-◌, ◌*◌, ◌/◌, ◌%◌, Bool, true, false, ◌&&◌, ◌||◌, not, Option, none, some, List, [], ◌∷◌,
  ◌++◌, ltb, leb, ◌==◌, if◌then◌else◌, length, get_or, take, drop, Bytes, bytes_eq, Address,
  address_bytes,
}
use doorfast.Frame.{header, address_at}

-- `struct df_gvs_audio_packet`; `payload` is what `payload` and `payload_length` span.
pub record AudioPacket : Type 0 where
  pub destination : Address
  pub source : Address
  pub sequence : ℕ
  pub field_c : ℕ
  pub field_d : ℕ
  pub field_e : ℕ
  pub field_f : ℕ
  pub payload : Bytes
  pub payload_length : ℕ

-- `struct df_gvs_video_packet`; `payload` is `none` for a null pointer.
pub record VideoPacket : Type 0 where
  pub destination : Address
  pub source : Address
  pub frame_no : ℕ
  pub chunk_count : ℕ
  pub chunk_index : ℕ
  pub chunk_length : ℕ
  pub capacity : ℕ
  pub full_length : ℕ
  pub payload : Option Bytes

-- `DF_GVS_AUDIO_HEADER_LEN` and `DF_GVS_VIDEO_HEADER_LEN`
abbrev pub audio_header_size : ℕ
audio_header_size = 42

abbrev pub video_header_size : ℕ
video_header_size = 38

abbrev pub max_chunk : ℕ
max_chunk = 1200

-- `DF_GVS_AUDIO_MAX_PAYLOAD`
abbrev pub audio_max_payload : ℕ
audio_max_payload = 1500 - audio_header_size

-- `le16` and `le32`, at an offset
abbrev pub le16 : Bytes → ℕ → ℕ
le16 s i = get_or s i 0 + get_or s (i + 1) 0 * 256

abbrev pub le32 : Bytes → ℕ → ℕ
le32 s i = le16 s i + le16 s (i + 2) * 65536

-- `put_le16` and `put_le32`
abbrev pub put_le16 : ℕ → Bytes
put_le16 v = v % 256 ∷ v / 256 % 256 ∷ []

abbrev pub put_le32 : ℕ → Bytes
put_le32 v = put_le16 v ++ put_le16 (v / 65536)

-- `common`: the datagram begins with the magic of every frame.
unfoldable pub has_magic : Bytes → Bool
has_magic s = leb 16 (length s) && bytes_eq (take 10 s) header

unfoldable pub audio_of : Bytes → AudioPacket
audio_of s = record {
  destination = address_at s 10;
  source = address_at s 16;
  sequence = le16 s 24;
  field_c = le32 s 26;
  field_d = le16 s 30;
  field_e = le16 s 32;
  field_f = le16 s 36;
  payload = drop audio_header_size s;
  payload_length = le16 s 34;
}

-- `df_gvs_parse_audio`
unfoldable pub parse_audio : Bytes → Option AudioPacket
parse_audio s =
    if not (has_magic s) || ltb (length s) audio_header_size
    then none
    else if le16 s 34 == 0
        || (not (le16 s 34 == length s - audio_header_size) || not (le32 s 26 == le16 s 34))
    then none
    else some (audio_of s)

unfoldable pub video_of : Bytes → VideoPacket
video_of s = record {
  destination = address_at s 10;
  source = address_at s 16;
  frame_no = le16 s 24;
  chunk_count = le16 s 30;
  chunk_index = le16 s 32;
  chunk_length = le16 s 34;
  capacity = le16 s 36;
  full_length = le32 s 26;
  payload = some (drop video_header_size s);
}

-- `df_gvs_parse_video`
unfoldable pub parse_video : Bytes → Option VideoPacket
parse_video s =
    if not (has_magic s) || ltb (length s) video_header_size
    then none
    else if le16 s 34 == 0
        || (ltb max_chunk (le16 s 34)
            || (not (le16 s 34 == length s - video_header_size) || le32 s 26 == 0))
    then none
    else if le16 s 30 == 0 || (le16 s 32 == 0 || ltb (le16 s 30) (le16 s 32))
    then none
    else some (video_of s)

abbrev with_consumed : ℕ → Option VideoPacket → Option (VideoPacket × ℕ)
with_consumed n none = none
with_consumed n (some p) = some (p, n)

-- `df_gvs_parse_video_datagram`: the first packet of a datagram, and `*consumed`.
unfoldable pub parse_video_datagram : Bytes → Option (VideoPacket × ℕ)
unfolding parse_video
parse_video_datagram s =
    if ltb (length s) video_header_size || not (has_magic s)
    then none
    else if le16 s 34 == 0
        || (ltb max_chunk (le16 s 34) || ltb (length s) (video_header_size + le16 s 34))
    then none
    else with_consumed (video_header_size + le16 s 34)
        (parse_video (take (video_header_size + le16 s 34) s))

unfoldable pub audio_bytes : Address → Address → ℕ → Bytes → Bytes
audio_bytes destination source sequence payload =
    header
    ++ (address_bytes destination
        ++ (address_bytes source
            ++ (0
                ∷ 0
                ∷ (put_le16 sequence
                    ++ (put_le32 (length payload)
                        ++ (1
                            ∷ 0
                            ∷ 1
                            ∷ 0
                            ∷ (put_le16 (length payload) ++ (0 ∷ 1 ∷ 0 ∷ 0 ∷ 0 ∷ 0 ∷ payload))))))))

-- `df_gvs_serialize_audio`, for a sequence number of 16 bits
unfoldable pub serialize_audio : Address → Address → ℕ → Bytes → ℕ → Option Bytes
unfolding audio_bytes
serialize_audio destination source sequence payload capacity =
    if length payload == 0
      || (ltb audio_max_payload (length payload)
          || ltb capacity (audio_header_size + length payload))
    then none
    else some (audio_bytes destination source sequence payload)
