-- ===== src/Frame.antt =====
-- src/gvs_frame.c, src/gvs_frame.h and src/event.h: what a received datagram says.
-- The caller's buffer and its length are one list. A parse that fails returns `none`: what it leaves
-- in the out parameters is read by no caller.
pub mod Serialize
pub mod RoundTrip
mod Tests
use doorfast.Prelude.{
  ℕ, ◌+◌, ◌-◌, ◌*◌, ◌%◌, ◌≡◌, Bool, ◌&&◌, ◌||◌, Option, none, some, [], ◌∷◌, ltb, leb, ◌==◌, not,
  if◌then◌else◌, length, get_or, take, drop, Bytes, Address, bytes_eq,
}

-- `enum df_event_type`
pub data EventType : Type 0 where
  unknown incoming_call hangup station_observed preview_started session_established : EventType
  unlock_result_observed pick_reply_observed : EventType

-- `struct df_event`; the two texts are held up to their terminating zero.
pub record Event : Type 0 where
  pub kind : EventType
  pub call_id : Bytes
  pub remote_host : Bytes
  pub remote_port : ℕ

-- `struct df_gvs_frame`; `payload` is `none` for a null pointer.
pub record Frame : Type 0 where
  pub destination : Address
  pub source : Address
  pub family : ℕ
  pub opcode : ℕ
  pub payload_length : ℕ
  pub payload : Option Bytes

abbrev pub header_size : ℕ
header_size = 42

-- "GVSGVS" and four bytes A5
abbrev pub header : Bytes
header = b'G' ∷ b'V' ∷ b'S' ∷ b'G' ∷ b'V' ∷ b'S' ∷ 0xA5 ∷ 0xA5 ∷ 0xA5 ∷ 0xA5 ∷ []

abbrev pub address_at : Bytes → ℕ → Address
address_at s i = record {
  b0 = get_or s i 0;
  b1 = get_or s (i + 1) 0;
  b2 = get_or s (i + 2) 0;
  b3 = get_or s (i + 3) 0;
  b4 = get_or s (i + 4) 0;
  b5 = get_or s (i + 5) 0;
}

unfoldable pub event_type : ℕ → ℕ → EventType
event_type family opcode =
    if family == 0x03 && opcode == 0x01
    then incoming_call
    else if family == 0x03 && opcode == 0x04
    then preview_started
    else if family == 0x03 && opcode == 0x86
    then station_observed
    else if family == 0x04 && opcode == 0x89
    then unlock_result_observed
    else unknown

-- The two length bytes, low one first.
abbrev pub declared_length : Bytes → ℕ
declared_length s = get_or s 40 0 + get_or s 41 0 * 256

-- The declared length fits, or is six more than what follows in a call request.
unfoldable pub length_accepted : ℕ → ℕ → ℕ → ℕ → Bool
length_accepted family opcode declared actual =
    actual == declared
    || (family == 0x03 && (opcode == 0x01 && (leb 6 declared && actual == declared - 6)))

unfoldable pub frame_of : Bytes → Frame
frame_of s = record {
  destination = address_at s 10;
  source = address_at s 16;
  family = get_or s 38 0;
  opcode = get_or s 39 0;
  payload_length = (length s - header_size) % 65536;
  payload = some (drop header_size s);
}

unfoldable pub event_of : Frame → Event
unfolding event_type
event_of f = record {
  kind =
      if f.family == 0x03 && (f.opcode == 0x83 && f.payload_length == 7)
      then pick_reply_observed
      else event_type f.family f.opcode;
  call_id = [];
  remote_host = [];
  remote_port = 0;
}

unfoldable pub parse : Bytes → Option (Frame × Event)
unfolding length_accepted frame_of event_of
parse s =
    if ltb (length s) header_size
    then none
    else if not (bytes_eq (take 10 s) header)
    then none
    else if not (
        length_accepted (get_or s 38 0) (get_or s 39 0) (declared_length s)
          (length s - header_size))
    then none
    else some (frame_of s, event_of (frame_of s))
