-- ===== src/Frame/RoundTrip.antt =====
-- What is sent is what is received: the serializers against the parser.
use doorfast.Prelude.{
  ℕ, Block, true, ◌+◌, ◌-◌, ◌≤◌, ◌<◌, ◌≡◌, refl, All, All-get_or, ap, ◌∙◌, Option, none, some,
  arith, length, length-take, ◌⊎◌, take, drop, Bytes, get_or, bytes_eq, bytes_eq_refl,
  bytes_eq_sound,
}
use doorfast.Frame.{
  Frame, Event, header, header_size, parse, event_of, frame_of, length_accepted, declared_length,
}
use doorfast.Frame.Serialize.{
  HeaderRequest, HeaderProvider, frame_bytes, control_serialize, payload_bytes,
}

-- The frame that a request stands for.
abbrev pub sent_frame : HeaderRequest → Bytes → Frame
sent_frame r body = record {
  destination = r.destination;
  source = r.source;
  family = r.family;
  opcode = r.opcode;
  payload_length = length body;
  payload = some body;
}

-- What the parser accepts, as conditions on the datagram.
parse_accepts :
    (s : Bytes)
    → header_size ≤ length s
    → bytes_eq (take 10 s) header ≡ true
    → length_accepted (get_or s 38 0) (get_or s 39 0) (declared_length s) (length s - header_size)
      ≡ true
    → parse s ≡ some (frame_of s, event_of (frame_of s))
unfolding parse
parse_accepts s h m l = ground arith

length_accepted_same : (family opcode n m : ℕ) → m ≡ n → length_accepted family opcode n m ≡ true
unfolding length_accepted
length_accepted_same family opcode n m e = ground arith

frame_of-frame_bytes :
    (r : HeaderRequest) (fields : Block × Block)
    → length (payload_bytes r.payload r.payload_length) < 65536
    → frame_of (frame_bytes r fields) ≡ sent_frame r (payload_bytes r.payload r.payload_length)
unfolding frame_of frame_bytes
frame_of-frame_bytes r (a, e) h =
    let body : Bytes = payload_bytes r.payload r.payload_length in
    ap {B = Frame} (λ n. record (sent_frame r body) { payload_length = n }) (omega arith)

pub parse-frame_bytes :
    (r : HeaderRequest) (fields : Block × Block)
    → length (payload_bytes r.payload r.payload_length) ≡ r.payload_length
    → r.payload_length < 65536
    → let f = sent_frame r (payload_bytes r.payload r.payload_length) in
      parse (frame_bytes r fields) ≡ some (f, event_of f)
unfolding frame_bytes
parse-frame_bytes r (a, e) h l =
    parse_accepts (frame_bytes r (a, e)) (omega arith) (bytes_eq_refl header)
      (length_accepted_same r.family r.opcode _ _ (omega arith))
    ∙ ap (λ f. some (f, event_of f)) (frame_of-frame_bytes r (a, e) (omega arith))

-- The payload's buffer holds the bytes that its length says.
abbrev pub Holds : Option Bytes → ℕ → Type 0
Holds none n = Unit {0}
Holds (some p) n = n ≤ length p

abbrev pub IsReadable : HeaderRequest → Type 0
IsReadable r = Holds r.payload r.payload_length

length-payload_bytes :
    (payload : Option Bytes) (n : ℕ)
    → Holds payload n
    → (payload ≡ none → n ≡ 0)
    → length (payload_bytes payload n) ≡ n
length-payload_bytes none n h z = omega (arith, z refl)
length-payload_bytes (some p) n h z = omega (arith, length-take n p)

-- What a successful `df_gvs_control_serialize` has checked and written.
control_serialize_inv :
    (capacity : ℕ) (r : HeaderRequest) (provider : Option HeaderProvider) {out : Bytes}
    → control_serialize capacity r provider ≡ some out
    → (fields : Block × Block) × (out ≡ frame_bytes r fields)
      × (header_size + r.payload_length ≤ capacity)
      × (r.payload ≡ none → r.payload_length ≡ 0)
unfolding control_serialize
control_serialize_inv capacity r none h = cc
control_serialize_inv capacity r (some provide_fields) {out} h = go (provide_fields r) refl
  where
    go :
        (o : Option (Block × Block))
        → provide_fields r ≡ o
        → (fields : Block × Block) × (out ≡ frame_bytes r fields)
          × (header_size + r.payload_length ≤ capacity)
          × (r.payload ≡ none → r.payload_length ≡ 0)
    go none e = absurd (ground arith)
    go (some fields) e = (fields, ground arith, ground arith, λ n. ground arith)

-- A frame that `df_gvs_control_serialize` writes is read back by `df_gvs_frame_parse` as it was
-- sent, where the payload's buffer is as long as stated and the length fits in 16 bits.
pub parse-control_serialize :
    (capacity : ℕ) (r : HeaderRequest) (provider : Option HeaderProvider) {out : Bytes}
    → IsReadable r
    → r.payload_length < 65536
    → control_serialize capacity r provider ≡ some out
    → let f = sent_frame r (payload_bytes r.payload r.payload_length) in
      parse out ≡ some (f, event_of f)
parse-control_serialize capacity r provider readable small h =
    let (fields, e, fits, null) = control_serialize_inv capacity r provider h in
    rw e (
      parse-frame_bytes r fields (length-payload_bytes r.payload r.payload_length readable null)
        small)

-- The frame is as long as its header and payload, and fits in the caller's buffer, where the
-- payload's buffer is as long as stated.
pub control_serialize_bounds :
    (capacity : ℕ) (r : HeaderRequest) (provider : Option HeaderProvider) {out : Bytes}
    → IsReadable r
    → control_serialize capacity r provider ≡ some out
    → (length out ≡ header_size + r.payload_length) × (length out ≤ capacity)
unfolding frame_bytes
control_serialize_bounds capacity r provider {out} readable h =
    let ((a, e), eq, fits, null) = control_serialize_inv capacity r provider h in
    let n = length-payload_bytes r.payload r.payload_length readable null in
    let l : length out ≡ header_size + r.payload_length = rw eq (omega (arith, n)) in
    (l, omega arith)

parse_inv :
    (s : Bytes) {f : Frame} {e : Event}
    → parse s ≡ some (f, e)
    → (header_size ≤ length s)
      × (bytes_eq (take 10 s) header ≡ true)
      × (length_accepted
            (get_or s 38 0)
            (get_or s 39 0)
            (declared_length s)
            (length s - header_size)
          ≡ true)
      × (f ≡ frame_of s)
      × (e ≡ event_of (frame_of s))
unfolding parse
parse_inv s h = ground arith

length_accepted_inv :
    (family opcode n m : ℕ)
    → length_accepted family opcode n m ≡ true
    → (n ≡ m) ⊎ ((family ≡ 0x03) × (opcode ≡ 0x01) × (n ≡ m + 6))
unfolding length_accepted
length_accepted_inv family opcode n m h = ground arith

-- A datagram of bytes that `df_gvs_frame_parse` accepts begins with the magic and the header, its
-- payload is all that follows the header, and the frame's 16-bit length is the true one; the length
-- bytes say the same, or six more in a call request.
pub parse_sound :
    (s : Bytes) {f : Frame} {e : Event}
    → All (λ b. b < 256) s
    → parse s ≡ some (f, e)
    → (take 10 s ≡ header)
      × (header_size + f.payload_length ≡ length s)
      × (f.payload ≡ some (drop header_size s))
      × (e ≡ event_of f)
      × ((declared_length s ≡ f.payload_length)
          ⊎ ((f.family ≡ 0x03) × (f.opcode ≡ 0x01) × (declared_length s ≡ f.payload_length + 6)))
unfolding frame_of
parse_sound s {f} {e} bytes h =
    let (long, magic, accepted, ef, ee) = parse_inv s h in
    let lo = All-get_or (λ b. b < 256) s 40 0 bytes (omega arith) in
    let hi = All-get_or (λ b. b < 256) s 41 0 bytes (omega arith) in
    let cases =
      length_accepted_inv (get_or s 38 0) (get_or s 39 0) (declared_length s)
        (length s - header_size) accepted in
    rw (ef, ee) (bytes_eq_sound _ _ magic, ground arith, refl, refl, ground arith)
