-- ===== src/Call/Ack/Confirm.antt =====
-- src/gvs_call_ack.c: what confirms a command, and what the station's answer has to be.
use doorfast.Prelude.{
  ℕ, ◌+◌, ◌/◌, ◌%◌, ◌≤◌, ◌<◌, ◌≡◌, ◌≢◌, refl, true, false, Option, some, [], ◌∷◌, arith, ltb, leb,
  length, ok, Bytes, Address, zero_address, addr_eq, addr_eq_refl, bytes_eq, u64_max,
}
use doorfast.Frame.{Frame, Event, parse, event_of}
use doorfast.Frame.Serialize.{HeaderProvider, HeaderRequest, control_serialize}
use doorfast.Frame.RoundTrip.{parse-control_serialize}
use doorfast.Session.{Session}
use doorfast.Call.Command.{CallCommand}
use doorfast.Call.Command.Wire.{
  Choice, answers, calls, hangs_up, prepare, prepare_inv, prepared, InRange, Fits,
}
use doorfast.Call.Dispatch.{Dispatch, sent}
use doorfast.Call.Ack.{
  Ack, waiting, confirmed, is_ack_waiting, command_valid, ack_current, pick_reply_matches,
  frame_matches, ack_begin, ack_observe, ack_parsed, ack_receive,
}

command_valid-prepared :
    (choice : Choice) (s : Session) (local : Address)
    → InRange choice
    → Fits choice s.state
    → s.generation ≢ 0
    → addr_eq local zero_address ≡ false
    → addr_eq s.peer zero_address ≡ false
    → command_valid (prepared choice s local) ≡ true
unfolding command_valid
command_valid-prepared (answers primary secondary duration) s local r f g l p = ground arith
command_valid-prepared (calls primary secondary duration) s local r f g l p = ground arith
command_valid-prepared (hangs_up reason) s local r f g l p = ground arith

ack_current-prepared :
    (choice : Choice) (s : Session) (local : Address)
    → Fits choice s.state
    → ack_current (prepared choice s local) s local ≡ true
unfolding ack_current
ack_current-prepared (answers primary secondary duration) s local f =
    ground (arith, addr_eq_refl s.peer, addr_eq_refl local)
ack_current-prepared (calls primary secondary duration) s local f =
    ground (arith, addr_eq_refl s.peer, addr_eq_refl local)
ack_current-prepared (hangs_up reason) s local f =
    ground (arith, addr_eq_refl s.peer, addr_eq_refl local)

-- What the station answers: the ports as they were sent with a duration of its own, or nothing.
abbrev pub reply_body : Choice → ℕ → Bytes
reply_body (answers primary secondary duration) granted =
    0x00
    ∷ (primary / 256 % 256)
    ∷ (primary % 256)
    ∷ 0x00
    ∷ (secondary / 256 % 256)
    ∷ (secondary % 256)
    ∷ granted
    ∷ []
reply_body (calls primary secondary duration) granted =
    0x00
    ∷ (primary / 256 % 256)
    ∷ (primary % 256)
    ∷ 0x00
    ∷ (secondary / 256 % 256)
    ∷ (secondary % 256)
    ∷ granted
    ∷ []
reply_body (hangs_up reason) granted = []

abbrev pub reply_opcode : Choice → ℕ
reply_opcode (answers primary secondary duration) = 0x83
reply_opcode (calls primary secondary duration) = 0x83
reply_opcode (hangs_up reason) = 0x82

abbrev pub reply_request : Choice → Session → Address → ℕ → HeaderRequest
reply_request choice s local granted = record {
  destination = local;
  source = s.peer;
  family = 0x03;
  opcode = reply_opcode choice;
  payload = some (reply_body choice granted);
  payload_length = length (reply_body choice granted);
}

abbrev reply_frame : Choice → Session → Address → ℕ → Frame
reply_frame choice s local granted = record {
  destination = local;
  source = s.peer;
  family = 0x03;
  opcode = reply_opcode choice;
  payload_length = length (reply_body choice granted);
  payload = some (reply_body choice granted);
}

parse-reply :
    (choice : Choice) (s : Session) (local : Address) (granted capacity : ℕ)
    (provider : Option HeaderProvider) {out : Bytes}
    → control_serialize capacity (reply_request choice s local granted) provider ≡ some out
    → let f = reply_frame choice s local granted in parse out ≡ some (f, event_of f)
parse-reply (answers primary secondary duration) s local granted capacity provider h =
    parse-control_serialize capacity
      (reply_request (answers primary secondary duration) s local granted) provider (omega arith)
      (omega arith) h
parse-reply (calls primary secondary duration) s local granted capacity provider h =
    parse-control_serialize capacity
      (reply_request (calls primary secondary duration) s local granted) provider (omega arith)
      (omega arith) h
parse-reply (hangs_up reason) s local granted capacity provider h =
    parse-control_serialize capacity (reply_request (hangs_up reason) s local granted) provider
      (omega arith) (omega arith) h

frame_matches-reply :
    (choice : Choice) (s : Session) (local : Address) (granted : ℕ)
    → granted ≢ 0
    → frame_matches (prepared choice s local) (reply_frame choice s local granted) ≡ true
unfolding frame_matches pick_reply_matches bytes_eq
frame_matches-reply (answers primary secondary duration) s local granted g =
    ground (arith, addr_eq_refl s.peer, addr_eq_refl local)
frame_matches-reply (calls primary secondary duration) s local granted g =
    ground (arith, addr_eq_refl s.peer, addr_eq_refl local)
frame_matches-reply (hangs_up reason) s local granted g =
    ground (arith, addr_eq_refl s.peer, addr_eq_refl local)

-- The acknowledgement that waits for a command until `deadline_ms`.
abbrev pub waits_for : CallCommand → ℕ → ℕ → Ack
waits_for c now_ms deadline_ms = record {
  state = waiting;
  command = c;
  last_now_ms = now_ms;
  deadline_ms = deadline_ms;
}

ack_begin_ok :
    (a : Ack) (d : Dispatch) (s : Session) (local : Address) (now_ms timeout_ms : ℕ)
    → is_ack_waiting a.state ≡ false
    → d.state ≡ sent
    → command_valid d.command ≡ true
    → ack_current d.command s local ≡ true
    → timeout_ms ≢ 0
    → a.last_now_ms ≤ now_ms
    → now_ms + timeout_ms ≤ u64_max
    → ack_begin a d s local now_ms timeout_ms
      ≡ (ok, waits_for d.command now_ms (now_ms + timeout_ms))
unfolding ack_begin
ack_begin_ok a d s local now_ms timeout_ms w e v c t l room = ground arith

ltb_no : (m n : ℕ) → n ≤ m → ltb m n ≡ false
ltb_no m n l = ground arith

leb_no : (m n : ℕ) → n < m → leb m n ≡ false
leb_no m n l = ground arith

ack_receive_ok :
    (c : CallCommand) (start_ms deadline_ms now_ms : ℕ) (s : Session) (local : Address)
    (datagram : Bytes) (f : Frame) (e : Event)
    → parse datagram ≡ some (f, e)
    → ack_current c s local ≡ true
    → frame_matches c f ≡ true
    → start_ms ≤ now_ms
    → now_ms < deadline_ms
    → ack_receive (waits_for c start_ms deadline_ms) s local datagram now_ms
      ≡ (ok, record { state = confirmed; command = c; last_now_ms = now_ms; deadline_ms = 0 })
unfolding ack_receive ack_parsed ack_observe
ack_receive_ok c start_ms deadline_ms now_ms s local datagram f e p cur m l d =
    rw (p, ltb_no now_ms start_ms l, leb_no deadline_ms now_ms d, cur, m) refl

-- A command prepared for a session and sent is waited for, and the station's answer confirms it if it
-- comes before the timeout and the session is still in the call: for a pick, the ports that were
-- sent with any duration but zero; for a hang-up, an empty payload.
pub ack_begin-ack_receive :
    (a : Ack) (d : Dispatch) (choice : Choice) (s : Session) (expected : ℕ) (local : Address)
    (start_ms timeout_ms now_ms granted capacity : ℕ) (provider : Option HeaderProvider)
    {out : Bytes}
    → InRange choice
    → prepare choice s expected local ≡ some d.command
    → d.state ≡ sent
    → is_ack_waiting a.state ≡ false
    → a.last_now_ms ≤ start_ms
    → start_ms + timeout_ms ≤ u64_max
    → start_ms ≤ now_ms
    → now_ms < start_ms + timeout_ms
    → granted ≢ 0
    → control_serialize capacity (reply_request choice s local granted) provider ≡ some out
    → let (status, b) = ack_begin a d s local start_ms timeout_ms in
      (status ≡ ok)
      × (ack_receive b s local out now_ms ≡ (
        ok,
        record { state = confirmed; command = d.command; last_now_ms = now_ms; deadline_ms = 0 },
      ))
ack_begin-ack_receive a d choice s expected local start_ms timeout_ms now_ms granted capacity
      provider r p e w l room m before g h =
    let (same, gen, some_generation, own, peer, fits) = prepare_inv choice s expected local p in
    let valid : command_valid d.command ≡ true =
      rw same (command_valid-prepared choice s local r fits some_generation own peer) in
    let current : ack_current d.command s local ≡ true =
      rw same (ack_current-prepared choice s local fits) in
    let f = reply_frame choice s local granted in
    let matches : frame_matches d.command f ≡ true =
      rw same (frame_matches-reply choice s local granted g) in
    let begun =
      ack_begin_ok a d s local start_ms timeout_ms w e valid current (omega arith) l room in
    rw begun (
      refl,
      ack_receive_ok d.command start_ms (start_ms + timeout_ms) now_ms s local _ f (event_of f)
          (parse-reply choice s local granted capacity provider h) current matches m before,
    )
