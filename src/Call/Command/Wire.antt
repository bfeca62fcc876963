-- ===== src/Call/Command/Wire.antt =====
-- src/gvs_call_command.c: what a prepared command is on the wire.
use doorfast.Prelude.{
  ℕ, ◌/◌, ◌%◌, ◌<◌, ◌≡◌, ◌≢◌, true, false, Option, some, [], ◌∷◌, arith, Bytes, Address,
  zero_address, addr_eq, length,
}
use doorfast.Frame.{Frame, parse, event_of}
use doorfast.Frame.Serialize.{HeaderProvider, HeaderRequest, control_serialize}
use doorfast.Frame.RoundTrip.{parse-control_serialize}
use doorfast.Session.{Session, SessionState, preview, ringing, is_active}
use doorfast.Call.Command.{
  CommandType, answer, hangup, call, Payload, payload_list, zero_payload, pick_payload, CallCommand,
  command_begin, fill_pick, fill_hangup, prepare_pick, prepare_answer, prepare_call, prepare_hangup,
  command_serialize,
}

-- The three commands, with what their caller chooses.
pub data Choice : Type 0 where
  answers : ℕ → ℕ → ℕ → Choice
  calls : ℕ → ℕ → ℕ → Choice
  hangs_up : ℕ → Choice

unfoldable pub prepare : Choice → Session → ℕ → Address → Option CallCommand
prepare (answers primary secondary duration) s expected local =
    prepare_answer s expected local primary secondary duration
prepare (calls primary secondary duration) s expected local =
    prepare_call s expected local primary secondary duration
prepare (hangs_up reason) s expected local = prepare_hangup s expected local reason

-- The documented payload and opcode.
abbrev pub body : Choice → Bytes
body (answers primary secondary duration) =
    0x02
    ∷ (primary / 256 % 256)
    ∷ (primary % 256)
    ∷ 0x00
    ∷ (secondary / 256 % 256)
    ∷ (secondary % 256)
    ∷ duration
    ∷ []
body (calls primary secondary duration) =
    0x02
    ∷ (primary / 256 % 256)
    ∷ (primary % 256)
    ∷ 0x00
    ∷ (secondary / 256 % 256)
    ∷ (secondary % 256)
    ∷ duration
    ∷ []
body (hangs_up reason) = reason ∷ []

abbrev pub opcode_of : Choice → ℕ
opcode_of (answers primary secondary duration) = 0x03
opcode_of (calls primary secondary duration) = 0x03
opcode_of (hangs_up reason) = 0x02

abbrev pub kind_of : Choice → CommandType
kind_of (answers primary secondary duration) = answer
kind_of (calls primary secondary duration) = call
kind_of (hangs_up reason) = hangup

abbrev pub payload_of : Choice → Payload
payload_of (answers primary secondary duration) = pick_payload primary secondary duration
payload_of (calls primary secondary duration) = pick_payload primary secondary duration
payload_of (hangs_up reason) = record zero_payload { p0 = reason }

-- The session must be in the state that the command is for.
abbrev pub Fits : Choice → SessionState → Type 0
Fits (answers primary secondary duration) s =
    (s ≡ ringing) × (primary ≢ 0) × (secondary ≢ 0) × (duration ≢ 0)
Fits (calls primary secondary duration) s =
    (s ≡ preview) × (primary ≢ 0) × (secondary ≢ 0) × (duration ≢ 0)
Fits (hangs_up reason) s = is_active s ≡ true

abbrev pub prepared : Choice → Session → Address → CallCommand
prepared choice s local = record {
  valid = true;
  kind = kind_of choice;
  destination = s.peer;
  source = local;
  session_generation = s.generation;
  opcode = opcode_of choice;
  payload = payload_of choice;
  payload_length = length (body choice);
}

-- What a successful `prepare_*` has checked and made.
pub prepare_inv :
    (choice : Choice) (s : Session) (expected : ℕ) (local : Address) {c : CallCommand}
    → prepare choice s expected local ≡ some c
    → (c ≡ prepared choice s local)
      × (expected ≡ s.generation)
      × (s.generation ≢ 0)
      × (addr_eq local zero_address ≡ false)
      × (addr_eq s.peer zero_address ≡ false)
      × Fits choice s.state
unfolding prepare prepare_answer prepare_call prepare_hangup prepare_pick command_begin fill_pick
    fill_hangup
prepare_inv (answers primary secondary duration) s expected local h = ground arith
prepare_inv (calls primary secondary duration) s expected local h = ground arith
prepare_inv (hangs_up reason) s expected local h = ground arith

abbrev request : Choice → Session → Address → HeaderRequest
request choice s local = record {
  destination = s.peer;
  source = local;
  family = 0x03;
  opcode = opcode_of choice;
  payload = some (payload_list (payload_of choice));
  payload_length = length (body choice);
}

command_serialize-prepared :
    (choice : Choice) (s : Session) (local : Address) (capacity : ℕ)
    (provider : Option HeaderProvider)
    → s.generation ≢ 0
    → command_serialize (prepared choice s local) capacity provider
      ≡ control_serialize capacity (request choice s local) provider
unfolding command_serialize
command_serialize-prepared (answers primary secondary duration) s local capacity provider g =
    ground arith
command_serialize-prepared (calls primary secondary duration) s local capacity provider g =
    ground arith
command_serialize-prepared (hangs_up reason) s local capacity provider g = ground arith

-- The frame of a choice: from the local unit to the session's peer, family 3.
abbrev pub choice_frame : Choice → Session → Address → Frame
choice_frame choice s local = record {
  destination = s.peer;
  source = local;
  family = 0x03;
  opcode = opcode_of choice;
  payload_length = length (body choice);
  payload = some (body choice);
}

parse-request :
    (choice : Choice) (s : Session) (local : Address) (capacity : ℕ)
    (provider : Option HeaderProvider) {out : Bytes}
    → control_serialize capacity (request choice s local) provider ≡ some out
    → parse out ≡ some (choice_frame choice s local, event_of (choice_frame choice s local))
parse-request (answers primary secondary duration) s local capacity provider h =
    parse-control_serialize capacity (request (answers primary secondary duration) s local) provider
      (omega arith) (omega arith) h
parse-request (calls primary secondary duration) s local capacity provider h =
    parse-control_serialize capacity (request (calls primary secondary duration) s local) provider
      (omega arith) (omega arith) h
parse-request (hangs_up reason) s local capacity provider h =
    parse-control_serialize capacity (request (hangs_up reason) s local) provider (omega arith)
      (omega arith) h

-- A command prepared for a session and then serialized is parsed as a frame from the local unit to
-- the session's peer that holds the opcode and the payload of the choice: two, both ports in network
-- order with a zero between them, and the duration, or the reason of a hang-up alone.
pub parse-prepare :
    (choice : Choice) (s : Session) (expected : ℕ) (local : Address) (capacity : ℕ)
    (provider : Option HeaderProvider) {c : CallCommand} {out : Bytes}
    → prepare choice s expected local ≡ some c
    → command_serialize c capacity provider ≡ some out
    → parse out ≡ some (choice_frame choice s local, event_of (choice_frame choice s local))
parse-prepare choice s expected local capacity provider {c} {out} p h =
    let (e, same, some_generation, own, peer, fits) = prepare_inv choice s expected local p in
    let sent : command_serialize (prepared choice s local) capacity provider ≡ some out =
      rw (← e) h in
    parse-request choice s local capacity provider
      (rw (← command_serialize-prepared choice s local capacity provider some_generation) sent)

-- The ports and the duration are unsigned 16-bit and 8-bit numbers.
abbrev pub InRange : Choice → Type 0
InRange (answers primary secondary duration) =
    (primary < 65536) × (secondary < 65536) × (duration < 256)
InRange (calls primary secondary duration) =
    (primary < 65536) × (secondary < 65536) × (duration < 256)
InRange (hangs_up reason) = reason < 256
