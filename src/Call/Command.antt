-- ===== src/Call/Command.antt =====
-- src/gvs_call_command.c and src/gvs_call_command.h: an answer, a call or a hang-up for the session as
-- it is. A refusal leaves `*command` zeroed: here it is `none`.
pub mod Wire
use doorfast.Prelude.{
  ℕ, ◌+◌, ◌*◌, ◌/◌, ◌%◌, Bool, true, false, ◌&&◌, ◌||◌, not, Option, none, some, [], ◌∷◌, ltb, ◌==◌,
  if◌then◌else◌, Bytes, Address, zero_address, addr_eq,
}
use doorfast.Frame.Serialize.{HeaderProvider, control_serialize}
use doorfast.Session.{Session, SessionState, preview, ringing, in_state, is_active}
use doorfast.Handshake.{ActionType, ask, reply, action_serialize}

-- `enum df_gvs_call_command_type`
pub data CommandType : Type 0 where
  no_command answer hangup hand_ask hand_reply call : CommandType

-- `uint8_t payload[7]`
pub record Payload : Type 0 where
  pub p0 : ℕ
  pub p1 : ℕ
  pub p2 : ℕ
  pub p3 : ℕ
  pub p4 : ℕ
  pub p5 : ℕ
  pub p6 : ℕ

abbrev pub payload_list : Payload → Bytes
payload_list p = p.p0 ∷ p.p1 ∷ p.p2 ∷ p.p3 ∷ p.p4 ∷ p.p5 ∷ p.p6 ∷ []

abbrev pub zero_payload : Payload
zero_payload = record { p0 = 0; p1 = 0; p2 = 0; p3 = 0; p4 = 0; p5 = 0; p6 = 0 }

-- `struct df_gvs_call_command`
pub record CallCommand : Type 0 where
  pub valid : Bool
  pub kind : CommandType
  pub destination : Address
  pub source : Address
  pub session_generation : ℕ
  pub opcode : ℕ
  pub payload : Payload
  pub payload_length : ℕ

-- The numbers of the enumerators, for the code's comparisons.
abbrev pub command_code : CommandType → ℕ
command_code no_command = 0
command_code answer = 1
command_code hangup = 2
command_code hand_ask = 3
command_code hand_reply = 4
command_code call = 5

abbrev pub is_command : CommandType → CommandType → Bool
is_command a b = command_code a == command_code b

-- `df_gvs_call_command_begin`
unfoldable pub command_begin : Session → ℕ → Address → CommandType → ℕ → Option CallCommand
command_begin s expected local kind opcode =
    if expected == 0
      || (not (expected == s.generation)
          || (addr_eq local zero_address || addr_eq s.peer zero_address))
    then none
    else some (record {
      valid = false;
      kind = kind;
      destination = s.peer;
      source = local;
      session_generation = expected;
      opcode = opcode;
      payload = zero_payload;
      payload_length = 0;
    })

-- The seven bytes of a pick: the ports in network order.
abbrev pub pick_payload : ℕ → ℕ → ℕ → Payload
pick_payload primary secondary duration = record {
  p0 = 0x02;
  p1 = primary / 256 % 256;
  p2 = primary % 256;
  p3 = 0x00;
  p4 = secondary / 256 % 256;
  p5 = secondary % 256;
  p6 = duration;
}

unfoldable pub fill_pick :
    Session → ℕ → ℕ → ℕ → SessionState → Option CallCommand → Option CallCommand
fill_pick s primary secondary duration required none = none
fill_pick s primary secondary duration required (some c) =
    if not (in_state s.state required) || (primary == 0 || (secondary == 0 || duration == 0))
    then none
    else some (record c {
      payload = pick_payload primary secondary duration;
      payload_length = 7;
      valid = true;
    })

-- `df_gvs_call_command_prepare_pick`
unfoldable pub prepare_pick :
    Session → ℕ → Address → ℕ → ℕ → ℕ → CommandType → SessionState → Option CallCommand
unfolding command_begin fill_pick
prepare_pick s expected local primary secondary duration kind required =
    fill_pick s primary secondary duration required (command_begin s expected local kind 0x03)

-- `df_gvs_call_command_prepare_answer`
unfoldable pub prepare_answer : Session → ℕ → Address → ℕ → ℕ → ℕ → Option CallCommand
unfolding prepare_pick
prepare_answer s expected local primary secondary duration =
    prepare_pick s expected local primary secondary duration answer ringing

-- `df_gvs_call_command_prepare_call`
unfoldable pub prepare_call : Session → ℕ → Address → ℕ → ℕ → ℕ → Option CallCommand
unfolding prepare_pick
prepare_call s expected local primary secondary duration =
    prepare_pick s expected local primary secondary duration call preview

unfoldable pub fill_hangup : Session → ℕ → Option CallCommand → Option CallCommand
fill_hangup s reason none = none
fill_hangup s reason (some c) =
    if not (is_active s.state)
    then none
    else some (record c {
      payload = record zero_payload { p0 = reason };
      payload_length = 1;
      valid = true;
    })

-- `df_gvs_call_command_prepare_hangup`
unfoldable pub prepare_hangup : Session → ℕ → Address → ℕ → Option CallCommand
unfolding command_begin fill_hangup
prepare_hangup s expected local reason =
    fill_hangup s reason (command_begin s expected local hangup 0x02)

abbrev pub is_hand : CommandType → Bool
is_hand k = is_command k hand_ask || is_command k hand_reply

abbrev pub is_pick : CommandType → Bool
is_pick k = is_command k answer || is_command k call

-- The action that a keep-alive command stands for, and its opcode.
abbrev pub hand_action : CommandType → ActionType
hand_action k = if is_command k hand_ask then ask else reply

abbrev pub hand_opcode : CommandType → ℕ
hand_opcode k = if is_command k hand_ask then 0x51 else 0x52

-- `df_gvs_call_command_serialize`
unfoldable pub command_serialize : CallCommand → ℕ → Option HeaderProvider → Option Bytes
command_serialize c capacity provider =
    if c.valid && is_hand c.kind
    then (if not (c.payload_length == 0) || not (c.opcode == hand_opcode c.kind)
        then none
        else action_serialize
            (record {
              valid = true;
              kind = hand_action c.kind;
              destination = c.destination;
              source = c.source;
              session_generation = c.session_generation;
            })
            capacity provider)
    else if not c.valid
        || (c.session_generation == 0
            || (not (is_pick c.kind || is_command c.kind hangup)
                || (not (c.opcode == 0x03 || c.opcode == 0x02)
                    || ((is_pick c.kind && (not (c.opcode == 0x03) || not (c.payload_length == 7)))
                        || (is_command c.kind hangup
                            && (not (c.opcode == 0x02) || not (c.payload_length == 1)))))))
    then none
    else control_serialize capacity
        (record {
          destination = c.destination;
          source = c.source;
          family = 0x03;
          opcode = c.opcode;
          payload = some (payload_list c.payload);
          payload_length = c.payload_length;
        })
        provider
