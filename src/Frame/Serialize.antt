-- ===== src/Frame/Serialize.antt =====
-- src/gvs_serialize.c and src/gvs_serialize.h: the frames that are sent. The header provider is a
-- function of the caller's: it sees the frame that is prepared and gives two eight-byte fields, or
-- refuses. `none` is DF_ERR_INVALID, with `*output_length` set to 0 and no output.
use doorfast.Prelude.{
  ℕ, ◌+◌, ◌/◌, ◌%◌, Bool, true, false, ◌&&◌, ◌||◌, Option, none, some, [], ◌∷◌, ◌++◌, ltb, length,
  if◌then◌else◌, take, Bytes, Address, address_bytes, Block, block_bytes,
}
use doorfast.Frame.{header, header_size}

-- `struct df_gvs_header_request`
pub record HeaderRequest : Type 0 where
  pub destination : Address
  pub source : Address
  pub family : ℕ
  pub opcode : ℕ
  pub payload : Option Bytes
  pub payload_length : ℕ

-- `df_gvs_header_provider_fn` with its context
abbrev pub HeaderProvider : Type 0
HeaderProvider = HeaderRequest → Option (Block × Block)

-- `memcpy(output + 42, payload, payload_length)`
abbrev pub payload_bytes : Option Bytes → ℕ → Bytes
payload_bytes none n = []
payload_bytes (some p) n = take n p

unfoldable pub frame_bytes : HeaderRequest → Block × Block → Bytes
frame_bytes r (a, e) =
    header
    ++ (address_bytes r.destination
        ++ (address_bytes r.source
            ++ (block_bytes a
                ++ (block_bytes e
                    ++ (r.family
                        ∷ r.opcode
                        ∷ (r.payload_length % 256)
                        ∷ (r.payload_length / 256 % 256)
                        ∷ payload_bytes r.payload r.payload_length)))))

abbrev is_none : Option Bytes → Bool
is_none none = true
is_none (some p) = false

unfoldable pub control_serialize : ℕ → HeaderRequest → Option HeaderProvider → Option Bytes
unfolding frame_bytes
control_serialize capacity r none = none
control_serialize capacity r (some provide_fields) =
    if (ltb 0 r.payload_length && is_none r.payload)
      || ltb capacity (header_size + r.payload_length)
    then none
    else elim (provide_fields r) [ none ↦ none | some fields ↦ some (frame_bytes r fields) ]

-- `enum df_gvs_presence_action_type` and `struct df_gvs_presence_action` of src/gvs_presence.h
pub data PresenceActionType : Type 0 where
  peer_probe peer_online peer_offline sync_ask sync_version_ask periodic_sync : PresenceActionType

pub record PresenceAction : Type 0 where
  pub kind : PresenceActionType
  pub target : Address
  pub round : ℕ

-- `struct df_gvs_peer_reply` of src/gvs_presence.h; `request_data` is its two bytes.
pub record PeerReply : Type 0 where
  pub target : Address
  pub request_data0 : ℕ
  pub request_data1 : ℕ

-- The family, opcode and payload of an action: the `switch` of the code.
unfoldable pub action_body : PresenceActionType → ℕ → ℕ → Option (ℕ × ℕ × Bytes)
action_body peer_probe round sync_version = some (0x07, 0x01, 0x00 ∷ 0x01 ∷ [])
action_body sync_ask round sync_version =
    if ltb round 1 || ltb 3 round
    then none
    else some (0x91, 0x01, sync_version % 256 ∷ (sync_version / 256 % 256) ∷ (round % 256) ∷ [])
action_body sync_version_ask round sync_version = some (0x91, 0x02, [])
action_body peer_online round sync_version = none
action_body peer_offline round sync_version = none
action_body periodic_sync round sync_version = none

abbrev pub payload_of : Bytes → Option Bytes
payload_of [] = none
payload_of (x ∷ xs) = some (x ∷ xs)

-- What both serializers below hand to `df_gvs_control_serialize`: an empty payload goes as a null
-- pointer.
abbrev pub request_of : Address → Address → ℕ → ℕ → Bytes → HeaderRequest
request_of target source family opcode body = record {
  destination = target;
  source = source;
  family = family;
  opcode = opcode;
  payload = payload_of body;
  payload_length = length body;
}

unfoldable pub presence_action_serialize :
    PresenceAction → Address → ℕ → ℕ → Option HeaderProvider → Option Bytes
unfolding action_body control_serialize
presence_action_serialize action source sync_version capacity provide_fields =
    elim (action_body action.kind action.round sync_version) [
      | none ↦ none
      | some (family, opcode, body) ↦
          control_serialize capacity (request_of action.target source family opcode body)
            provide_fields
    ]

-- The two echoed bytes and four zeros.
unfoldable pub peer_reply_serialize : PeerReply → Address → ℕ → Option HeaderProvider → Option Bytes
unfolding control_serialize
peer_reply_serialize reply source capacity provide_fields =
    control_serialize capacity
      (request_of reply.target source 0x07 0x81
        (reply.request_data0 ∷ reply.request_data1 ∷ 0 ∷ 0 ∷ 0 ∷ 0 ∷ []))
      provide_fields
