-- ===== src/Access.antt =====
-- src/gvs_access.c and src/gvs_access.h: one direct unlock request for the station of the call, and
-- what its reply says. The sender is a callback: here a function from the request to the status that
-- it returns, and an operation also returns the requests that it handed over.
pub mod Control
pub mod Result
pub mod Reply
pub mod Once
mod Tests
use doorfast.Prelude.{
  ℕ, suc, ◌+◌, ◌-◌, ◌*◌, ◌%◌, Bool, true, false, ◌&&◌, ◌||◌, not, Option, none, some, List, [], ◌∷◌,
  ◌++◌, ltb, leb, ◌==◌, if◌then◌else◌, length, get_or, take, drop, Status, ok, err_invalid, is_ok,
  u64_max, Bytes, Block, zero_block, block_bytes, Address, zero_address, addr_eq,
}
use doorfast.Frame.{Frame}
use doorfast.Frame.Serialize.{HeaderProvider, control_serialize}
use doorfast.Session.{Session, is_active, is_null}

-- `struct df_gvs_access_request`
pub record AccessRequest : Type 0 where
  pub valid : Bool
  pub session_generation : ℕ
  pub destination : Address
  pub source : Address
  pub material : Block

-- `enum df_gvs_access_result_state`
pub data AccessState : Type 0 where
  empty waiting completed rejected expired cancelled send_failed : AccessState

-- `struct df_gvs_access_result`
pub record AccessResult : Type 0 where
  pub state : AccessState
  pub session_generation : ℕ
  pub last_now_ms : ℕ
  pub deadline_ms : ℕ
  pub reply_ms : ℕ
  pub destination : Address
  pub source : Address
  pub raw_status : ℕ
  pub physical_result_confirmed : Bool

abbrev pub is_waiting : AccessState → Bool
is_waiting waiting = true
is_waiting _ = false

-- `df_gvs_access_address_valid`
abbrev pub address_valid : Address → Bool
address_valid a = not (addr_eq a zero_address)

-- `df_gvs_access_target_supported`
abbrev pub target_supported : Address → Bool
target_supported a = a.b0 == 0x32 || (a.b0 == 0x13 || a.b0 == 0x62)

-- `df_gvs_access_result_current`
unfoldable pub result_current : AccessResult → Session → Address → Bool
result_current r s local =
    r.session_generation == s.generation
    && (is_active s.state && (addr_eq r.destination s.peer && addr_eq r.source local))

-- `df_gvs_access_prepare_direct`; on a refusal `*request` is zeroed.
unfoldable pub prepare_direct : Session → ℕ → Address → Block → Option AccessRequest
prepare_direct s generation source material =
    if generation == 0
      || (not (s.generation == generation)
          || (not (is_active s.state)
              || (not (address_valid source)
                  || (not (address_valid s.peer) || not (target_supported s.peer)))))
    then none
    else some (record {
      valid = true;
      session_generation = generation;
      destination = s.peer;
      source = source;
      material = material;
    })

-- The declared length of the frame is set to 12 after the eight bytes of material.
abbrev patch_length : Bytes → Bytes
patch_length frame = take 40 frame ++ (0x0c ∷ 0x00 ∷ drop 42 frame)

abbrev checked_frame : Option Bytes → Option Bytes
checked_frame none = none
checked_frame (some frame) = if length frame == 50 then some (patch_length frame) else none

-- `df_gvs_access_serialize_direct`
unfoldable pub serialize_direct : AccessRequest → ℕ → Option HeaderProvider → Option Bytes
unfolding control_serialize
serialize_direct r capacity provider =
    if not r.valid || ltb capacity 50
    then none
    else checked_frame (
        control_serialize 50
          (record {
            destination = r.destination;
            source = r.source;
            family = 0x04;
            opcode = 0x09;
            payload = some (block_bytes r.material);
            payload_length = 8;
          })
          provider)

-- `df_gvs_access_result_init`
abbrev pub result_init : ℕ → AccessResult
result_init now_ms = record {
  state = empty;
  session_generation = 0;
  last_now_ms = now_ms;
  deadline_ms = 0;
  reply_ms = 0;
  destination = zero_address;
  source = zero_address;
  raw_status = 0;
  physical_result_confirmed = false;
}

-- `df_gvs_access_result_begin`
unfoldable pub result_begin : AccessResult → Session → ℕ → Address → ℕ → ℕ → Status × AccessResult
result_begin r s generation local now_ms timeout_ms =
    if is_waiting r.state
      || (ltb now_ms r.last_now_ms
          || (timeout_ms == 0
              || (ltb (u64_max - timeout_ms) now_ms
                  || (generation == 0
                      || (not (s.generation == generation)
                          || (not (is_active s.state)
                              || (not (target_supported s.peer) || not (address_valid local))))))))
    then (err_invalid, r)
    else (
      ok,
      record r {
        state = waiting;
        session_generation = generation;
        last_now_ms = now_ms;
        deadline_ms = now_ms + timeout_ms;
        reply_ms = 0;
        raw_status = 0;
        physical_result_confirmed = false;
        destination = s.peer;
        source = local;
      },
    )

-- `frame->payload[0]`
abbrev pub first_byte : Option Bytes → ℕ
first_byte none = 0
first_byte (some p) = get_or p 0 0

-- `df_gvs_access_result_observe`
unfoldable pub result_observe : AccessResult → Session → Address → Frame → ℕ → Status × AccessResult
unfolding result_current
result_observe r s local f now_ms =
    if not (is_waiting r.state)
      || (ltb now_ms r.last_now_ms
          || (leb r.deadline_ms now_ms
              || (not (result_current r s local)
                  || (not (f.family == 0x04)
                      || (not (f.opcode == 0x89)
                          || (is_null f.payload
                              || (not (f.payload_length == 1)
                                  || (not (addr_eq f.source r.destination)
                                      || not (addr_eq f.destination r.source)))))))))
    then (err_invalid, r)
    else (
      ok,
      record r {
        last_now_ms = now_ms;
        deadline_ms = 0;
        reply_ms = now_ms;
        raw_status = first_byte f.payload;
        physical_result_confirmed = false;
        state = if first_byte f.payload == 0x01 then completed else rejected;
      },
    )

-- `df_gvs_access_result_tick`
unfoldable pub result_tick : AccessResult → Session → Address → ℕ → Status × AccessResult
unfolding result_current
result_tick r s local now_ms =
    if ltb now_ms r.last_now_ms
    then (err_invalid, r)
    else if not (is_waiting r.state)
    then (ok, record r { last_now_ms = now_ms })
    else if not (result_current r s local)
    then (ok, record r { last_now_ms = now_ms; state = cancelled; deadline_ms = 0 })
    else if leb r.deadline_ms now_ms
    then (ok, record r { last_now_ms = now_ms; state = expired; deadline_ms = 0 })
    else (ok, record r { last_now_ms = now_ms })
