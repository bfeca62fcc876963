-- ===== src/Handshake.antt =====
-- src/gvs_handshake.c and src/gvs_handshake.h: the keep-alive of a call. An operation returns its
-- status, the handshake and the session as it leaves them, and `*result`, zeroed on a refusal.
pub mod Invariant
pub mod Disconnect
pub mod Traffic
mod Tests
use doorfast.Prelude.{
  ℕ, ◌+◌, ◌-◌, Bool, true, false, ◌&&◌, ◌||◌, not, Option, none, some, ltb, leb, ◌==◌,
  if◌then◌else◌, Status, ok, err_invalid, is_ok, u64_max, Bytes, Address, zero_address, addr_eq,
}
use doorfast.Frame.{Frame, Event, parse}
use doorfast.Frame.Serialize.{HeaderProvider, control_serialize}
use doorfast.Session.{Session, is_active, session_abort}

-- `enum df_gvs_handshake_action_type`
pub data ActionType : Type 0 where
  nothing ask reply : ActionType

-- `struct df_gvs_handshake_action`
pub record HandshakeAction : Type 0 where
  pub valid : Bool
  pub kind : ActionType
  pub destination : Address
  pub source : Address
  pub session_generation : ℕ

-- `struct df_gvs_handshake`
pub record Handshake : Type 0 where
  pub active : Bool
  pub peer : Address
  pub local : Address
  pub session_generation : ℕ
  pub next_probe_ms : ℕ
  pub last_now_ms : ℕ
  pub missed_replies : ℕ

-- `struct df_gvs_handshake_result`
pub record HandshakeResult : Type 0 where
  pub action : HandshakeAction
  pub accepted_ask : Bool
  pub accepted_reply : Bool
  pub disconnected : Bool

abbrev pub no_action : HandshakeAction
no_action = record {
  valid = false;
  kind = nothing;
  destination = zero_address;
  source = zero_address;
  session_generation = 0;
}

abbrev pub no_result : HandshakeResult
no_result = record {
  action = no_action;
  accepted_ask = false;
  accepted_reply = false;
  disconnected = false;
}

abbrev pub empty_handshake : Handshake
empty_handshake = record {
  active = false;
  peer = zero_address;
  local = zero_address;
  session_generation = 0;
  next_probe_ms = 0;
  last_now_ms = 0;
  missed_replies = 0;
}

abbrev pub interval_ms : ℕ
interval_ms = 2000

abbrev pub max_missed_replies : ℕ
max_missed_replies = 5

-- `df_gvs_handshake_nonzero`
abbrev pub nonzero : Address → Bool
nonzero a = not (addr_eq a zero_address)

-- `df_gvs_handshake_current`
unfoldable pub handshake_current : Handshake → Session → Address → Bool
handshake_current h s local =
    h.active
    && (is_active s.state
        && (h.session_generation == s.generation
            && (addr_eq h.peer s.peer && addr_eq h.local local)))

-- `df_gvs_handshake_stop`
abbrev pub stop : Handshake → Handshake
stop h = record h { active = false; next_probe_ms = 0; missed_replies = 0 }

-- `df_gvs_handshake_prepare_action`
abbrev pub prepare_action : Handshake → ActionType → HandshakeAction
prepare_action h kind = record {
  valid = true;
  kind = kind;
  destination = h.peer;
  source = h.local;
  session_generation = h.session_generation;
}

-- `df_gvs_handshake_start`; a refusal leaves the handshake zeroed.
unfoldable pub handshake_start : Session → Address → ℕ → Status × Handshake
handshake_start s local now_ms =
    if not (is_active s.state)
      || (s.generation == 0
          || (not (nonzero s.peer) || (not (nonzero local) || ltb (u64_max - interval_ms) now_ms)))
    then (err_invalid, empty_handshake)
    else (
      ok,
      record {
        active = true;
        peer = s.peer;
        local = local;
        session_generation = s.generation;
        next_probe_ms = now_ms;
        last_now_ms = now_ms;
        missed_replies = 0;
      },
    )

-- The end of the branch that gives the call up.
unfoldable pub give_up :
    Handshake
    → Session
    → ℕ
    → Status × Session × Bool
    → Status × Handshake × Session × HandshakeResult
give_up h s now_ms (status, ended_session, done) =
    if not (is_ok status) || not done then (err_invalid, h, s, no_result) else (
      ok,
      stop (record h { last_now_ms = now_ms }),
      ended_session,
      record no_result { disconnected = true },
    )

-- `df_gvs_handshake_tick`
unfoldable pub handshake_tick :
    Handshake → Session → Address → ℕ → Status × Handshake × Session × HandshakeResult
unfolding handshake_current give_up session_abort
handshake_tick h s local now_ms =
    if ltb now_ms h.last_now_ms
    then (err_invalid, h, s, no_result)
    else if not h.active
    then (ok, record h { last_now_ms = now_ms }, s, no_result)
    else if not (handshake_current h s local)
    then (ok, stop (record h { last_now_ms = now_ms }), s, no_result)
    else if ltb now_ms h.next_probe_ms
    then (ok, record h { last_now_ms = now_ms }, s, no_result)
    else if leb max_missed_replies h.missed_replies || ltb (u64_max - interval_ms) now_ms
    then give_up h s now_ms (session_abort s)
    else (
      ok,
      record h {
        last_now_ms = now_ms;
        missed_replies = h.missed_replies + 1;
        next_probe_ms = now_ms + interval_ms;
      },
      s,
      record no_result { action = prepare_action h ask },
    )

-- The tests of `df_gvs_handshake_receive` on a parsed frame.
unfoldable pub expected_frame : Handshake → Frame → Bool
expected_frame h f =
    f.family == 0x03
    && ((f.opcode == 0x51 || f.opcode == 0x52)
        && (f.payload_length == 0 && (addr_eq f.source h.peer && addr_eq f.destination h.local)))

-- What an expected frame does: a question is answered, an answer is noted.
unfoldable pub accept_frame : Handshake → Frame → ℕ → Status × Handshake × HandshakeResult
accept_frame h f now_ms =
    if f.opcode == 0x51
    then (if ltb (u64_max - interval_ms) now_ms then (err_invalid, h, no_result) else (
      ok,
      record h { last_now_ms = now_ms; missed_replies = 0; next_probe_ms = now_ms + interval_ms },
      record no_result { accepted_ask = true; action = prepare_action h reply },
    ))
    else (
      ok,
      record h { last_now_ms = now_ms; missed_replies = 0 },
      record no_result { accepted_reply = true },
    )

unfoldable pub receive_frame :
    Handshake → ℕ → Option (Frame × Event) → Status × Handshake × HandshakeResult
unfolding expected_frame accept_frame
receive_frame h now_ms none = (err_invalid, h, no_result)
receive_frame h now_ms (some (f, e)) =
    if not h.active || not (expected_frame h f)
    then (err_invalid, h, no_result)
    else accept_frame h f now_ms

-- `df_gvs_handshake_receive`
unfoldable pub handshake_receive :
    Handshake → Bytes → Session → Address → ℕ → Status × Handshake × HandshakeResult
handshake_receive h datagram s local now_ms =
    if ltb now_ms h.last_now_ms
    then (err_invalid, h, no_result)
    else if h.active && not (handshake_current h s local)
    then (ok, stop (record h { last_now_ms = now_ms }), no_result)
    else receive_frame h now_ms (parse datagram)

abbrev pub action_opcode : ActionType → ℕ
action_opcode nothing = 0
action_opcode ask = 0x51
action_opcode reply = 0x52

abbrev pub is_action : ActionType → Bool
is_action nothing = false
is_action ask = true
is_action reply = true

-- `df_gvs_handshake_action_serialize`
unfoldable pub action_serialize : HandshakeAction → ℕ → Option HeaderProvider → Option Bytes
action_serialize a capacity provider =
    if not a.valid
      || (a.session_generation == 0
          || (not (nonzero a.destination) || (not (nonzero a.source) || not (is_action a.kind))))
    then none
    else control_serialize capacity
        (record {
          destination = a.destination;
          source = a.source;
          family = 0x03;
          opcode = action_opcode a.kind;
          payload = none;
          payload_length = 0;
        })
        provider
