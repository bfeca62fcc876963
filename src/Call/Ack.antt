-- ===== src/Call/Ack.antt =====
-- src/gvs_call_ack.c and src/gvs_call_ack.h: the station's acknowledgement of a command that was sent.
pub mod Confirm
pub mod Safety
use doorfast.Prelude.{
  ℕ, ◌+◌, ◌-◌, Bool, true, false, ◌&&◌, ◌||◌, not, Option, none, some, ltb, leb, ◌==◌,
  if◌then◌else◌, take, drop, get_or, Status, ok, err_invalid, u64_max, Bytes, Address, zero_address,
  addr_eq, bytes_eq,
}
use doorfast.Frame.{Frame, Event, parse}
use doorfast.Session.{Session, is_active, in_state, ringing, preview}
use doorfast.Call.Command.{
  CallCommand, CommandType, answer, hangup, call, is_command, is_pick, payload_list,
}
use doorfast.Call.Dispatch.{Dispatch, DispatchState, sent, empty_command}

-- `enum df_gvs_call_ack_state`
pub data AckState : Type 0 where
  empty waiting confirmed expired cancelled : AckState

-- `struct df_gvs_call_ack`
pub record Ack : Type 0 where
  pub state : AckState
  pub command : CallCommand
  pub last_now_ms : ℕ
  pub deadline_ms : ℕ

abbrev pub is_ack_waiting : AckState → Bool
is_ack_waiting waiting = true
is_ack_waiting _ = false

abbrev pub is_sent : DispatchState → Bool
is_sent sent = true
is_sent _ = false

-- `df_gvs_call_ack_command_valid`
unfoldable pub command_valid : CallCommand → Bool
command_valid c =
    if not c.valid
      || (c.session_generation == 0
          || (addr_eq c.source zero_address || addr_eq c.destination zero_address))
    then false
    else if is_pick c.kind
    then c.opcode == 0x03
      && (c.payload_length == 7
          && (c.payload.p0 == 0x02
              && (c.payload.p3 == 0
                  && ((not (c.payload.p1 == 0) || not (c.payload.p2 == 0))
                      && ((not (c.payload.p4 == 0) || not (c.payload.p5 == 0))
                          && not (c.payload.p6 == 0))))))
    else is_command c.kind hangup && (c.opcode == 0x02 && c.payload_length == 1)

-- `df_gvs_call_ack_current`, of the acknowledgement's command
unfoldable pub ack_current : CallCommand → Session → Address → Bool
ack_current c s local =
    if not (c.session_generation == s.generation)
      || (not (addr_eq c.destination s.peer) || not (addr_eq c.source local))
    then false
    else if is_command c.kind answer
    then in_state s.state ringing
    else if is_command c.kind call
    then in_state s.state preview
    else is_command c.kind hangup && is_active s.state

-- The reply to a pick: zero, the five bytes of the ports as they were sent, a duration.
unfoldable pub pick_reply_matches : CallCommand → Option Bytes → Bool
pick_reply_matches c none = false
pick_reply_matches c (some p) =
    get_or p 0 0 == 0
    && (bytes_eq (take 5 (drop 1 p)) (take 5 (drop 1 (payload_list c.payload)))
        && not (get_or p 6 0 == 0))

-- `df_gvs_call_ack_frame_matches`
unfoldable pub frame_matches : CallCommand → Frame → Bool
unfolding pick_reply_matches
frame_matches c f =
    if not (f.family == 0x03)
      || (not (addr_eq f.source c.destination) || not (addr_eq f.destination c.source))
    then false
    else if is_command c.kind hangup
    then f.opcode == 0x82 && f.payload_length == 0
    else is_pick c.kind
      && (f.opcode == 0x83 && (f.payload_length == 7 && pick_reply_matches c f.payload))

-- `df_gvs_call_ack_init`
abbrev pub ack_init : ℕ → Ack
ack_init now_ms = record {
  state = empty;
  command = empty_command;
  last_now_ms = now_ms;
  deadline_ms = 0;
}

-- `df_gvs_call_ack_begin`
unfoldable pub ack_begin : Ack → Dispatch → Session → Address → ℕ → ℕ → Status × Ack
unfolding command_valid ack_current
ack_begin a d s local now_ms timeout_ms =
    if is_ack_waiting a.state
      || (not (is_sent d.state)
          || (not (command_valid d.command)
              || (timeout_ms == 0
                  || (ltb now_ms a.last_now_ms || ltb (u64_max - timeout_ms) now_ms))))
    then (err_invalid, a)
    else if not (ack_current d.command s local)
    then (err_invalid, a)
    else (
      ok,
      record {
        state = waiting;
        command = d.command;
        last_now_ms = now_ms;
        deadline_ms = now_ms + timeout_ms;
      },
    )

-- `df_gvs_call_ack_observe`
unfoldable pub ack_observe : Ack → Session → Address → Frame → ℕ → Status × Ack
unfolding ack_current frame_matches
ack_observe a s local f now_ms =
    if not (is_ack_waiting a.state)
      || (ltb now_ms a.last_now_ms
          || (leb a.deadline_ms now_ms
              || (not (ack_current a.command s local) || not (frame_matches a.command f))))
    then (err_invalid, a)
    else (ok, record a { last_now_ms = now_ms; deadline_ms = 0; state = confirmed })

-- `df_gvs_call_ack_tick`
unfoldable pub ack_tick : Ack → Session → Address → ℕ → Status × Ack
unfolding ack_current
ack_tick a s local now_ms =
    if ltb now_ms a.last_now_ms
    then (err_invalid, a)
    else if not (is_ack_waiting a.state)
    then (ok, record a { last_now_ms = now_ms })
    else if not (ack_current a.command s local)
    then (ok, record a { last_now_ms = now_ms; state = cancelled; deadline_ms = 0 })
    else if leb a.deadline_ms now_ms
    then (ok, record a { last_now_ms = now_ms; state = expired; deadline_ms = 0 })
    else (ok, record a { last_now_ms = now_ms })

unfoldable pub ack_parsed : Ack → Session → Address → ℕ → Option (Frame × Event) → Status × Ack
unfolding ack_observe
ack_parsed a s local now_ms none = (err_invalid, a)
ack_parsed a s local now_ms (some (f, e)) = ack_observe a s local f now_ms

-- `df_gvs_call_ack_receive`
unfoldable pub ack_receive : Ack → Session → Address → Bytes → ℕ → Status × Ack
unfolding ack_parsed parse
ack_receive a s local datagram now_ms = ack_parsed a s local now_ms (parse datagram)
