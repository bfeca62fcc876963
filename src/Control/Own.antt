-- ===== src/Control/Own.antt =====
-- src/gvs_call_control.c: the unit's own answer, which it receives once it has sent it.
use doorfast.Prelude.{ℕ, ◌≡◌, refl, true, Option, none, some, arith, Bytes, Address}
use doorfast.Frame.{Frame, parse, event_of}
use doorfast.Frame.Serialize.{HeaderRequest, control_serialize}
use doorfast.Frame.RoundTrip.{parse-control_serialize}
use doorfast.Session.{Session, session_observe_pick}
use doorfast.Deadline.{Deadline}
use doorfast.Call.Command.{CallCommand, is_pick, payload_list, command_serialize}
use doorfast.Call.Sender.{placeholder_fields}
use doorfast.Receive.{receive_pick, receive_frame, receive_datagram}
use doorfast.Control.Step.{Work, receive_sent}

pick_frame : CallCommand → Frame
pick_frame c = record {
  destination = c.destination;
  source = c.source;
  family = 0x03;
  opcode = 0x03;
  payload_length = 7;
  payload = some (payload_list c.payload);
}

pick_request : CallCommand → HeaderRequest
pick_request c = record {
  destination = c.destination;
  source = c.source;
  family = 0x03;
  opcode = c.opcode;
  payload = some (payload_list c.payload);
  payload_length = c.payload_length;
}

-- What has been serialized is an answer of seven bytes.
command_serialize-pick :
    (c : CallCommand) {out : Bytes}
    → is_pick c.kind ≡ true
    → command_serialize c 49 (some placeholder_fields) ≡ some out
    → (c.opcode ≡ 3)
      × (c.payload_length ≡ 7)
      × (control_serialize 49 (pick_request c) (some placeholder_fields) ≡ some out)
unfolding command_serialize pick_request
command_serialize-pick c pick h = ground arith

parse-pick :
    (c : CallCommand) {out : Bytes}
    → is_pick c.kind ≡ true
    → command_serialize c 49 (some placeholder_fields) ≡ some out
    → parse out ≡ some (pick_frame c, event_of (pick_frame c))
unfolding pick_frame pick_request
parse-pick c pick h =
    let (opcode, seven, serialized) = command_serialize-pick c pick h in
    let parsed =
      parse-control_serialize 49 (pick_request c) (some placeholder_fields) (omega arith)
        (omega arith) serialized in
    rw (opcode, seven) at parsed

-- The unit's own answer leaves the session's number and state: it only opens the window for the reply.
receive_pick-state :
    (f : Frame) (identity : Address) (s : Session) (d : Deadline) (now_ms : ℕ)
    → f.opcode ≡ 3
    → ((receive_pick f identity s d now_ms).1.generation ≡ s.generation)
      × ((receive_pick f identity s d now_ms).1.state ≡ s.state)
unfolding receive_pick session_observe_pick
receive_pick-state f identity s d now_ms e = (ground arith, ground arith)

pub receive_datagram-own :
    (c : CallCommand) (local : Address) (s : Session) (d : Deadline) (now_ms : ℕ) {out : Bytes}
    → is_pick c.kind ≡ true
    → command_serialize c 49 (some placeholder_fields) ≡ some out
    → ((receive_datagram out local s d now_ms).1.generation ≡ s.generation)
      × ((receive_datagram out local s d now_ms).1.state ≡ s.state)
unfolding receive_datagram receive_frame pick_frame
receive_datagram-own c local s d now_ms pick h =
    rw (parse-pick c pick h) (receive_pick-state (pick_frame c) local s d now_ms refl)

receive_sent-frame :
    (c : CallCommand) (local : Address) (now_ms : ℕ) (w v : Work) (o : Option Bytes)
    → is_pick c.kind ≡ true
    → command_serialize c 49 (some placeholder_fields) ≡ o
    → receive_sent o local now_ms w ≡ some v
    → (v.session.generation ≡ w.session.generation)
      × (v.session.state ≡ w.session.state)
      × (v.control ≡ w.control)
      × (v.result ≡ w.result)
unfolding receive_sent
receive_sent-frame c local now_ms w v none pick e h = absurd (ground arith)
receive_sent-frame c local now_ms w v (some frame) pick e h =
    ground (arith, receive_datagram-own c local w.session w.deadline now_ms pick e)

-- Receiving its own answer leaves the control and the session's number and state as they are.
pub receive_sent-own :
    (c : CallCommand) (local : Address) (now_ms : ℕ) (w v : Work)
    → is_pick c.kind ≡ true
    → receive_sent (command_serialize c 49 (some placeholder_fields)) local now_ms w ≡ some v
    → (v.session.generation ≡ w.session.generation)
      × (v.session.state ≡ w.session.state)
      × (v.control ≡ w.control)
      × (v.result ≡ w.result)
receive_sent-own c local now_ms w v pick h =
    receive_sent-frame c local now_ms w v (command_serialize c 49 (some placeholder_fields)) pick
      refl h
