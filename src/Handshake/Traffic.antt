-- ===== src/Handshake/Traffic.antt =====
-- src/gvs_handshake.c: the two ends of a keep-alive, over the frames that they exchange.
use doorfast.Prelude.{
  ℕ, ◌+◌, ◌≤◌, ◌≡◌, refl, true, Option, none, some, [], arith, Status, ok, u64_max, Bytes, Address,
  addr_eq, addr_eq_complete,
}
use doorfast.Frame.{Frame, Event, parse, event_of}
use doorfast.Frame.Serialize.{HeaderProvider, HeaderRequest, control_serialize}
use doorfast.Frame.RoundTrip.{sent_frame, parse-control_serialize}
use doorfast.Session.{Session}
use doorfast.Handshake.{
  Handshake, HandshakeResult, HandshakeAction, ActionType, nothing, ask, reply, action_opcode,
  is_action, action_serialize, interval_ms, no_result, prepare_action, handshake_current,
  handshake_receive, receive_frame,
}

-- The request that an action is serialized as.
abbrev action_request : HandshakeAction → HeaderRequest
action_request a = record {
  destination = a.destination;
  source = a.source;
  family = 0x03;
  opcode = action_opcode a.kind;
  payload = none;
  payload_length = 0;
}

action_serialize_inv :
    (a : HandshakeAction) (capacity : ℕ) (provider : Option HeaderProvider) {out : Bytes}
    → action_serialize a capacity provider ≡ some out
    → (control_serialize capacity (action_request a) provider ≡ some out)
      × (is_action a.kind ≡ true)
unfolding action_serialize
action_serialize_inv a capacity provider h = (ground arith, ground arith)

receive_parsed :
    (k : Handshake) (s : Session) (local : Address) (now_ms : ℕ) (datagram : Bytes)
    (fe : Frame × Event)
    → parse datagram ≡ some fe
    → handshake_current k s local ≡ true
    → k.last_now_ms ≤ now_ms
    → handshake_receive k datagram s local now_ms ≡ receive_frame k now_ms (some fe)
unfolding handshake_receive
receive_parsed k s local now_ms datagram fe p c l = rw (p) (ground arith)

current_active :
    (k : Handshake) (s : Session) (local : Address)
    → handshake_current k s local ≡ true
    → k.active ≡ true
unfolding handshake_current
current_active k s local c = ground arith

-- What the other end makes of an action's frame.
abbrev answer_to : ActionType → Handshake → HandshakeResult
answer_to nothing k = no_result
answer_to ask k = record no_result { accepted_ask = true; action = prepare_action k reply }
answer_to reply k = record no_result { accepted_reply = true }

module _ (k : Handshake) (now_ms : ℕ) (on : k.active ≡ true)
    (room : now_ms + interval_ms ≤ u64_max) where
  abbrev Answered : ActionType → Status × Handshake × HandshakeResult → Type 0
  Answered kind o =
      (o.0 ≡ ok) × (o.2 ≡ answer_to kind k) × (o.1.missed_replies ≡ 0) × (o.1.last_now_ms ≡ now_ms)

  receive_frame-Answered :
      (kind : ActionType) (f : Frame) (e : Event)
      → is_action kind ≡ true
      → f.family ≡ 0x03
      → f.opcode ≡ action_opcode kind
      → f.payload_length ≡ 0
      → addr_eq f.source k.peer ≡ true
      → addr_eq f.destination k.local ≡ true
      → Answered kind (receive_frame k now_ms (some (f, e)))
  unfolding receive_frame
  receive_frame-Answered nothing f e a fam op len src dst = cc
  receive_frame-Answered ask f e a fam op len src dst = ground arith
  receive_frame-Answered reply f e a fam op len src dst = ground arith

-- Any action that is serialized is accepted by the keep-alive of the other end, where that is active
-- and its clock does not run back or out: a question is answered by a reply to the asker, a reply is
-- noted, and in both cases nothing remains unanswered.
pub handshake_receive-action_serialize :
    (a : HandshakeAction) (capacity : ℕ) (provider : Option HeaderProvider) {out : Bytes}
    (k : Handshake) (s : Session) (local : Address) (now_ms : ℕ)
    → action_serialize a capacity provider ≡ some out
    → handshake_current k s local ≡ true
    → a.destination ≡ k.local
    → a.source ≡ k.peer
    → k.last_now_ms ≤ now_ms
    → now_ms + interval_ms ≤ u64_max
    → let (status, l, r) = handshake_receive k out s local now_ms in
      (status ≡ ok) × (r ≡ answer_to a.kind k) × (l.missed_replies ≡ 0) × (l.last_now_ms ≡ now_ms)
handshake_receive-action_serialize a capacity provider {out} k s local now_ms h c d e l room =
    let (sent, kind) = action_serialize_inv a capacity provider h in
    let f = sent_frame (action_request a) [] in
    let p = parse-control_serialize capacity (action_request a) provider tt (omega arith) sent in
    rw (receive_parsed k s local now_ms out (f, event_of f) p c l) (
      receive_frame-Answered k now_ms (current_active k s local c) room a.kind f (event_of f) kind
        refl refl refl (addr_eq_complete a.source k.peer e)
        (addr_eq_complete a.destination k.local d))
