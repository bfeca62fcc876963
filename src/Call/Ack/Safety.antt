-- ===== src/Call/Ack/Safety.antt =====
-- src/gvs_call_ack.c: what a confirmation has seen, and the ends of waiting.
use doorfast.Prelude.{
  ℕ, ◌≤◌, ◌<◌, ◌≡◌, ◌≢◌, refl, ◌∙◌, ◌⊎◌, true, Option, none, some, arith, if◌then◌else◌, ok,
  err_invalid, Bytes, Address, addr_eq_sound,
}
use doorfast.Frame.{Frame, Event, parse}
use doorfast.Session.{Session, is_active}
use doorfast.Call.Command.{CallCommand, hangup}
use doorfast.Call.Ack.{
  Ack, waiting, expired, cancelled, ack_current, frame_matches, ack_observe, ack_parsed,
  ack_receive, ack_tick,
}

-- A frame that answers the acknowledgement's command, in the session's call and in time.
pub record Answers (a : Ack) (s : Session) (local : Address) (now_ms : ℕ) (f : Frame) : Type 0 where
  pub waits : a.state ≡ waiting
  pub in_time : (a.last_now_ms ≤ now_ms) × (now_ms < a.deadline_ms)
  pub generation : a.command.session_generation ≡ s.generation
  pub active : is_active s.state ≡ true
  pub from_peer : f.source ≡ s.peer
  pub to_local : f.destination ≡ local
  pub family : f.family ≡ 0x03
  pub opcode :
      (a.command.kind ≡ hangup) × (f.opcode ≡ 0x82) × (f.payload_length ≡ 0)
      ⊎ (a.command.kind ≢ hangup) × (f.opcode ≡ 0x83) × (f.payload_length ≡ 7)

ack_current_inv :
    (c : CallCommand) (s : Session) (local : Address)
    → ack_current c s local ≡ true
    → (c.session_generation ≡ s.generation)
      × (c.destination ≡ s.peer)
      × (c.source ≡ local)
      × (is_active s.state ≡ true)
unfolding ack_current
ack_current_inv c s local h =
    let peer = addr_eq_sound c.destination s.peer in
    let own = addr_eq_sound c.source local in
    (ground arith, ground arith, ground arith, ground arith)

frame_matches_inv :
    (c : CallCommand) (f : Frame)
    → frame_matches c f ≡ true
    → (f.family ≡ 0x03)
      × (f.source ≡ c.destination)
      × (f.destination ≡ c.source)
      × ((c.kind ≡ hangup) × (f.opcode ≡ 0x82) × (f.payload_length ≡ 0)
          ⊎ (c.kind ≢ hangup) × (f.opcode ≡ 0x83) × (f.payload_length ≡ 7))
unfolding frame_matches
frame_matches_inv c f h =
    let peer = addr_eq_sound f.source c.destination in
    let own = addr_eq_sound f.destination c.source in
    (ground arith, ground arith, ground arith, ground arith)

ack_observe_inv :
    (a : Ack) (s : Session) (local : Address) (f : Frame) (now_ms : ℕ)
    → (ack_observe a s local f now_ms).0 ≡ ok
    → (a.state ≡ waiting)
      × (a.last_now_ms ≤ now_ms)
      × (now_ms < a.deadline_ms)
      × (ack_current a.command s local ≡ true)
      × (frame_matches a.command f ≡ true)
unfolding ack_observe
ack_observe_inv a s local f now_ms h =
    (ground arith, ground arith, ground arith, ground arith, ground arith)

observed-Answers :
    (a : Ack) (s : Session) (local : Address) (f : Frame) (now_ms : ℕ)
    → (ack_observe a s local f now_ms).0 ≡ ok
    → Answers a s local now_ms f
observed-Answers a s local f now_ms h =
    let (waits, after, before, current, matches) = ack_observe_inv a s local f now_ms h in
    let (generation, peer, own, active) = ack_current_inv a.command s local current in
    let (family, from, to, opcode) = frame_matches_inv a.command f matches in
    record {
      waits = waits;
      in_time = (after, before);
      generation = generation;
      active = active;
      from_peer = from ∙ peer;
      to_local = to ∙ own;
      family = family;
      opcode = opcode;
    }

parsed-Answers :
    (a : Ack) (s : Session) (local : Address) (now_ms : ℕ) (o : Option (Frame × Event))
    → (ack_parsed a s local now_ms o).0 ≡ ok
    → (fe : Frame × Event) × (o ≡ some fe) × Answers a s local now_ms fe.0
unfolding ack_parsed
parsed-Answers a s local now_ms none h = absurd (ground arith)
parsed-Answers a s local now_ms (some (f, e)) h =
    ((f, e), refl, observed-Answers a s local f now_ms h)

-- A datagram is accepted as an acknowledgement only if it parses as a frame of family 3 from the
-- session's peer to the local unit, in time, while the acknowledgement waits and the session that
-- the command was prepared for is active, with the reply's opcode and length for the command.
pub ack_receive_sound :
    (a : Ack) (s : Session) (local : Address) (datagram : Bytes) (now_ms : ℕ)
    → (ack_receive a s local datagram now_ms).0 ≡ ok
    → (fe : Frame × Event) × (parse datagram ≡ some fe) × Answers a s local now_ms fe.0
unfolding ack_receive
ack_receive_sound a s local datagram now_ms h = parsed-Answers a s local now_ms (parse datagram) h

-- While an acknowledgement waits and the clock does not run back, there are two cases: a tick leaves
-- it waiting, and then a frame at the same time is accepted exactly if it matches the command; or a
-- tick ends it, as cancelled if the session is no longer the command's and as expired if it is, and
-- then every frame at the same time is refused.
pub ack_tick-ack_observe :
    (a : Ack) (s : Session) (local : Address) (f : Frame) (now_ms : ℕ)
    → a.state ≡ waiting
    → a.last_now_ms ≤ now_ms
    → (ack_tick a s local now_ms ≡ (ok, record a { last_now_ms = now_ms }))
        × ((ack_observe a s local f now_ms).0
            ≡ (if frame_matches a.command f then ok else err_invalid))
      ⊎ (ack_tick a s local now_ms ≡ (
        ok,
        record a {
          last_now_ms = now_ms;
          state = if ack_current a.command s local then expired else cancelled;
          deadline_ms = 0;
        },
      ))
        × (ack_observe a s local f now_ms ≡ (err_invalid, a))
unfolding ack_tick ack_observe
ack_tick-ack_observe a s local f now_ms w l = ground arith
