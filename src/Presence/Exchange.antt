-- ===== src/Presence/Exchange.antt =====
-- src/gvs_presence.c with src/gvs_serialize.c: a probe, its answer, and what both units learn.
use doorfast.Prelude.{
  ℕ, ◌≤◌, ◌≡◌, refl, true, false, ◌||◌, Option, some, List, [], ◌∷◌, ltb, arith, ok, Bytes, Address,
  addr_eq_refl, addr_eq, addr_eq_sound, addr_eq_complete, All, ap, ◌∙◌, ◌≢◌, ◌++◌, Bool-cases, inl,
  inr,
}
use doorfast.Frame.{Frame, parse, event_of}
use doorfast.Frame.Serialize.{
  HeaderProvider, PresenceAction, PeerReply, peer_probe, peer_online, presence_action_serialize,
  peer_reply_serialize, request_of,
}
use doorfast.Frame.RoundTrip.{sent_frame, parse-control_serialize}
use doorfast.Presence.{PresencePeer, Presence, Trace, Emit, is_down, presence_emit}
use doorfast.Presence.Receive.{
  refresh_peer, observe_found, observe_peer, receive_peer, receive_peer_frame, receive_peer_request,
  receive_request_frame, answer_request, reply_to, is_peer_request, is_peer_reply,
}

-- What a probe makes the asked unit prepare.
abbrev pub echo_to : Address → PeerReply
echo_to target = record { target = target; request_data0 = 0; request_data1 = 1 }

abbrev pub probe_to : Address → PresenceAction
probe_to target = record { kind = peer_probe; target = target; round = 0 }

parse-probe :
    (target source : Address) (version capacity : ℕ) (provider : Option HeaderProvider)
    {out : Bytes}
    → presence_action_serialize (probe_to target) source version capacity provider ≡ some out
    → let f = sent_frame (request_of target source 0x07 0x01 (0 ∷ 1 ∷ [])) (0 ∷ 1 ∷ []) in
      parse out ≡ some (f, event_of f)
unfolding presence_action_serialize
parse-probe target source version capacity provider h =
    parse-control_serialize capacity (request_of target source 0x07 0x01 (0 ∷ 1 ∷ [])) provider
      (omega arith) (omega arith) h

parse-peer_reply :
    (r : PeerReply) (source : Address) (capacity : ℕ) (provider : Option HeaderProvider)
    {out : Bytes}
    → peer_reply_serialize r source capacity provider ≡ some out
    → let body = r.request_data0 ∷ r.request_data1 ∷ 0 ∷ 0 ∷ 0 ∷ 0 ∷ [] in
      let f = sent_frame (request_of r.target source 0x07 0x81 body) body in
      parse out ≡ some (f, event_of f)
unfolding peer_reply_serialize
parse-peer_reply r source capacity provider h =
    parse-control_serialize capacity
      (request_of r.target source 0x07 0x81
        (r.request_data0 ∷ r.request_data1 ∷ 0 ∷ 0 ∷ 0 ∷ 0 ∷ []))
      provider (omega arith) (omega arith) h

-- Where a station stands in a list of peers: those before it, itself, and those behind. An address that
-- is listed twice counts by its first place.
pub record Lists (peer : Address) (ps : List PresencePeer) : Type 0 where
  pub before : List PresencePeer
  pub entry : PresencePeer
  pub behind : List PresencePeer
  pub split : ps ≡ before ++ (entry ∷ behind)
  pub first : All (λ (p : PresencePeer). p.address ≢ peer) before
  pub same : entry.address ≡ peer

-- The list with that station heard: it is online and has its full 60 seconds again.
abbrev pub heard : {peer : Address} {ps : List PresencePeer} → Lists peer ps → List PresencePeer
heard l = l.before ++ (record l.entry { online = true; seconds_remaining = 60 } ∷ l.behind)

refresh_split :
    (peer : Address) (before : List PresencePeer) (entry : PresencePeer)
    (behind : List PresencePeer)
    → All (λ (p : PresencePeer). p.address ≢ peer) before
    → entry.address ≡ peer
    → refresh_peer peer (before ++ (entry ∷ behind))
      ≡ some (before ++ (record entry { online = true; seconds_remaining = 60 } ∷ behind))
unfolding refresh_peer
refresh_split peer [] entry behind first same = rw (addr_eq_complete entry.address peer same) refl
refresh_split peer (p ∷ before) entry behind (apart, first) same =
    elim (Bool-cases (addr_eq p.address peer)) [
      | inl hit ↦ absurd (apart (addr_eq_sound p.address peer hit))
      | inr miss ↦ rw (miss, refresh_split peer before entry behind first same) refl
    ]

refresh_peer-heard :
    (peer : Address) (ps : List PresencePeer) (l : Lists peer ps)
    → refresh_peer peer ps ≡ some (heard l)
refresh_peer-heard peer ps l =
    ap (refresh_peer peer) l.split ∙ refresh_split peer l.before l.entry l.behind l.first l.same

abbrev pub Accepts : Emit → Address → Trace → Type 0
Accepts emit peer t = (presence_emit peer_online peer 0 emit t).0 ≡ some tt

abbrev pub told : Emit → Address → Trace → Trace
told emit peer t = (presence_emit peer_online peer 0 emit t).1

observe_found_seen :
    (emit : Emit) (p : Presence) (peer : Address) (t : Trace) (qs : List PresencePeer)
    → Accepts emit peer t
    → observe_found emit p peer (some qs) t ≡ (ok, record p { peers = qs }, told emit peer t)
unfolding observe_found
observe_found_seen emit p peer t qs accepts = rw (accepts, observe_found) refl

observe_peer_seen :
    (emit : Emit) (p : Presence) (peer : Address) (t : Trace) {qs : List PresencePeer}
    → is_down p.phase ≡ false
    → refresh_peer peer p.peers ≡ some qs
    → Accepts emit peer t
    → observe_peer (some emit) p peer t ≡ (ok, record p { peers = qs }, told emit peer t)
unfolding observe_peer
observe_peer_seen emit p peer t {qs} up found accepts =
    rw (up, found) (observe_found_seen emit p peer t qs accepts)

module _ (p : Presence) (now_ms : ℕ) (up : is_down p.phase ≡ false)
    (fresh : p.last_now_ms ≤ now_ms) where
  guard_fresh : ltb now_ms p.last_now_ms ≡ false
  guard_fresh = ground arith

  guard_passes : (is_down p.phase || ltb now_ms p.last_now_ms) ≡ false
  guard_passes = ground arith

module _ (emit : Emit) (p : Presence) (now_ms : ℕ) (t : Trace) (up : is_down p.phase ≡ false)
    (fresh : p.last_now_ms ≤ now_ms) where
  request_accepted :
      (datagram : Bytes) (f : Frame) {qs : List PresencePeer}
      → refresh_peer f.source p.peers ≡ some qs
      → Accepts emit f.source t
      → parse datagram ≡ some (f, event_of f)
      → is_peer_request p f ≡ true
      → receive_peer_request (some emit) p datagram now_ms t ≡ (
        ok,
        record p { peers = qs; last_now_ms = now_ms },
        reply_to f,
        true,
        told emit f.source t,
      )
  unfolding receive_peer_request receive_request_frame answer_request
  request_accepted datagram f found accepts parsed request =
      rw
        (
          parsed,
          guard_passes p now_ms up fresh,
          request,
          found,
          observe_peer_seen emit p f.source t up found accepts,
        )
        refl

  reply_accepted :
      (datagram : Bytes) (f : Frame) {qs : List PresencePeer}
      → refresh_peer f.source p.peers ≡ some qs
      → Accepts emit f.source t
      → parse datagram ≡ some (f, event_of f)
      → is_peer_reply p f ≡ true
      → receive_peer (some emit) p datagram now_ms t
        ≡ (ok, record p { peers = qs; last_now_ms = now_ms }, told emit f.source t)
  unfolding receive_peer receive_peer_frame
  reply_accepted datagram f found accepts parsed reply =
      rw
        (
          parsed,
          guard_fresh p now_ms up fresh,
          reply,
          observe_peer_seen emit p f.source t up found accepts,
        )
        refl

-- A probe that one unit sends and another answers is understood on both sides. Where each of the two lists
-- the other among its candidates and the callbacks take the news, the asked unit prepares a reply that
-- echoes the probe and marks the asking one as online, with its full 60 seconds; the reply's frame, once
-- serialized, marks the asked unit in the same way in turn. Nothing else changes but the times of the last
-- calls.
pub probe_exchange :
    (a b : Presence) (emit emit' : Emit) (t t' : Trace)
    (version capacity capacity' now_ms later_ms : ℕ) (provider provider' : Option HeaderProvider)
    {out out' : Bytes}
    → (is_down a.phase ≡ false) × (a.last_now_ms ≤ later_ms)
    → (is_down b.phase ≡ false) × (b.last_now_ms ≤ now_ms)
    → (asked : Lists b.identity a.peers) → (asking : Lists a.identity b.peers)
    → Accepts emit b.identity t
    → Accepts emit' a.identity t'
    → presence_action_serialize (probe_to b.identity) a.identity version capacity provider
      ≡ some out
    → peer_reply_serialize (echo_to a.identity) b.identity capacity' provider' ≡ some out'
    → (receive_peer_request (some emit') b out now_ms t' ≡ (
      ok,
      record b { peers = heard asking; last_now_ms = now_ms },
      echo_to a.identity,
      true,
      told emit' a.identity t',
    ))
      × (receive_peer (some emit) a out' later_ms t
          ≡ (ok, record a { peers = heard asked; last_now_ms = later_ms }, told emit b.identity t))
unfolding is_peer_request is_peer_reply
probe_exchange a b emit emit' t t' version capacity capacity' now_ms later_ms provider provider'
      {out} {out'} ua ub asked asking accepts accepts' sent answered =
    (
      request_accepted emit' b now_ms t' ub.0 ub.1 out
          (sent_frame (request_of b.identity a.identity 0x07 0x01 (0 ∷ 1 ∷ [])) (0 ∷ 1 ∷ []))
          (refresh_peer-heard a.identity b.peers asking) accepts'
          (parse-probe b.identity a.identity version capacity provider sent)
          (ground (arith, addr_eq_refl b.identity)),
      reply_accepted emit a later_ms t ua.0 ua.1 out'
          (sent_frame (request_of a.identity b.identity 0x07 0x81 (0 ∷ 1 ∷ 0 ∷ 0 ∷ 0 ∷ 0 ∷ []))
            (0 ∷ 1 ∷ 0 ∷ 0 ∷ 0 ∷ 0 ∷ []))
          (refresh_peer-heard b.identity a.peers asked) accepts
          (parse-peer_reply (echo_to a.identity) b.identity capacity' provider' answered)
          (ground (arith, addr_eq_refl a.identity)),
    )
