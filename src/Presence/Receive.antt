-- ===== src/Presence/Receive.antt =====
-- src/gvs_presence.c: the operations that take a frame or what other modules observed. A received
-- datagram and its length are one list; the reply to a peer's request comes with its `peer_observed`.
use doorfast.Prelude.{
  ℕ, ◌+◌, ◌-◌, ◌*◌, Bool, true, false, ◌&&◌, ◌||◌, not, Option, none, some, List, [], ◌∷◌, ltb, leb,
  ltb_ℤ, signed_byte, ◌==◌, if◌then◌else◌, get_or, Status, ok, err_invalid, err_io, is_ok, u64_max,
  Bytes, Address, zero_address, addr_eq, five_eq,
}
use doorfast.Frame.{Frame, Event, parse}
use doorfast.Frame.Serialize.{PeerReply, peer_online}
use doorfast.Presence.{
  PresencePhase, periodic, PresencePeer, Presence, Trace, Emit, presence_emit, peer_reset_seconds,
  periodic_sync_interval_ms, is_down,
}

abbrev pub seen : PresencePeer → PresencePeer
seen p = record p { online = true; seconds_remaining = peer_reset_seconds }

-- The search for a peer's address, with the peer marked as seen.
unfoldable pub refresh_peer : Address → List PresencePeer → Option (List PresencePeer)
refresh_peer peer [] = none
refresh_peer peer (p ∷ ps) =
    let rest = refresh_peer peer ps in
    if addr_eq p.address peer
    then some (seen p ∷ ps)
    else elim rest [ none ↦ none | some qs ↦ some (p ∷ qs) ]

-- The callback is told before the peer is marked.
unfoldable pub observe_found :
    Emit → Presence → Address → Option (List PresencePeer) → Trace → Status × Presence × Trace
observe_found emit p peer none t = (err_invalid, p, t)
observe_found emit p peer (some peers) t =
    let (r, u) = presence_emit peer_online peer 0 emit t in
    elim r [ none ↦ (err_io, p, u) | some _ ↦ (ok, record p { peers = peers }, u) ]

-- `df_gvs_presence_observe_peer`
unfoldable pub observe_peer : Option Emit → Presence → Address → Trace → Status × Presence × Trace
unfolding observe_found refresh_peer
observe_peer none p peer t = (err_invalid, p, t)
observe_peer (some emit) p peer t =
    if is_down p.phase
    then (err_invalid, p, t)
    else observe_found emit p peer (refresh_peer peer p.peers) t

abbrev pub received_at : ℕ → Status × Presence × Trace → Status × Presence × Trace
received_at now_ms (status, p, t) =
    (status, if is_ok status then record p { last_now_ms = now_ms } else p, t)

unfoldable pub is_peer_reply : Presence → Frame → Bool
is_peer_reply p f =
    f.family == 0x07
    && (f.opcode == 0x81 && (f.payload_length == 6 && addr_eq f.destination p.identity))

unfoldable pub receive_peer_frame :
    Option Emit → Presence → Option (Frame × Event) → ℕ → Trace → Status × Presence × Trace
unfolding is_peer_reply observe_peer
receive_peer_frame emit p none now_ms t = (err_invalid, p, t)
receive_peer_frame emit p (some (f, e)) now_ms t =
    if is_peer_reply p f
    then received_at now_ms (observe_peer emit p f.source t)
    else (err_invalid, p, t)

-- `df_gvs_presence_receive_peer`
unfoldable pub receive_peer : Option Emit → Presence → Bytes → ℕ → Trace → Status × Presence × Trace
receive_peer emit p datagram now_ms t =
    if ltb now_ms p.last_now_ms
    then (err_invalid, p, t)
    else receive_peer_frame emit p (parse datagram) now_ms t

abbrev pub zero_reply : PeerReply
zero_reply = record { target = zero_address; request_data0 = 0; request_data1 = 0 }

abbrev pub payload_at : Frame → ℕ → ℕ
payload_at f i = elim f.payload [ none ↦ 0 | some bytes ↦ get_or bytes i 0 ]

abbrev pub reply_to : Frame → PeerReply
reply_to f = record {
  target = f.source;
  request_data0 = payload_at f 0;
  request_data1 = payload_at f 1;
}

unfoldable pub is_peer_request : Presence → Frame → Bool
is_peer_request p f =
    f.family == 0x07
    && (f.opcode == 0x01 && (f.payload_length == 2 && addr_eq f.destination p.identity))

-- A known candidate is observed; an unknown one gets its reply all the same.
unfoldable pub answer_request :
    Emit
    → Presence
    → Frame
    → Option (List PresencePeer)
    → ℕ
    → Trace
    → Status × Presence × PeerReply × Bool × Trace
unfolding observe_peer
answer_request emit p f none now_ms t =
    (ok, record p { last_now_ms = now_ms }, reply_to f, false, t)
answer_request emit p f (some _) now_ms t =
    let (status, q, u) = observe_peer (some emit) p f.source t in
    if is_ok status
    then (ok, record q { last_now_ms = now_ms }, reply_to f, true, u)
    else (err_io, q, zero_reply, false, u)

unfoldable pub receive_request_frame :
    Emit
    → Presence
    → Option (Frame × Event)
    → ℕ
    → Trace
    → Status × Presence × PeerReply × Bool × Trace
unfolding is_peer_request answer_request refresh_peer
receive_request_frame emit p none now_ms t = (err_invalid, p, zero_reply, false, t)
receive_request_frame emit p (some (f, e)) now_ms t =
    if is_peer_request p f
    then answer_request emit p f (refresh_peer f.source p.peers) now_ms t
    else (err_invalid, p, zero_reply, false, t)

-- `df_gvs_presence_receive_peer_request`
unfoldable pub receive_peer_request :
    Option Emit → Presence → Bytes → ℕ → Trace → Status × Presence × PeerReply × Bool × Trace
receive_peer_request none p datagram now_ms t = (err_invalid, p, zero_reply, false, t)
receive_peer_request (some emit) p datagram now_ms t =
    if is_down p.phase || ltb now_ms p.last_now_ms
    then (err_invalid, p, zero_reply, false, t)
    else receive_request_frame emit p (parse datagram) now_ms t

abbrev pub is_asking : PresencePhase → Bool
is_asking PresencePhase.asking = true
is_asking _ = false

abbrev pub is_choosing : PresencePhase → Bool
is_choosing PresencePhase.choosing = true
is_choosing _ = false

abbrev pub is_periodic : PresencePhase → Bool
is_periodic periodic = true
is_periodic _ = false

-- The source is another unit of the apartment.
abbrev pub is_sibling : Address → Address → Bool
is_sibling source identity = five_eq source identity && not (addr_eq source identity)

unfoldable pub is_sync_reply : Presence → Frame → Bool
is_sync_reply p f =
    f.family == 0x91
    && ((f.opcode == 0x81 || f.opcode == 0x82)
        && (f.payload_length == 2
            && (addr_eq f.destination p.identity && is_sibling f.source p.identity)))

unfoldable pub accept_sync : Presence → Frame → ℕ → Presence
accept_sync p f now_ms =
    if f.opcode == 0x81 && is_asking p.phase
    then record p {
      sync_version = 0;
      sync_maintainer = false;
      periodic_misses = 0;
      sync_round = 0;
      phase = periodic;
      next_phase_ms = now_ms + periodic_sync_interval_ms;
      last_now_ms = now_ms;
    }
    else if f.opcode == 0x82
        && (is_choosing p.phase
            && (leb p.sync_version (payload_at f 0 + payload_at f 1 * 256)
                && ltb_ℤ (signed_byte f.source.b5) (signed_byte p.identity.b5)))
    then record p { sync_maintainer = false; last_now_ms = now_ms }
    else record p { last_now_ms = now_ms }

unfoldable pub receive_sync_frame : Presence → Option (Frame × Event) → ℕ → Status × Presence
unfolding is_sync_reply accept_sync
receive_sync_frame p none now_ms = (err_invalid, p)
receive_sync_frame p (some (f, e)) now_ms =
    if is_sync_reply p f then (ok, accept_sync p f now_ms) else (err_invalid, p)

-- `df_gvs_presence_receive_sync`
unfoldable pub receive_sync : Presence → Bytes → ℕ → Status × Presence
receive_sync p datagram now_ms =
    if is_down p.phase
      || (ltb now_ms p.last_now_ms || ltb (u64_max - periodic_sync_interval_ms) now_ms)
    then (err_invalid, p)
    else receive_sync_frame p (parse datagram) now_ms

-- `enum df_gvs_sync_data_type`
pub data SyncDataType : Type 0 where
  normal period : SyncDataType

-- `*apply_values` and `*resend_local`
pub record SyncAdvice : Type 0 where
  pub apply_values : Bool
  pub resend_local : Bool

abbrev pub no_advice : SyncAdvice
no_advice = record { apply_values = false; resend_local = false }

unfoldable pub accept_sync_data : Presence → Address → SyncDataType → ℕ → ℕ → Presence × SyncAdvice
accept_sync_data p source normal remote_version now_ms = (
  record p { sync_maintainer = false; sync_version = remote_version; last_now_ms = now_ms },
  record no_advice { apply_values = true },
)
accept_sync_data p source period remote_version now_ms =
    let next : Presence = record p {
      periodic_misses = 0;
      next_phase_ms = now_ms + periodic_sync_interval_ms;
      last_now_ms = now_ms;
    } in
    if ltb remote_version p.sync_version
    then (record next { sync_maintainer = true }, record no_advice { resend_local = true })
    else if p.sync_maintainer
        && (p.sync_version == remote_version
            && not (ltb_ℤ (signed_byte source.b5) (signed_byte p.identity.b5)))
    then (next, record no_advice { resend_local = true })
    else (
      record next {
        sync_version =
            if p.sync_maintainer && ltb p.sync_version remote_version
            then remote_version
            else p.sync_version;
        sync_maintainer = false;
      },
      record no_advice { apply_values = true },
    )

-- `df_gvs_presence_observe_sync_data`
unfoldable pub observe_sync_data :
    Presence → Address → SyncDataType → ℕ → ℕ → Status × Presence × SyncAdvice
unfolding accept_sync_data
observe_sync_data p source kind remote_version now_ms =
    if not (is_periodic p.phase)
      || (ltb now_ms p.last_now_ms
          || (ltb (u64_max - periodic_sync_interval_ms) now_ms
              || not (is_sibling source p.identity)))
    then (err_invalid, p, no_advice)
    else (let (q, advice) = accept_sync_data p source kind remote_version now_ms in (ok, q, advice))
