-- ===== src/Presence/Reach.antt =====
-- src/gvs_presence.c: the histories of a unit's presence.
use doorfast.Prelude.{
  ℕ, ◌-◌, ◌≡◌, refl, Bool, false, ◌||◌, Option, none, some, List, inl, inr, Bool-cases, ltb, arith,
  u64_max, Status, is_ok, Bytes, Address,
}
use doorfast.Identity.{indoor_peers}
use doorfast.Frame.{Frame, Event, parse}
use doorfast.Presence.{
  PresencePeer, Presence, Trace, Emit, is_down, presence_tick, presence_start, no_presence,
  presence_stop, set_sync_maintainer, periodic_sync_interval_ms,
}
use doorfast.Presence.Receive.{
  SyncDataType, normal, period, refresh_peer, observe_peer, receive_peer, receive_peer_frame,
  receive_peer_request, receive_request_frame, answer_request, receive_sync, receive_sync_frame,
  accept_sync, observe_sync_data, accept_sync_data, is_peer_reply, is_peer_request, is_sync_reply,
}
use doorfast.Presence.Invariant.{
  IsValid, stamp-IsValid, no_presence-IsValid, same_peers-IsValid, observe_peer-IsValid,
  presence_tick-IsValid, start_with-IsValid,
}

receive_peer-IsValid :
    (emit : Option Emit) (p : Presence) (datagram : Bytes) (now_ms : ℕ) (t : Trace)
    → IsValid p
    → IsValid (receive_peer emit p datagram now_ms t).1
unfolding receive_peer receive_peer_frame
receive_peer-IsValid emit p datagram now_ms t v = elim (Bool-cases (ltb now_ms p.last_now_ms)) [
  | inl late ↦ rw late v
  | inr fine ↦ rw fine (frame-IsValid (parse datagram))
]
  where
    frame-IsValid : (o : Option (Frame × Event)) → IsValid (receive_peer_frame emit p o now_ms t).1
    frame-IsValid none = v
    frame-IsValid (some (f, e)) = elim (Bool-cases (is_peer_reply p f)) [
      | inr other ↦ rw other v
      | inl reply ↦ rw reply (elim (Bool-cases (is_ok (observe_peer emit p f.source t).0)) [
        | inl done ↦ rw done (stamp-IsValid _ now_ms (observe_peer-IsValid emit p f.source t v))
        | inr failed ↦ rw failed (observe_peer-IsValid emit p f.source t v)
      ])
    ]

receive_peer_request-IsValid :
    (emit : Option Emit) (p : Presence) (datagram : Bytes) (now_ms : ℕ) (t : Trace)
    → IsValid p
    → IsValid (receive_peer_request emit p datagram now_ms t).1
unfolding receive_peer_request receive_request_frame answer_request
receive_peer_request-IsValid none p datagram now_ms t v = v
receive_peer_request-IsValid (some emit) p datagram now_ms t v =
    elim (Bool-cases (is_down p.phase || ltb now_ms p.last_now_ms)) [
      | inl refuse ↦ rw refuse v
      | inr fine ↦ rw fine (frame-IsValid (parse datagram))
    ]
  where
    answer-IsValid :
        (f : Frame) (o : Option (List PresencePeer))
        → IsValid (answer_request emit p f o now_ms t).1
    answer-IsValid f none = stamp-IsValid p now_ms v
    answer-IsValid f (some qs) =
        elim (Bool-cases (is_ok (observe_peer (some emit) p f.source t).0)) [
          | inl done ↦
              rw done (stamp-IsValid _ now_ms (observe_peer-IsValid (some emit) p f.source t v))
          | inr failed ↦ rw failed (observe_peer-IsValid (some emit) p f.source t v)
        ]

    frame-IsValid :
        (o : Option (Frame × Event)) → IsValid (receive_request_frame emit p o now_ms t).1
    frame-IsValid none = v
    frame-IsValid (some (f, e)) = elim (Bool-cases (is_peer_request p f)) [
      | inr other ↦ rw other v
      | inl request ↦ rw request (answer-IsValid f (refresh_peer f.source p.peers))
    ]

accept_sync-IsValid :
    (p : Presence) (f : Frame) (now_ms : ℕ)
    → IsValid p
    → is_down p.phase ≡ false
    → IsValid (accept_sync p f now_ms)
unfolding accept_sync
accept_sync-IsValid p f now_ms v up = same_peers-IsValid v (ground arith) (ground arith)

receive_sync-IsValid :
    (p : Presence) (datagram : Bytes) (now_ms : ℕ)
    → IsValid p
    → IsValid (receive_sync p datagram now_ms).1
unfolding receive_sync receive_sync_frame
receive_sync-IsValid p datagram now_ms v =
    elim (Bool-cases (
      is_down p.phase
      || (ltb now_ms p.last_now_ms || ltb (u64_max - periodic_sync_interval_ms) now_ms))) [
        | inl refuse ↦ rw refuse v
        | inr fine ↦ rw fine (frame-IsValid (ground arith) (parse datagram))
      ]
  where
    frame-IsValid :
        is_down p.phase ≡ false
        → (o : Option (Frame × Event)) → IsValid (receive_sync_frame p o now_ms).1
    frame-IsValid up none = v
    frame-IsValid up (some (f, e)) = elim (Bool-cases (is_sync_reply p f)) [
      | inr other ↦ rw other v
      | inl reply ↦ rw reply (accept_sync-IsValid p f now_ms v up)
    ]

observe_sync_data-IsValid :
    (p : Presence) (source : Address) (kind : SyncDataType) (remote_version now_ms : ℕ)
    → IsValid p
    → IsValid (observe_sync_data p source kind remote_version now_ms).1
unfolding observe_sync_data accept_sync_data
observe_sync_data-IsValid p source normal remote_version now_ms v =
    same_peers-IsValid v (ground arith) (ground arith)
observe_sync_data-IsValid p source period remote_version now_ms v =
    same_peers-IsValid v (ground arith) (ground arith)

set_sync_maintainer-IsValid :
    (p : Presence) (b : Bool) → IsValid p → IsValid (set_sync_maintainer p b)
unfolding set_sync_maintainer
set_sync_maintainer-IsValid p b v = same_peers-IsValid v (ground arith) (ground arith)

-- What a caller does: any operation, at any time, with any callback.
pub data PresenceStep (p : Presence) : Presence → Type 0 where
  start : (identity : Address) (now_ms : ℕ) → PresenceStep p (presence_start p identity now_ms).1
  stop : PresenceStep p (presence_stop p)
  tick :
      (emit : Option Emit) (now_ms : ℕ) (t : Trace) {status : Status} {q : Presence} {u : Trace}
      → presence_tick emit p now_ms t ≡ some (status, q, u)
      → PresenceStep p q
  observe :
      (emit : Option Emit) (peer : Address) (t : Trace)
      → PresenceStep p (observe_peer emit p peer t).1
  reply :
      (emit : Option Emit) (datagram : Bytes) (now_ms : ℕ) (t : Trace)
      → PresenceStep p (receive_peer emit p datagram now_ms t).1
  request :
      (emit : Option Emit) (datagram : Bytes) (now_ms : ℕ) (t : Trace)
      → PresenceStep p (receive_peer_request emit p datagram now_ms t).1
  maintainer : (b : Bool) → PresenceStep p (set_sync_maintainer p b)
  sync : (datagram : Bytes) (now_ms : ℕ) → PresenceStep p (receive_sync p datagram now_ms).1
  sync_data :
      (source : Address) (kind : SyncDataType) (remote_version now_ms : ℕ)
      → PresenceStep p (observe_sync_data p source kind remote_version now_ms).1

pub data PresenceReach : Presence → Type 0 where
  zeroed : PresenceReach no_presence
  further : {p q : Presence} → PresenceReach p → PresenceStep p q → PresenceReach q

PresenceStep-IsValid : {p q : Presence} → PresenceStep p q → IsValid p → IsValid q
unfolding presence_start presence_stop
PresenceStep-IsValid {p} (start identity now_ms) v =
    start_with-IsValid p identity now_ms (indoor_peers identity) refl v
PresenceStep-IsValid stop v = no_presence-IsValid
PresenceStep-IsValid {p} (tick emit now_ms t h) v = presence_tick-IsValid emit p now_ms t v h
PresenceStep-IsValid {p} (observe emit peer t) v = observe_peer-IsValid emit p peer t v
PresenceStep-IsValid {p} (reply emit datagram now_ms t) v =
    receive_peer-IsValid emit p datagram now_ms t v
PresenceStep-IsValid {p} (request emit datagram now_ms t) v =
    receive_peer_request-IsValid emit p datagram now_ms t v
PresenceStep-IsValid {p} (maintainer b) v = set_sync_maintainer-IsValid p b v
PresenceStep-IsValid {p} (sync datagram now_ms) v = receive_sync-IsValid p datagram now_ms v
PresenceStep-IsValid {p} (sync_data source kind remote_version now_ms) v =
    observe_sync_data-IsValid p source kind remote_version now_ms v

-- Through every history of operations, with any callbacks, datagrams and times, the peers of a unit that
-- is up are those of its identity; a peer's seconds stay between 1 and 61; the round counts from 1 to 3
-- while the unit asks or chooses and is 0 elsewhere; and at most one period is counted as missed.
pub PresenceReach-IsValid : {p : Presence} → PresenceReach p → IsValid p
PresenceReach-IsValid zeroed = no_presence-IsValid
PresenceReach-IsValid (further r s) = PresenceStep-IsValid s (PresenceReach-IsValid r)
