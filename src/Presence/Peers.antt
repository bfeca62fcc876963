-- ===== src/Presence/Peers.antt =====
-- src/gvs_presence.c: how long a unit that was seen once counts as online.
use mathlib.Core.Option
use mathlib.Core.Option.{some-injective}
use doorfast.Prelude.{
  ℕ, suc, ◌+◌, ◌-◌, ◌*◌, ◌≤◌, ◌<◌, ◌≡◌, refl, sym, ap, ◌∙◌, ◌⊎◌, true, false, Option, none, some,
  List, [], ◌∷◌, map, inl, inr, Bool-cases, Option-cases, ltb, leb, arith, if◌then◌else◌, u64_max,
  ok, Address, addr_eq,
}
use doorfast.Frame.Serialize.{peer_online}
use doorfast.Presence.{
  PresencePhase, presence_emit, PresencePeer, Presence, Trace, Emit, aged, is_due, is_down,
  tick_fuel, presence_tick,
}
use doorfast.Presence.Receive.{seen, refresh_peer, observe_found, observe_peer}
use doorfast.Presence.Timers.{timer_next, phase_next_at}
use doorfast.Presence.Loop.{tick_loop-Ends, phase_next_at_timers, timer_next_up}
use doorfast.Presence.Split.{presence_tick_inv}

-- The first candidate with an address.
abbrev pub find_peer : Address → List PresencePeer → Option PresencePeer
find_peer address [] = none
find_peer address (p ∷ ps) = if addr_eq p.address address then some p else find_peer address ps

find_peer-aged :
    (address : Address) (ps : List PresencePeer)
    → find_peer address (map aged ps) ≡ Option.map aged (find_peer address ps)
unfolding aged
find_peer-aged address [] = refl
find_peer-aged address (p ∷ ps) = ground (arith, find_peer-aged address ps)

find_peer-refresh_peer :
    (address : Address) (ps : List PresencePeer) {qs : List PresencePeer}
    → refresh_peer address ps ≡ some qs
    → (r : PresencePeer) × (find_peer address qs ≡ some r)
      × (r.online ≡ true)
      × (r.seconds_remaining ≡ 60)
unfolding refresh_peer
find_peer-refresh_peer address [] h = absurd (ground arith)
find_peer-refresh_peer address (p ∷ ps) {qs} h = elim (Bool-cases (addr_eq p.address address)) [
  | inl e ↦
      let eq : qs ≡ seen p ∷ ps = sym (some-injective _ _ (rw e at h)) in
      (seen p, rw (eq, e) refl, refl, refl)
  | inr e ↦ elim (Option-cases (refresh_peer address ps)) [
    | inl missing ↦ absurd (ground arith)
    | inr (rs, found) ↦
        let eq : qs ≡ p ∷ rs = ground arith in
        let (r, at, on, left) = find_peer-refresh_peer address ps found in
        (r, rw (eq, e) at, on, left)
  ]
]

-- A unit that was seen `k` seconds of the peers' timer ago.
record IsSilent (address : Address) (k : ℕ) (ps : List PresencePeer) : Type 0 where
  peer : PresencePeer
  found : find_peer address ps ≡ some peer
  online : k < 60 → (peer.online ≡ true) × (peer.seconds_remaining + k ≡ 60)
  offline : 60 ≤ k → peer.online ≡ false

aged-IsSilent :
    (address : Address) (k : ℕ) (ps : List PresencePeer)
    → IsSilent address k ps
    → IsSilent address (suc k) (map aged ps)
unfolding aged
aged-IsSilent address k ps v = record {
  peer = aged v.peer;
  found = find_peer-aged address ps ∙ ap (Option.map aged) v.found;
  online = λ h. ground (arith, v.online);
  offline = λ h. ground (arith, v.online, v.offline);
}

-- The peers' timer has run `k` times since it stood at `base`, the last time no later than `now_ms`.
record IsWaiting (address : Address) (base now_ms : ℕ) (p : Presence) : Type 0 where
  k : ℕ
  up : is_down p.phase ≡ false
  at : p.next_peer_tick_ms ≡ base + 1000 * k
  past : (k ≡ 0) ⊎ (base + 1000 * k ≤ now_ms + 1000)
  silent : IsSilent address k p.peers

phase_next_at-peers :
    (phase : PresencePhase) (p : Presence) → (phase_next_at phase p).peers ≡ p.peers
unfolding phase_next_at
phase_next_at-peers PresencePhase.down p = refl
phase_next_at-peers PresencePhase.wait_sync p = refl
phase_next_at-peers PresencePhase.asking p = ground arith
phase_next_at-peers PresencePhase.choosing p = ground arith
phase_next_at-peers PresencePhase.periodic p = ground arith

timer_next-IsWaiting :
    (address : Address) (base now_ms : ℕ)
    → now_ms ≤ u64_max - 60000
    → (p : Presence) → IsWaiting address base now_ms p
    → is_due p now_ms ≡ true
    → IsWaiting address base now_ms (timer_next p)
unfolding timer_next
timer_next-IsWaiting address base now_ms low p w due =
    elim (Bool-cases (leb p.next_peer_tick_ms p.next_phase_ms)) [
      | inl e ↦ rw e (record {
        k = suc w.k;
        up = w.up;
        at = ground (arith, w.at);
        past = inr (ground (arith, w.at));
        silent = aged-IsSilent address w.k p.peers w.silent;
      })
      | inr e ↦ rw e (record {
        k = w.k;
        up = rw (e, timer_next) at (timer_next_up p w.up);
        at = (phase_next_at_timers p.phase p w.up).0 ∙ w.at;
        past = w.past;
        silent = rw (phase_next_at-peers p.phase p) w.silent;
      })
    ]

observe_found_inv :
    (emit : Emit) (p : Presence) (address : Address) (t : Trace) (o : Option (List PresencePeer))
    {q : Presence} {u : Trace}
    → observe_found emit p address o t ≡ (ok, q, u)
    → (qs : List PresencePeer) × (o ≡ some qs) × (q ≡ record p { peers = qs })
unfolding observe_found
observe_found_inv emit p address t none h = absurd (ground arith)
observe_found_inv emit p address t (some qs) h =
    elim (Option-cases (presence_emit peer_online address 0 emit t).0) [
      | inl failed ↦ absurd (ground arith)
      | inr (a, told) ↦ (qs, refl, ground arith)
    ]

pub observe_peer_inv :
    (emit : Emit) (p : Presence) (address : Address) (t : Trace) {q : Presence} {u : Trace}
    → observe_peer (some emit) p address t ≡ (ok, q, u)
    → (is_down p.phase ≡ false)
      × (qs : List PresencePeer) × (refresh_peer address p.peers ≡ some qs)
      × (q ≡ record p { peers = qs })
unfolding observe_peer
observe_peer_inv emit p address t h = elim (Bool-cases (is_down p.phase)) [
  | inl d ↦ absurd (ground arith)
  | inr up ↦
      let (qs, found, eq) =
        observe_found_inv emit p address t (refresh_peer address p.peers) (rw up at h) in
      (up, qs, found, eq)
]

-- A unit that was observed and then stays silent counts as online through 59 seconds of the peers'
-- timer, and is offline from the next one on, whatever else the ticks do meanwhile.
pub silent_peer :
    (emit emit' : Emit) (p : Presence) (peer : Address) (t t' : Trace) (now_ms : ℕ) {q r : Presence}
    {u v : Trace}
    → now_ms ≤ u64_max - 60000
    → observe_peer (some emit) p peer t ≡ (ok, q, u)
    → presence_tick (some emit') q now_ms t' ≡ some (ok, r, v)
    → (s : PresencePeer) × (find_peer peer r.peers ≡ some s)
      × (s.online ≡ ltb now_ms (q.next_peer_tick_ms + 59000))
silent_peer emit emit' p peer t t' now_ms {q} {r} low seen_now ticked =
    let (up, qs, found, eq) = observe_peer_inv emit p peer t seen_now in
    let (s, at, on, left) = find_peer-refresh_peer peer p.peers found in
    let (up', before, run) = presence_tick_inv emit' q now_ms t' ticked in
    let w : IsWaiting peer q.next_peer_tick_ms now_ms q = record {
      k = 0;
      up = up';
      at = omega arith;
      past = inl refl;
      silent = record {
        peer = s;
        found = rw eq at;
        online = λ h. (on, ground arith);
        offline = λ h. absurd (omega arith);
      };
    } in
    elim (tick_loop-Ends (IsWaiting peer q.next_peer_tick_ms now_ms) emit' now_ms
      (timer_next-IsWaiting peer q.next_peer_tick_ms now_ms low) (tick_fuel q now_ms) q t' w run) [
        | inl (failed, _) ↦ absurd (ground arith)
        | inr (l, fine, e, quiet, same) ↦ (
          e.silent.peer,
          rw same e.silent.found,
          ground (arith, e.at, e.past, e.silent.online, e.silent.offline, quiet),
        )
      ]
