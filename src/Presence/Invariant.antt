-- ===== src/Presence/Invariant.antt =====
-- src/gvs_presence.c: what every operation keeps, in any order and with any callback.
use mathlib.Core.Option.{some-injective}
use doorfast.Prelude.{
  ℕ, ◌-◌, ◌≤◌, ◌<◌, ◌≡◌, refl, sym, ap, ◌⊎◌, Bool, true, ◌||◌, ◌&&◌, Option, none, some, List, [],
  ◌∷◌, map, inl, inr, Bool-cases, Option-cases, ltb, leb, ◌==◌, arith, All, u64_max, Status,
  Address, addr_eq,
}
use doorfast.Identity.{indoor_peers}
use doorfast.Frame.Serialize.{peer_online}
use doorfast.Presence.{
  PresencePhase, down, wait_sync, asking, choosing, periodic, PresencePeer, Presence, Trace, Emit,
  aged, is_down, tick_fuel, presence_tick, start_with, initial_peer, no_presence, sync_rounds,
  presence_emit, periodic_sync_interval_ms,
}
use doorfast.Presence.Receive.{seen, refresh_peer, observe_found, observe_peer}
use doorfast.Presence.Timers.{timer_next, phase_next_at}
use doorfast.Presence.Loop.{tick_loop-Ends}

-- The round counts from 1 to 3 while the unit asks or chooses, and is 0 elsewhere.
abbrev pub round_fits : PresencePhase → ℕ → Bool
round_fits down n = n == 0
round_fits wait_sync n = n == 0
round_fits asking n = leb 1 n && leb n sync_rounds
round_fits choosing n = leb 1 n && leb n sync_rounds
round_fits periodic n = n == 0

-- A peer's seconds never run out: they are set anew.
abbrev pub IsCounting : PresencePeer → Type 0
IsCounting p = (1 ≤ p.seconds_remaining) × (p.seconds_remaining ≤ 61)

abbrev pub addresses : List PresencePeer → List Address
addresses [] = []
addresses (p ∷ ps) = p.address ∷ addresses ps

pub record IsValid (p : Presence) : Type 0 where
  pub candidates : (is_down p.phase ≡ true) ⊎ (indoor_peers p.identity ≡ some (addresses p.peers))
  pub counting : All IsCounting p.peers
  pub round : round_fits p.phase p.sync_round ≡ true
  pub misses : p.periodic_misses < 2

addresses-aged : (ps : List PresencePeer) → addresses (map aged ps) ≡ addresses ps
unfolding aged
addresses-aged [] = refl
addresses-aged (p ∷ ps) = ground (arith, addresses-aged ps)

All-aged : (ps : List PresencePeer) → All IsCounting ps → All IsCounting (map aged ps)
unfolding aged
All-aged [] h = tt
All-aged (p ∷ ps) h = (ground arith, All-aged ps h.1)

refresh_peer-keeps :
    (peer : Address) (ps : List PresencePeer) {qs : List PresencePeer}
    → refresh_peer peer ps ≡ some qs
    → All IsCounting ps
    → (addresses qs ≡ addresses ps) × All IsCounting qs
unfolding refresh_peer
refresh_peer-keeps peer [] h v = absurd (ground arith)
refresh_peer-keeps peer (p ∷ ps) {qs} h v = elim (Bool-cases (addr_eq p.address peer)) [
  | inl e ↦
      let eq : qs ≡ seen p ∷ ps = sym (some-injective _ _ (rw e at h)) in
      rw eq (refl, (ground arith, v.1))
  | inr e ↦ elim (Option-cases (refresh_peer peer ps)) [
    | inl missing ↦ absurd (ground arith)
    | inr (rs, found) ↦
        let eq : qs ≡ p ∷ rs = ground arith in
        let (same, kept) = refresh_peer-keeps peer ps found v.1 in
        rw eq (ap (λ l. p.address ∷ l) same, (v.0, kept))
  ]
]

phase_next_at-keeps :
    (phase : PresencePhase) (p : Presence)
    → p.phase ≡ phase
    → round_fits phase p.sync_round ≡ true
    → p.periodic_misses < 2
    → let q = phase_next_at phase p in
      (round_fits q.phase q.sync_round ≡ true)
      × (q.periodic_misses < 2)
      × (q.peers ≡ p.peers)
      × (q.identity ≡ p.identity)
      × (is_down q.phase ≡ is_down p.phase)
unfolding phase_next_at
phase_next_at-keeps down p e r m = ground arith
phase_next_at-keeps wait_sync p e r m = ground arith
phase_next_at-keeps asking p e r m = ground arith
phase_next_at-keeps choosing p e r m = ground arith
phase_next_at-keeps periodic p e r m = ground arith

timer_next-IsValid : (p : Presence) → IsValid p → IsValid (timer_next p)
unfolding timer_next
timer_next-IsValid p v =
    let kept = phase_next_at-keeps p.phase p refl v.round v.misses in
    elim (Bool-cases (leb p.next_peer_tick_ms p.next_phase_ms)) [
      | inl e ↦ rw e (record {
        candidates = rw (addresses-aged p.peers) v.candidates;
        counting = All-aged p.peers v.counting;
        round = v.round;
        misses = v.misses;
      })
      | inr e ↦ rw e (record {
        candidates = rw (kept.2, kept.3, kept.4) v.candidates;
        counting = rw kept.2 v.counting;
        round = kept.0;
        misses = kept.1;
      })
    ]

pub stamp-IsValid : (p : Presence) (x : ℕ) → IsValid p → IsValid (record p { last_now_ms = x })
stamp-IsValid p x v = record {
  candidates = v.candidates;
  counting = v.counting;
  round = v.round;
  misses = v.misses;
}

pub presence_tick-IsValid :
    (emit : Option Emit) (p : Presence) (now_ms : ℕ) (t : Trace) {status : Status} {q : Presence}
    {u : Trace}
    → IsValid p
    → presence_tick emit p now_ms t ≡ some (status, q, u)
    → IsValid q
unfolding presence_tick
presence_tick-IsValid none p now_ms t {status} {q} v h = let e : q ≡ p = ground arith in rw e v
presence_tick-IsValid (some emit) p now_ms t {status} {q} v h =
    elim (Bool-cases (is_down p.phase || ltb now_ms p.last_now_ms)) [
      | inl refuse ↦ let e : q ≡ p = ground arith in rw e v
      | inr go ↦
          elim (tick_loop-Ends IsValid emit now_ms (λ r w due. timer_next-IsValid r w)
            (tick_fuel p now_ms) p t v (rw go at h)) [
              | inl (failed, w) ↦ w
              | inr (r, s, w, quiet, eq) ↦ rw eq (stamp-IsValid r now_ms w)
            ]
    ]

initial-IsCounting : (l : List Address) → All IsCounting (map initial_peer l)
initial-IsCounting [] = tt
initial-IsCounting (a ∷ l) = ((omega arith, omega arith), initial-IsCounting l)

addresses-initial : (l : List Address) → addresses (map initial_peer l) ≡ l
addresses-initial [] = refl
addresses-initial (a ∷ l) = ap (λ k. a ∷ k) (addresses-initial l)

pub start_with-IsValid :
    (p : Presence) (identity : Address) (now_ms : ℕ) (o : Option (List Address))
    → indoor_peers identity ≡ o
    → IsValid p
    → IsValid (start_with p identity now_ms o).1
unfolding start_with
start_with-IsValid p identity now_ms none e v = v
start_with-IsValid p identity now_ms (some l) e v =
    elim (Bool-cases (ltb (u64_max - periodic_sync_interval_ms) now_ms)) [
      | inl late ↦ rw late v
      | inr soon ↦ rw soon (record {
        candidates = inr (rw (addresses-initial l) e);
        counting = initial-IsCounting l;
        round = refl;
        misses = omega arith;
      })
    ]

pub no_presence-IsValid : IsValid no_presence
no_presence-IsValid = record {
  candidates = inl refl;
  counting = tt;
  round = refl;
  misses = omega arith;
}

with_peers-IsValid :
    (p : Presence) (qs : List PresencePeer)
    → IsValid p
    → (addresses qs ≡ addresses p.peers) × All IsCounting qs
    → IsValid (record p { peers = qs })
with_peers-IsValid p qs v kept = record {
  candidates = rw kept.0 v.candidates;
  counting = kept.1;
  round = v.round;
  misses = v.misses;
}

observe_found-IsValid :
    (emit : Emit) (p : Presence) (peer : Address) (t : Trace) (o : Option (List PresencePeer))
    → refresh_peer peer p.peers ≡ o
    → IsValid p
    → IsValid (observe_found emit p peer o t).1
unfolding observe_found
observe_found-IsValid emit p peer t none e v = v
observe_found-IsValid emit p peer t (some qs) e v =
    elim (Option-cases (presence_emit peer_online peer 0 emit t).0) [
      | inl failed ↦ rw (failed, observe_found) v
      | inr (a, told) ↦
          rw (told, observe_found)
            (with_peers-IsValid p qs v (refresh_peer-keeps peer p.peers e v.counting))
    ]

pub observe_peer-IsValid :
    (emit : Option Emit) (p : Presence) (peer : Address) (t : Trace)
    → IsValid p
    → IsValid (observe_peer emit p peer t).1
unfolding observe_peer
observe_peer-IsValid none p peer t v = v
observe_peer-IsValid (some emit) p peer t v = elim (Bool-cases (is_down p.phase)) [
  | inl e ↦ rw e v
  | inr e ↦ rw e (observe_found-IsValid emit p peer t (refresh_peer peer p.peers) refl v)
]

-- What leaves the peers and the identity alone.
pub same_peers-IsValid :
    {p q : Presence}
    → IsValid p
    → (q.peers ≡ p.peers) × (q.identity ≡ p.identity) × (is_down q.phase ≡ is_down p.phase)
    → (round_fits q.phase q.sync_round ≡ true) × (q.periodic_misses < 2)
    → IsValid q
same_peers-IsValid v same fits = record {
  candidates = rw (same.0, same.1, same.2) v.candidates;
  counting = rw same.0 v.counting;
  round = fits.0;
  misses = fits.1;
}
