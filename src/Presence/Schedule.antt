-- ===== src/Presence/Schedule.antt =====
-- src/gvs_presence.c: the phases of a unit that hears nothing.
use mathlib.Core.Path.{subst}
use doorfast.Prelude.{
  Option-cases, ℕ, ◌+◌, ◌-◌, ◌*◌, ◌/◌, ◌≤◌, ◌<◌, ◌≡◌, refl, sym, ◌∙◌, true, false, some, List, map,
  inl, inr, Bool-cases, ltb, leb, arith, if◌then◌else◌, u64_max, u64, ok, Address,
}
use doorfast.Identity.{indoor_peers}
use doorfast.Presence.{
  PresencePhase, down, wait_sync, asking, choosing, periodic, Presence, Trace, Emit, PresencePeer,
  aged, is_due, tick_fuel, presence_tick, presence_start, start_with, started, sync_rounds,
}
use doorfast.Presence.Timers.{timer_next, phase_next_at}
use doorfast.Presence.Loop.{tick_loop-Ends}
use doorfast.Presence.Split.{presence_tick_inv}

-- Where a unit stands so many milliseconds after its start.
abbrev pub scheduled_phase : ℕ → PresencePhase
scheduled_phase elapsed =
    if ltb elapsed 3000
    then wait_sync
    else if ltb elapsed 4500
    then asking
    else if ltb elapsed 7500
    then choosing
    else periodic

abbrev pub scheduled_round : ℕ → ℕ
scheduled_round elapsed =
    if ltb elapsed 3000
    then 0
    else if ltb elapsed 4500
    then (elapsed - 3000) / 500 + 1
    else if ltb elapsed 7500
    then (elapsed - 4500) / 1000 + 1
    else 0

module _ (start_ms now_ms : ℕ) where
  abbrev InPhase : PresencePhase → Presence → Type 0
  InPhase down p = ⊥
  InPhase wait_sync p =
      (p.next_phase_ms ≡ start_ms + 3000) × (p.sync_round ≡ 0) × (p.sync_maintainer ≡ false)
  InPhase asking p =
      (1 ≤ p.sync_round)
      × (p.sync_round ≤ 3)
      × (p.next_phase_ms ≡ start_ms + 3000 + 500 * p.sync_round)
      × (start_ms + 2500 + 500 * p.sync_round ≤ now_ms)
      × (p.sync_maintainer ≡ false)
  InPhase choosing p =
      (1 ≤ p.sync_round)
      × (p.sync_round ≤ 3)
      × (p.next_phase_ms ≡ start_ms + 4500 + 1000 * p.sync_round)
      × (start_ms + 3500 + 1000 * p.sync_round ≤ now_ms)
      × (p.sync_maintainer ≡ true)
  InPhase periodic p = (p.sync_round ≡ 0) × (start_ms + 7500 ≤ now_ms) × (p.sync_maintainer ≡ true)

  record OnSchedule (p : Presence) : Type 0 where
    phase : PresencePhase
    at : p.phase ≡ phase
    inside : InPhase phase p

  module _ (low : now_ms ≤ u64_max - 60000) where
    phase_next_at-OnSchedule :
        (phase : PresencePhase) (p : Presence)
        → p.phase ≡ phase
        → p.next_phase_ms ≤ now_ms
        → InPhase phase p
        → OnSchedule (phase_next_at phase p)
    unfolding phase_next_at
    phase_next_at-OnSchedule down p e due h = absurd h
    phase_next_at-OnSchedule wait_sync p e due h = record {
      phase = asking;
      at = refl;
      inside = ground arith;
    }
    phase_next_at-OnSchedule asking p e due h = elim (Bool-cases (ltb p.sync_round sync_rounds)) [
      | inl l ↦ rw l (record { phase = asking; at = e; inside = ground arith })
      | inr l ↦ rw l (record { phase = choosing; at = refl; inside = ground arith })
    ]
    phase_next_at-OnSchedule choosing p e due h = elim (Bool-cases (ltb p.sync_round sync_rounds)) [
      | inl l ↦ rw l (record { phase = choosing; at = e; inside = ground arith })
      | inr l ↦ rw l (record { phase = periodic; at = refl; inside = ground arith })
    ]
    phase_next_at-OnSchedule periodic p e due h =
        rw h.2 (record { phase = periodic; at = e; inside = ground arith })

    peer_second-InPhase :
        (phase : PresencePhase) (p : Presence) (peers : List PresencePeer) (at_ms : ℕ)
        → InPhase phase p
        → InPhase phase (record p { peers = peers; next_peer_tick_ms = at_ms })
    peer_second-InPhase down p peers at_ms h = h
    peer_second-InPhase wait_sync p peers at_ms h = h
    peer_second-InPhase asking p peers at_ms h = h
    peer_second-InPhase choosing p peers at_ms h = h
    peer_second-InPhase periodic p peers at_ms h = h

    timer_next-OnSchedule :
        (p : Presence) → OnSchedule p → is_due p now_ms ≡ true → OnSchedule (timer_next p)
    unfolding timer_next
    timer_next-OnSchedule p v due = elim (Bool-cases (leb p.next_peer_tick_ms p.next_phase_ms)) [
      | inl e ↦ rw e (record {
        phase = v.phase;
        at = v.at;
        inside =
            peer_second-InPhase v.phase p (map aged p.peers) (u64 (p.next_peer_tick_ms + 1000))
              v.inside;
      })
      | inr e ↦ rw e (
          phase_next_at-OnSchedule p.phase p refl (ground arith)
            (subst (λ f. InPhase f p) (sym v.at) v.inside))
    ]

  InPhase-scheduled :
      (phase : PresencePhase) (p : Presence)
      → start_ms ≤ now_ms
      → now_ms < p.next_phase_ms
      → InPhase phase p
      → (phase ≡ scheduled_phase (now_ms - start_ms))
        × (p.sync_round ≡ scheduled_round (now_ms - start_ms))
        × (p.sync_maintainer ≡ leb 4500 (now_ms - start_ms))
  InPhase-scheduled down p le before h = absurd h
  InPhase-scheduled wait_sync p le before h = ground arith
  InPhase-scheduled asking p le before h = ground arith
  InPhase-scheduled choosing p le before h = ground arith
  InPhase-scheduled periodic p le before h = ground arith

presence_start_inv :
    (p : Presence) (identity : Address) (start_ms : ℕ) {q : Presence}
    → presence_start p identity start_ms ≡ (ok, q)
    → (l : List Address) × (q ≡ started identity l start_ms)
unfolding presence_start start_with
presence_start_inv p identity start_ms h = elim (Option-cases (indoor_peers identity)) [
  | inl e ↦ absurd (ground arith)
  | inr (l, e) ↦ (l, ground arith)
]

-- A unit that is started and hears nothing waits three seconds, asks three rounds at half a second each,
-- offers to keep the shared state for three rounds at a second each, and is periodic from 7.5 seconds
-- on: a tick that succeeds leaves the phase and round of the time since the start, and the unit takes
-- itself for the maintainer exactly from 4.5 seconds on.
pub presence_schedule :
    (emit : Emit) (p : Presence) (identity : Address) (start_ms now_ms : ℕ) (t : Trace)
    {q r : Presence} {u : Trace}
    → now_ms ≤ u64_max - 60000
    → presence_start p identity start_ms ≡ (ok, q)
    → presence_tick (some emit) q now_ms t ≡ some (ok, r, u)
    → (r.phase ≡ scheduled_phase (now_ms - start_ms))
      × (r.sync_round ≡ scheduled_round (now_ms - start_ms))
      × (r.sync_maintainer ≡ leb 4500 (now_ms - start_ms))
presence_schedule emit p identity start_ms now_ms t {q} {r} low begun ticked =
    let (l, eq) = presence_start_inv p identity start_ms begun in
    let (up, before, run) = presence_tick_inv emit q now_ms t ticked in
    let v : OnSchedule start_ms now_ms q =
      rw eq (record { phase = wait_sync; at = refl; inside = (refl, refl, refl) }) in
    let after_start : start_ms ≤ now_ms = ground (arith, eq) in
    elim (tick_loop-Ends (OnSchedule start_ms now_ms) emit now_ms
      (timer_next-OnSchedule start_ms now_ms low) (tick_fuel q now_ms) q t v run) [
        | inl (failed, _) ↦ absurd (ground arith)
        | inr (e, fine, s, quiet, same) ↦
            let (a, b, c) =
              InPhase-scheduled start_ms now_ms s.phase e after_start (ground arith) s.inside in
            rw same (s.at ∙ a, b, c)
      ]
