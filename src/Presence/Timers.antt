-- ===== src/Presence/Timers.antt =====
-- src/gvs_presence.c: what a step of the two timers does to the state, whatever the callback is told.
use mathlib.Core.Option.{some-injective}
use doorfast.Prelude.{
  ℕ, ◌+◌, ◌≡◌, refl, sym, true, false, ◌||◌, not, some, List, [], ◌∷◌, map, inl, inr, Bool-cases,
  Option-cases, ltb, leb, arith, if◌then◌else◌, u64,
}
use doorfast.Frame.Serialize.{PresenceActionType}
use doorfast.Presence.{
  PresencePhase, down, wait_sync, asking, choosing, periodic, PresencePeer, Presence, Trace, Emit,
  Emits, pure, ◌>>=◌, aged, notify, peer_tick, announce, emit_indoor, after, phase_tick,
  phase_tick_at, timer_step, is_down, sync_ask_interval_ms, sync_choose_interval_ms,
  periodic_sync_interval_ms, sync_rounds,
}

-- The states that a phase's timer leads to.
abbrev pub first_ask : Presence → Presence
first_ask p = record (after p sync_ask_interval_ms) { phase = asking; sync_round = 1 }

abbrev pub next_ask : Presence → Presence
next_ask p = record (after p sync_ask_interval_ms) { sync_round = p.sync_round + 1 }

abbrev pub first_choice : Presence → Presence
first_choice p = record (after p sync_choose_interval_ms) {
  phase = choosing;
  sync_maintainer = true;
  sync_round = 1;
}

abbrev pub next_choice : Presence → Presence
next_choice p = record (after p sync_choose_interval_ms) { sync_round = p.sync_round + 1 }

abbrev pub settled : Presence → Presence
settled p = record (after p periodic_sync_interval_ms) { phase = periodic; sync_round = 0 }

abbrev pub missed : Presence → Presence
missed p = record (after p periodic_sync_interval_ms) { periodic_misses = p.periodic_misses + 1 }

abbrev pub maintained : Presence → Presence
maintained p = record (after p periodic_sync_interval_ms) {
  periodic_misses = 0;
  sync_maintainer = true;
}

-- The next state of a phase's timer.
unfoldable pub phase_next_at : PresencePhase → Presence → Presence
phase_next_at down p = p
phase_next_at wait_sync p = first_ask p
phase_next_at asking p = if ltb p.sync_round sync_rounds then next_ask p else first_choice p
phase_next_at choosing p = if ltb p.sync_round sync_rounds then next_choice p else settled p
phase_next_at periodic p =
    if p.sync_maintainer || not (ltb (p.periodic_misses + 1) 2) then maintained p else missed p

-- The next state of the two timers.
unfoldable pub timer_next : Presence → Presence
unfolding phase_next_at
timer_next p =
    if leb p.next_peer_tick_ms p.next_phase_ms
    then record p { peers = map aged p.peers; next_peer_tick_ms = u64 (p.next_peer_tick_ms + 1000) }
    else phase_next_at p.phase p

-- A sequence that has succeeded has succeeded in both its parts.
pub >>=-eq-some :
    {A B : Type 0} (m : Emits A) (f : A → Emits B) (emit : Emit) (t : Trace) {b : B}
    → ((m >>= f) emit t).0 ≡ some b
    → (a : A) × (u : Trace) × ((m emit t).0 ≡ some a) × ((f a emit u).0 ≡ some b)
>>=-eq-some m f emit t h = elim (Option-cases (m emit t).0) [
  | inl failed ↦ absurd (ground arith)
  | inr (a, e) ↦ (a, (m emit t).1, e, ground arith)
]

peer_tick-eq-some :
    (ps : List PresencePeer) (emit : Emit) (t : Trace) {qs : List PresencePeer}
    → (peer_tick ps emit t).0 ≡ some qs
    → qs ≡ map aged ps
unfolding peer_tick
peer_tick-eq-some [] emit t h = sym (some-injective _ _ h)
peer_tick-eq-some (p ∷ ps) emit t h =
    let (a, u, ea, told) =
      >>=-eq-some (notify p) (λ _. peer_tick ps >>= λ rest. pure (aged p ∷ rest)) emit t h in
    let (rest, v, er, whole) =
      >>=-eq-some (peer_tick ps) (λ rest. pure (aged p ∷ rest)) emit u told in
    ground (arith, peer_tick-eq-some ps emit u er)

announce-eq-some :
    (p : Presence) (kind : PresenceActionType) (round : ℕ) (emit : Emit) (t : Trace) {q : Presence}
    → (announce p kind round emit t).0 ≡ some q
    → q ≡ p
unfolding announce
announce-eq-some p kind round emit t h =
    let (a, u, e, whole) = >>=-eq-some (emit_indoor kind round p.peers) (λ _. pure p) emit t h in
    sym (some-injective _ _ whole)

-- Whatever it emits, a phase's step ends in the next state, if it succeeds.
phase_tick_at-eq-some :
    (phase : PresencePhase) (p : Presence) (emit : Emit) (t : Trace) {q : Presence}
    → (phase_tick_at phase p emit t).0 ≡ some q
    → (q ≡ phase_next_at phase p) × (is_down phase ≡ false)
unfolding phase_tick_at phase_next_at
phase_tick_at-eq-some down p emit t h = absurd (ground arith)
phase_tick_at-eq-some wait_sync p emit t h = (announce-eq-some _ _ _ emit t h, refl)
phase_tick_at-eq-some asking p emit t h = elim (Bool-cases (ltb p.sync_round sync_rounds)) [
  | inl e ↦ rw e (announce-eq-some _ _ _ emit t (rw e at h), refl)
  | inr e ↦ rw e (announce-eq-some _ _ _ emit t (rw e at h), refl)
]
phase_tick_at-eq-some choosing p emit t h = elim (Bool-cases (ltb p.sync_round sync_rounds)) [
  | inl e ↦ rw e (announce-eq-some _ _ _ emit t (rw e at h), refl)
  | inr e ↦ rw e (sym (some-injective _ _ (rw e at h)), refl)
]
phase_tick_at-eq-some periodic p emit t h = elim (Bool-cases p.sync_maintainer) [
  | inl e ↦ rw e (announce-eq-some _ _ _ emit t (rw e at h), refl)
  | inr e ↦ elim (Bool-cases (ltb (p.periodic_misses + 1) 2)) [
    | inl l ↦ rw (e, l) (sym (some-injective _ _ (rw (e, l) at h)), refl)
    | inr l ↦ rw (e, l) (announce-eq-some _ _ _ emit t (rw (e, l) at h), refl)
  ]
]

abbrev pub peers_told : Presence → List PresencePeer → Emits Presence
peers_told p peers =
    pure (record p { peers = peers; next_peer_tick_ms = u64 (p.next_peer_tick_ms + 1000) })

-- Whatever it emits, a timer's step ends in the next state, if it succeeds.
pub timer_step-eq-some :
    (p : Presence) (emit : Emit) (t : Trace) {q : Presence}
    → (timer_step p emit t).0 ≡ some q
    → q ≡ timer_next p
unfolding timer_step timer_next phase_tick
timer_step-eq-some p emit t h = elim (Bool-cases (leb p.next_peer_tick_ms p.next_phase_ms)) [
  | inl e ↦
      let (peers, u, ep, whole) =
        >>=-eq-some (peer_tick p.peers) (peers_told p) emit t (rw e at h) in
      rw e (ground (arith, peer_tick-eq-some p.peers emit t ep))
  | inr e ↦ rw e (phase_tick_at-eq-some p.phase p emit t (rw e at h)).0
]
