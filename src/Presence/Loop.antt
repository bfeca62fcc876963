-- ===== src/Presence/Loop.antt =====
-- src/gvs_presence.c: the loop of `df_gvs_presence_tick`, by its invariant and its measure.
use doorfast.Prelude.{
  ℕ, zero, suc, err_invalid, ◌+◌, ◌-◌, ◌≤◌, ◌<◌, ◌≡◌, refl, sym, ◌∙◌, ◌⊎◌, true, false, ◌||◌, none,
  some, inl, inr, Bool-cases, Option-cases, ltb, arith, Status, ok, err_io, u64_max, u64,
}
use doorfast.Presence.{
  PresencePhase, down, wait_sync, asking, choosing, periodic, Presence, Trace, Emit, timer_step,
  is_due, is_down, tick_loop, tick_fuel, presence_tick, sync_rounds,
}
use doorfast.Presence.Timers.{timer_next, phase_next_at, timer_step-eq-some}

-- How the loop ends: with a failure of the callback, or with no timer due and the time noted.
abbrev pub Ends : (Presence → Type 0) → ℕ → Status × Presence × Trace → Type 0
Ends P now_ms (s, q, u) =
    ((s ≡ err_io) × P q)
    ⊎ ((r : Presence) × (s ≡ ok)
        × P r
        × (is_due r now_ms ≡ false)
        × (q ≡ record r { last_now_ms = now_ms }))

module _ (emit : Emit) (fuel now_ms : ℕ) (p : Presence) (t : Trace) where
  pub tick_loop_quiet :
      is_due p now_ms ≡ false
      → tick_loop emit (suc fuel) now_ms p t ≡ some (ok, record p { last_now_ms = now_ms }, t)
  unfolding tick_loop
  tick_loop_quiet quiet = rw (quiet, tick_loop)

  pub tick_loop_failed :
      is_due p now_ms ≡ true
      → (timer_step p emit t).0 ≡ none
      → tick_loop emit (suc fuel) now_ms p t ≡ some (err_io, p, (timer_step p emit t).1)
  unfolding tick_loop
  tick_loop_failed due failed = rw (due, tick_loop) (ground arith)

  pub tick_loop_step :
      {q : Presence}
      → is_due p now_ms ≡ true
      → (timer_step p emit t).0 ≡ some q
      → tick_loop emit (suc fuel) now_ms p t ≡ tick_loop emit fuel now_ms q (timer_step p emit t).1
  unfolding tick_loop
  tick_loop_step due step = rw (due, tick_loop) (ground arith)

module _ (P : Presence → Type 0) (emit : Emit) (now_ms : ℕ) where
  -- What a step that is due keeps holds at the end of the loop.
  pub tick_loop-Ends :
      ((p : Presence) → P p → is_due p now_ms ≡ true → P (timer_next p))
      → (fuel : ℕ) (p : Presence) (t : Trace) {e : Status × Presence × Trace} → P p
      → tick_loop emit fuel now_ms p t ≡ some e
      → Ends P now_ms e
  unfolding tick_loop
  tick_loop-Ends keep zero p t h run = absurd (ground arith)
  tick_loop-Ends keep (suc fuel) p t {e} h run = elim (Bool-cases (is_due p now_ms)) [
    | inl due ↦ elim (Option-cases (timer_step p emit t).0) [
      | inl failed ↦
          let end = sym (tick_loop_failed emit fuel now_ms p t due failed) ∙ run in
          inl (ground arith, ground arith)
      | inr (q, step) ↦
          tick_loop-Ends keep fuel q (timer_step p emit t).1
            (rw (timer_step-eq-some p emit t step) (keep p h due))
            (sym (tick_loop_step emit fuel now_ms p t due step) ∙ run)
    ]
    | inr quiet ↦
        let end = sym (tick_loop_quiet emit fuel now_ms p t quiet) ∙ run in
        inr (p, ground arith, h, quiet, ground arith)
  ]

pub phase_next_at_up :
    (phase : PresencePhase) (p : Presence)
    → is_down phase ≡ false
    → p.phase ≡ phase
    → is_down (phase_next_at phase p).phase ≡ false
unfolding phase_next_at
phase_next_at_up down p up e = absurd (ground arith)
phase_next_at_up wait_sync p up e = ground arith
phase_next_at_up asking p up e = ground arith
phase_next_at_up choosing p up e = ground arith
phase_next_at_up periodic p up e = ground arith

pub timer_next_up : (p : Presence) → is_down p.phase ≡ false → is_down (timer_next p).phase ≡ false
unfolding timer_next
timer_next_up p up = ground (arith, phase_next_at_up p.phase p up refl)

-- What a phase's step leaves of the peers' timer, and how far it sets its own.
pub phase_next_at_timers :
    (phase : PresencePhase) (p : Presence)
    → is_down phase ≡ false
    → let q = phase_next_at phase p in
      (q.next_peer_tick_ms ≡ p.next_peer_tick_ms)
      × ((q.next_phase_ms ≡ u64 (p.next_phase_ms + 500))
          ⊎ ((q.next_phase_ms ≡ u64 (p.next_phase_ms + 1000))
              ⊎ (q.next_phase_ms ≡ u64 (p.next_phase_ms + 60000))))
unfolding phase_next_at
phase_next_at_timers down p up = absurd (ground arith)
phase_next_at_timers wait_sync p up = (refl, inl refl)
phase_next_at_timers asking p up = elim (Bool-cases (ltb p.sync_round sync_rounds)) [
  | inl e ↦ rw e (refl, inl refl)
  | inr e ↦ rw e (refl, inr (inl refl))
]
phase_next_at_timers choosing p up = elim (Bool-cases (ltb p.sync_round sync_rounds)) [
  | inl e ↦ rw e (refl, inr (inl refl))
  | inr e ↦ rw e (refl, inr (inr refl))
]
phase_next_at_timers periodic p up = elim (Bool-cases p.sync_maintainer) [
  | inl e ↦ rw e (refl, inr (inr refl))
  | inr e ↦ elim (Bool-cases (ltb (p.periodic_misses + 1) 2)) [
    | inl l ↦ rw (e, l) (refl, inr (inr refl))
    | inr l ↦ rw (e, l) (refl, inr (inr refl))
  ]
]

-- How far the two timers are behind.
abbrev pub behind : Presence → ℕ → ℕ
behind p now_ms = (suc now_ms - p.next_peer_tick_ms) + (suc now_ms - p.next_phase_ms)

-- A step that is due brings the timers on, where they do not wrap.
pub timer_next-behind :
    (p : Presence) (now_ms : ℕ)
    → is_down p.phase ≡ false
    → now_ms ≤ u64_max - 60000
    → is_due p now_ms ≡ true
    → behind (timer_next p) now_ms < behind p now_ms
unfolding timer_next
timer_next-behind p now_ms up low due = ground (arith, phase_next_at_timers p.phase p up)

pub tick_loop_returns :
    (emit : Emit) (fuel now_ms : ℕ) (p : Presence) (t : Trace)
    → is_down p.phase ≡ false
    → now_ms ≤ u64_max - 60000
    → behind p now_ms < fuel
    → (e : Status × Presence × Trace) × (tick_loop emit fuel now_ms p t ≡ some e)
tick_loop_returns emit zero now_ms p t up low enough = absurd (omega arith)
tick_loop_returns emit (suc fuel) now_ms p t up low enough = elim (Bool-cases (is_due p now_ms)) [
  | inr quiet ↦ (_, tick_loop_quiet emit fuel now_ms p t quiet)
  | inl due ↦ elim (Option-cases (timer_step p emit t).0) [
    | inl failed ↦ (_, tick_loop_failed emit fuel now_ms p t due failed)
    | inr (q, step) ↦
        let e = timer_step-eq-some p emit t step in
        let (r, run) =
          tick_loop_returns emit fuel now_ms q (timer_step p emit t).1 (rw e (timer_next_up p up))
            low (rw e (omega (arith, timer_next-behind p now_ms up low due, enough))) in
        (r, tick_loop_step emit fuel now_ms p t due step ∙ run)
  ]
]

-- A tick ends, at any time that leaves a minute below the greatest: it refuses, or the callback has
-- failed, or it has run every timer that was due, both stand later than the time, and the time is noted.
pub presence_tick_ends :
    (emit : Emit) (p : Presence) (now_ms : ℕ) (t : Trace)
    → now_ms ≤ u64_max - 60000
    → (status : Status) × (q : Presence) × (u : Trace) × (presence_tick (some emit) p now_ms t
        ≡ some (status, q, u))
      × (((status ≡ err_invalid) × (q ≡ p) × (u ≡ t))
          ⊎ ((status ≡ err_io)
              ⊎ ((status ≡ ok)
                  × (now_ms < q.next_peer_tick_ms)
                  × (now_ms < q.next_phase_ms)
                  × (q.last_now_ms ≡ now_ms))))
unfolding presence_tick
presence_tick_ends emit p now_ms t low =
    elim (Bool-cases (is_down p.phase || ltb now_ms p.last_now_ms)) [
      | inl refuse ↦ rw refuse (err_invalid, p, t, refl, inl (refl, refl, refl))
      | inr go ↦
          let (e, run) =
            tick_loop_returns emit (tick_fuel p now_ms) now_ms p t (ground arith) low
              (omega arith) in
          let ends =
            tick_loop-Ends (λ q. Unit {0}) emit now_ms (λ q h due. tt) (tick_fuel p now_ms) p t tt
              run in
          rw go (
            e.0,
            e.1,
            e.2,
            run,
            inr (elim ends [
              | inl (failed, _) ↦ inl failed
              | inr (r, s, _, quiet, eq) ↦ inr (s, ground arith, ground arith, ground arith)
            ]),
          )
    ]
