-- ===== src/Presence/Split.antt =====
-- src/gvs_presence.c: `df_gvs_presence_tick` called often and called seldom.
use mathlib.Core.Option
use mathlib.Core.Option.{some-injective}
use doorfast.Prelude.{
  ℕ, zero, suc, ◌+◌, ◌-◌, ◌≤◌, ◌≡◌, refl, sym, ◌∙◌, true, false, Option, none, some, inl, inr,
  Bool-cases, Option-cases, ltb, leb, arith, Status, ok, u64_max,
}
use doorfast.Frame.Serialize.{PresenceActionType, sync_ask, sync_version_ask, periodic_sync}
use doorfast.Presence.{
  PresencePhase, down, wait_sync, asking, choosing, periodic, Presence, Trace, Emit, announce,
  emit_indoor, peer_tick, phase_tick, phase_tick_at, timer_step, is_due, is_down, tick_loop,
  tick_fuel, presence_tick, sync_rounds,
}
use doorfast.Presence.Timers.{first_ask, next_ask, first_choice, next_choice, maintained}
use doorfast.Presence.Loop.{
  tick_loop_quiet, tick_loop_failed, tick_loop_step, tick_loop-Ends, tick_loop_returns,
  timer_next_up,
}

abbrev pub stamp : ℕ → Presence → Presence
stamp now_ms p = record p { last_now_ms = now_ms }

abbrev stamped : ℕ → Option Presence × Trace → Option Presence × Trace
stamped now_ms (r, u) = (Option.map (stamp now_ms) r, u)

announce-stamp :
    (x : ℕ) (p : Presence) (kind : PresenceActionType) (round : ℕ) (emit : Emit) (t : Trace)
    → announce (stamp x p) kind round emit t ≡ stamped x (announce p kind round emit t)
unfolding announce
announce-stamp x p kind round emit t =
    elim (Option-cases (emit_indoor kind round p.peers emit t).0) [
      | inl e ↦ ground arith
      | inr (a, e) ↦ ground arith
    ]

phase_tick_at-stamp :
    (x : ℕ) (phase : PresencePhase) (p : Presence) (emit : Emit) (t : Trace)
    → phase_tick_at phase (stamp x p) emit t ≡ stamped x (phase_tick_at phase p emit t)
unfolding phase_tick_at
phase_tick_at-stamp x down p emit t = refl
phase_tick_at-stamp x wait_sync p emit t = announce-stamp x (first_ask p) sync_ask 1 emit t
phase_tick_at-stamp x asking p emit t = elim (Bool-cases (ltb p.sync_round sync_rounds)) [
  | inl e ↦ rw e (announce-stamp x (next_ask p) sync_ask (p.sync_round + 1) emit t)
  | inr e ↦ rw e (announce-stamp x (first_choice p) sync_version_ask 1 emit t)
]
phase_tick_at-stamp x choosing p emit t = elim (Bool-cases (ltb p.sync_round sync_rounds)) [
  | inl e ↦ rw e (announce-stamp x (next_choice p) sync_version_ask (p.sync_round + 1) emit t)
  | inr e ↦ rw e refl
]
phase_tick_at-stamp x periodic p emit t = elim (Bool-cases p.sync_maintainer) [
  | inl e ↦ rw e (announce-stamp x (maintained p) periodic_sync 0 emit t)
  | inr e ↦ elim (Bool-cases (ltb (p.periodic_misses + 1) 2)) [
    | inl l ↦ rw (e, l) refl
    | inr l ↦ rw (e, l) (announce-stamp x (maintained p) periodic_sync 0 emit t)
  ]
]

-- A timer's step does not read the time of the last call.
timer_step-stamp :
    (x : ℕ) (p : Presence) (emit : Emit) (t : Trace)
    → timer_step (stamp x p) emit t ≡ stamped x (timer_step p emit t)
unfolding timer_step phase_tick
timer_step-stamp x p emit t = elim (Bool-cases (leb p.next_peer_tick_ms p.next_phase_ms)) [
  | inl e ↦ rw e (elim (Option-cases (peer_tick p.peers emit t).0) [
    | inl n ↦ ground arith
    | inr (a, s) ↦ ground arith
  ])
  | inr e ↦ rw e (phase_tick_at-stamp x p.phase p emit t)
]

-- The same status and trace, and the same state up to the time of the last call; after a success the
-- same state.
abbrev pub Alike : Status × Presence × Trace → Status × Presence × Trace → Type 0
Alike (s, q, u) (s', q', u') = (s ≡ s') × (u ≡ u') × (stamp 0 q ≡ stamp 0 q') × (s ≡ ok → q ≡ q')

same-Alike : (e e' : Status × Presence × Trace) → e ≡ e' → Alike e e'
same-Alike e e' h = (ground arith, ground arith, ground arith, λ fine. ground arith)

module _ (x : ℕ) (emit : Emit) (now_ms : ℕ) where
  stamp_step :
      (p : Presence) (t : Trace) {q : Presence}
      → (timer_step p emit t).0 ≡ some q
      → (timer_step (stamp x p) emit t).0 ≡ some (stamp x q)
  stamp_step p t step = rw (timer_step-stamp x p emit t, step) refl

  stamp_failed :
      (p : Presence) (t : Trace)
      → (timer_step p emit t).0 ≡ none
      → (timer_step (stamp x p) emit t).0 ≡ none
  stamp_failed p t step = rw (timer_step-stamp x p emit t, step) refl

  stamp_trace :
      (p : Presence) (t : Trace) → (timer_step (stamp x p) emit t).1 ≡ (timer_step p emit t).1
  stamp_trace p t = rw (timer_step-stamp x p emit t) refl

  tick_loop-stamp :
      (fuel : ℕ) (p : Presence) (t : Trace) {e : Status × Presence × Trace}
      → tick_loop emit fuel now_ms (stamp x p) t ≡ some e
      → (e' : Status × Presence × Trace) × (tick_loop emit fuel now_ms p t ≡ some e') × Alike e e'
  unfolding tick_loop
  tick_loop-stamp zero p t run = absurd (ground arith)
  tick_loop-stamp (suc fuel) p t {e} run = elim (Bool-cases (is_due p now_ms)) [
    | inr quiet ↦
        let end = sym (tick_loop_quiet emit fuel now_ms (stamp x p) t quiet) ∙ run in
        (
          _,
          tick_loop_quiet emit fuel now_ms p t quiet,
          same-Alike _ _ (sym (some-injective _ _ end)),
        )
    | inl due ↦ elim (Option-cases (timer_step p emit t).0) [
      | inl failed ↦
          let end =
            sym (tick_loop_failed emit fuel now_ms (stamp x p) t due (stamp_failed p t failed))
            ∙ run in
          let trace = stamp_trace p t in
          (
            _,
            tick_loop_failed emit fuel now_ms p t due failed,
            (ground arith, ground arith, ground arith, λ fine. ground arith),
          )
      | inr (q, step) ↦
          let inner =
            sym (tick_loop_step emit fuel now_ms (stamp x p) t due (stamp_step p t step)) ∙ run in
          let (e', run', alike) =
            tick_loop-stamp fuel q (timer_step p emit t).1 (rw (← stamp_trace p t) inner) in
          (e', tick_loop_step emit fuel now_ms p t due step ∙ run', alike)
    ]
  ]

-- Two runs of the loop that both return agree, whatever their fuel.
tick_loop_det :
    (emit : Emit) (now_ms fuel fuel' : ℕ) (p : Presence) (t : Trace)
    {e e' : Status × Presence × Trace}
    → tick_loop emit fuel now_ms p t ≡ some e
    → tick_loop emit fuel' now_ms p t ≡ some e'
    → e ≡ e'
unfolding tick_loop
tick_loop_det emit now_ms zero fuel' p t run run' = absurd (ground arith)
tick_loop_det emit now_ms (suc fuel) zero p t run run' = absurd (ground arith)
tick_loop_det emit now_ms (suc fuel) (suc fuel') p t run run' =
    elim (Bool-cases (is_due p now_ms)) [
      | inr quiet ↦ some-injective _ _ (
          sym run
          ∙ tick_loop_quiet emit fuel now_ms p t quiet
          ∙ sym (tick_loop_quiet emit fuel' now_ms p t quiet)
          ∙ run')
      | inl due ↦ elim (Option-cases (timer_step p emit t).0) [
        | inl failed ↦ some-injective _ _ (
            sym run
            ∙ tick_loop_failed emit fuel now_ms p t due failed
            ∙ sym (tick_loop_failed emit fuel' now_ms p t due failed)
            ∙ run')
        | inr (q, step) ↦
            tick_loop_det emit now_ms fuel fuel' q (timer_step p emit t).1
              (sym (tick_loop_step emit fuel now_ms p t due step) ∙ run)
              (sym (tick_loop_step emit fuel' now_ms p t due step) ∙ run')
      ]
    ]

due_later :
    (p : Presence) (now_ms later_ms : ℕ)
    → now_ms ≤ later_ms
    → is_due p now_ms ≡ true
    → is_due p later_ms ≡ true
due_later p now_ms later_ms le due = ground arith

-- A run that stops early and a run on from there are a run.
tick_loop_split :
    (emit : Emit) (now_ms later_ms fuel more : ℕ) (p : Presence) (t : Trace) {q : Presence}
    {u : Trace} {e : Status × Presence × Trace}
    → now_ms ≤ later_ms
    → tick_loop emit fuel now_ms p t ≡ some (ok, q, u)
    → tick_loop emit more later_ms q u ≡ some e
    → (total : ℕ) × (e' : Status × Presence × Trace) × (tick_loop emit total later_ms p t ≡ some e')
      × Alike e e'
unfolding tick_loop
tick_loop_split emit now_ms later_ms zero more p t le run on = absurd (ground arith)
tick_loop_split emit now_ms later_ms (suc fuel) more p t {q} {u} {e} le run on =
    elim (Bool-cases (is_due p now_ms)) [
      | inr quiet ↦
          let end = sym (tick_loop_quiet emit fuel now_ms p t quiet) ∙ run in
          let eq : q ≡ stamp now_ms p = ground arith in
          let eu : u ≡ t = ground arith in
          let from : tick_loop emit more later_ms (stamp now_ms p) t ≡ some e =
            rw (← eq, ← eu) on in
          let (e', run', alike) = tick_loop-stamp now_ms emit later_ms more p t from in
          (more, e', run', alike)
      | inl due ↦ elim (Option-cases (timer_step p emit t).0) [
        | inl failed ↦
            let end = sym (tick_loop_failed emit fuel now_ms p t due failed) ∙ run in
            absurd (ground arith)
        | inr (r, step) ↦
            let (total, e', run', alike) =
              tick_loop_split emit now_ms later_ms fuel more r (timer_step p emit t).1 le
                (sym (tick_loop_step emit fuel now_ms p t due step) ∙ run) on in
            (
              suc total,
              e',
              tick_loop_step emit total later_ms p t (due_later p now_ms later_ms le due) step
                  ∙ run',
              alike,
            )
      ]
    ]

-- A tick that succeeds has passed the guards, and leaves a unit that is up and its time noted.
pub presence_tick_inv :
    (emit : Emit) (p : Presence) (now_ms : ℕ) (t : Trace) {q : Presence} {u : Trace}
    → presence_tick (some emit) p now_ms t ≡ some (ok, q, u)
    → (is_down p.phase ≡ false)
      × (p.last_now_ms ≤ now_ms)
      × (tick_loop emit (tick_fuel p now_ms) now_ms p t ≡ some (ok, q, u))
unfolding presence_tick
presence_tick_inv emit p now_ms t h = ground arith

pub presence_tick_go :
    (emit : Emit) (p : Presence) (now_ms : ℕ) (t : Trace)
    → is_down p.phase ≡ false
    → p.last_now_ms ≤ now_ms
    → presence_tick (some emit) p now_ms t ≡ tick_loop emit (tick_fuel p now_ms) now_ms p t
unfolding presence_tick
presence_tick_go emit p now_ms t up le = ground arith

pub tick_loop_up :
    (emit : Emit) (fuel now_ms : ℕ) (p : Presence) (t : Trace) {q : Presence} {u : Trace}
    → is_down p.phase ≡ false
    → tick_loop emit fuel now_ms p t ≡ some (ok, q, u)
    → (is_down q.phase ≡ false) × (q.last_now_ms ≡ now_ms)
tick_loop_up emit fuel now_ms p t up run =
    elim (tick_loop-Ends (λ q. is_down q.phase ≡ false) emit now_ms (λ q h due. timer_next_up q h)
      fuel p t up run) [
        | inl (failed, _) ↦ absurd (ground arith)
        | inr (r, s, h, quiet, eq) ↦ (ground arith, ground arith)
      ]

-- How often the timers are driven does not matter: after a tick that succeeds, a tick at a later time
-- does what one tick at the later time would have done from the start. The status and the actions are
-- the same, and so is the state, after a failure up to the time that it notes as its last call.
pub presence_tick_split :
    (emit : Emit) (p : Presence) (now_ms later_ms : ℕ) (t : Trace) {q : Presence} {u : Trace}
    → now_ms ≤ later_ms
    → later_ms ≤ u64_max - 60000
    → presence_tick (some emit) p now_ms t ≡ some (ok, q, u)
    → (e e' : Status × Presence × Trace) × (presence_tick (some emit) q later_ms u ≡ some e)
      × (presence_tick (some emit) p later_ms t ≡ some e')
      × Alike e e'
presence_tick_split emit p now_ms later_ms t {q} {u} le low h =
    let (up, before, run) = presence_tick_inv emit p now_ms t h in
    let (up', at) = tick_loop_up emit (tick_fuel p now_ms) now_ms p t up run in
    let (e, on) =
      tick_loop_returns emit (tick_fuel q later_ms) later_ms q u up' low (omega arith) in
    let (e', once) =
      tick_loop_returns emit (tick_fuel p later_ms) later_ms p t up low (omega arith) in
    let (total, e'', run'', alike) =
      tick_loop_split emit now_ms later_ms (tick_fuel p now_ms) (tick_fuel q later_ms) p t le run
        on in
    let same = tick_loop_det emit later_ms total (tick_fuel p later_ms) p t run'' once in
    (
      e,
      e',
      presence_tick_go emit q later_ms u up' (omega arith) ∙ on,
      presence_tick_go emit p later_ms t up (omega arith) ∙ once,
      rw (← same) alike,
    )
