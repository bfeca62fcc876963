-- ===== src/Presence/Endless.antt =====
-- src/gvs_presence.c: the loop of `df_gvs_presence_tick` at the greatest time.
use doorfast.Prelude.{
  ℕ, zero, suc, ◌+◌, ◌%◌, ◌≤◌, ◌≡◌, refl, ◌∙◌, Bool, true, false, none, some, List, [], ◌∷◌, map,
  ◌-◌, inl, inr, Bool-cases, ltb, leb, ◌==◌, arith, u64_max, Address,
}
use doorfast.Frame.Serialize.{
  PresenceActionType, PresenceAction, peer_offline, peer_probe, sync_ask, sync_version_ask,
  periodic_sync,
}
use doorfast.Presence.{
  PresencePhase, down, wait_sync, asking, choosing, periodic, PresencePeer, Presence, Trace, Emit,
  Emits, pure, ◌>>=◌, aged, presence_emit, emit_if, notify, announce, emit_indoor, peer_tick,
  phase_tick, phase_tick_at, timer_step, is_due, is_down, tick_loop, sync_rounds,
}
use doorfast.Presence.Timers.{
  timer_next, phase_next_at, peers_told, first_ask, next_ask, first_choice, next_choice, maintained,
}
use doorfast.Presence.Loop.{tick_loop_step, timer_next_up, phase_next_at_timers}

module _ (emit : Emit) (accepts : (t : Trace) (a : PresenceAction) → emit t a ≡ true) where
  emit_accepted :
      (kind : PresenceActionType) (target : Address) (round : ℕ) (t : Trace)
      → (presence_emit kind target round emit t).0 ≡ some tt
  unfolding presence_emit
  emit_accepted kind target round t =
      rw (accepts t (record { kind = kind; target = target; round = round })) refl

  accepted_then :
      {A B : Type 0} (m : Emits A) (f : A → Emits B) (t : Trace) {a : A} {b : B}
      → (m emit t).0 ≡ some a
      → (f a emit (m emit t).1).0 ≡ some b
      → ((m >>= f) emit t).0 ≡ some b
  accepted_then m f t first rest = ground arith

  emit_if_accepted :
      (test : Bool) (kind : PresenceActionType) (target : Address) (round : ℕ) (t : Trace)
      → (emit_if test (presence_emit kind target round) emit t).0 ≡ some tt
  emit_if_accepted true kind target round t = emit_accepted kind target round t
  emit_if_accepted false kind target round t = refl

  emit_indoor_accepted :
      (kind : PresenceActionType) (round : ℕ) (ps : List PresencePeer) (t : Trace)
      → (emit_indoor kind round ps emit t).0 ≡ some tt
  unfolding emit_indoor
  emit_indoor_accepted kind round [] t = refl
  emit_indoor_accepted kind round (p ∷ ps) t =
      let told : Emits (Unit {0}) =
        emit_if (p.address.b0 == 0x61) (presence_emit kind p.address round) in
      accepted_then told (λ _. emit_indoor kind round ps) t
        (emit_if_accepted (p.address.b0 == 0x61) kind p.address round t)
        (emit_indoor_accepted kind round ps (told emit t).1)

  notify_accepted : (p : PresencePeer) (t : Trace) → (notify p emit t).0 ≡ some tt
  unfolding notify
  notify_accepted p t = elim (Bool-cases (p.seconds_remaining - 1 == 0)) [
    | inl e ↦ rw e (emit_accepted peer_offline p.address 0 t)
    | inr e ↦ rw e (emit_if_accepted ((p.seconds_remaining - 1) % 30 == 0) peer_probe p.address 0 t)
  ]

  peer_tick_accepted :
      (ps : List PresencePeer) (t : Trace) → (peer_tick ps emit t).0 ≡ some (map aged ps)
  unfolding peer_tick
  peer_tick_accepted [] t = refl
  peer_tick_accepted (p ∷ ps) t =
      accepted_then (notify p) (λ _. peer_tick ps >>= λ rest. pure (aged p ∷ rest)) t
        (notify_accepted p t)
        (accepted_then (peer_tick ps) (λ rest. pure (aged p ∷ rest)) (notify p emit t).1
          (peer_tick_accepted ps (notify p emit t).1) refl)

  announce_accepted :
      (p : Presence) (kind : PresenceActionType) (round : ℕ) (t : Trace)
      → (announce p kind round emit t).0 ≡ some p
  unfolding announce
  announce_accepted p kind round t =
      accepted_then (emit_indoor kind round p.peers) (λ _. pure p) t
        (emit_indoor_accepted kind round p.peers t) refl

  phase_tick_at_accepted :
      (phase : PresencePhase) (p : Presence) (t : Trace)
      → is_down phase ≡ false
      → (phase_tick_at phase p emit t).0 ≡ some (phase_next_at phase p)
  unfolding phase_tick_at phase_next_at
  phase_tick_at_accepted down p t up = absurd (ground arith)
  phase_tick_at_accepted wait_sync p t up = announce_accepted (first_ask p) sync_ask 1 t
  phase_tick_at_accepted asking p t up = elim (Bool-cases (ltb p.sync_round sync_rounds)) [
    | inl e ↦ rw e (announce_accepted (next_ask p) sync_ask (p.sync_round + 1) t)
    | inr e ↦ rw e (announce_accepted (first_choice p) sync_version_ask 1 t)
  ]
  phase_tick_at_accepted choosing p t up = elim (Bool-cases (ltb p.sync_round sync_rounds)) [
    | inl e ↦ rw e (announce_accepted (next_choice p) sync_version_ask (p.sync_round + 1) t)
    | inr e ↦ rw e refl
  ]
  phase_tick_at_accepted periodic p t up = elim (Bool-cases p.sync_maintainer) [
    | inl e ↦ rw e (announce_accepted (maintained p) periodic_sync 0 t)
    | inr e ↦ elim (Bool-cases (ltb (p.periodic_misses + 1) 2)) [
      | inl l ↦ rw (e, l) refl
      | inr l ↦ rw (e, l) (announce_accepted (maintained p) periodic_sync 0 t)
    ]
  ]

  -- A callback that accepts everything makes every step of a timer succeed.
  pub timer_step_accepted :
      (p : Presence) (t : Trace)
      → is_down p.phase ≡ false
      → (timer_step p emit t).0 ≡ some (timer_next p)
  unfolding timer_step timer_next phase_tick
  timer_step_accepted p t up = elim (Bool-cases (leb p.next_peer_tick_ms p.next_phase_ms)) [
    | inl e ↦
        rw e
          (accepted_then (peer_tick p.peers) (peers_told p) t (peer_tick_accepted p.peers t) refl)
    | inr e ↦ rw e (phase_tick_at_accepted p.phase p t up)
  ]

  due_at_maximum : (p : Presence) → p.next_peer_tick_ms ≤ u64_max → is_due p u64_max ≡ true
  due_at_maximum p le = ground arith

  peer_timer_next :
      (p : Presence)
      → is_down p.phase ≡ false
      → p.next_peer_tick_ms ≤ u64_max
      → (timer_next p).next_peer_tick_ms ≤ u64_max
  unfolding timer_next
  peer_timer_next p up le = ground (arith, phase_next_at_timers p.phase p up)

  -- At the greatest time no number of rounds ends the loop of a tick, if the callback never fails: the
  -- peers' timer wraps around and is due again.
  pub tick_loop_endless :
      (fuel : ℕ) (p : Presence) (t : Trace)
      → is_down p.phase ≡ false
      → p.next_peer_tick_ms ≤ u64_max
      → tick_loop emit fuel u64_max p t ≡ none
  unfolding tick_loop
  tick_loop_endless zero p t up le = refl
  tick_loop_endless (suc fuel) p t up le =
      tick_loop_step emit fuel u64_max p t (due_at_maximum p le) (timer_step_accepted p t up)
      ∙ tick_loop_endless fuel (timer_next p) (timer_step p emit t).1 (timer_next_up p up)
          (peer_timer_next p up le)
