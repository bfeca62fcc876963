-- ===== src/Handshake/Disconnect.antt =====
-- src/gvs_handshake.c, `df_gvs_handshake_tick`: when a silent station is given up.
use doorfast.Prelude.{
  ℕ, suc, ◌+◌, ◌≤◌, ◌<◌, ◌≡◌, refl, ap, ◌∙◌, ◌↔◌, ◌⊎◌, inl, inr, true, false, List, [], ◌∷◌, length,
  arith, ok, u64_max, Address, addr_eq_refl,
}
use native.Mathlib.Decide.{dec_lt}
use doorfast.Session.{Session, ended}
use doorfast.Handshake.{
  Handshake, max_missed_replies, interval_ms, handshake_current, handshake_start, handshake_tick,
}

-- A tick ends the call exactly when the keep-alive is the call's own, a question is due, and five
-- are unanswered or the clock has no room for a further interval. Otherwise the session is as it was.
pub handshake_tick-disconnected :
    (h : Handshake) (s : Session) (local : Address) (now_ms : ℕ)
    → let (status, k, t, r) = handshake_tick h s local now_ms in
      ((r.disconnected ≡ true) ↔ (
        (h.last_now_ms ≤ now_ms)
        × (handshake_current h s local ≡ true)
        × (h.next_probe_ms ≤ now_ms)
        × ((max_missed_replies ≤ h.missed_replies) ⊎ (u64_max < now_ms + interval_ms))))
      × (((r.disconnected ≡ true) × (t.state ≡ ended) × (k.active ≡ false))
          ⊎ ((r.disconnected ≡ false) × (t ≡ s)))
unfolding handshake_tick
handshake_tick-disconnected h s local now_ms =
    ((λ d. ground arith, λ d. ground arith), ground arith)

-- The keep-alive is ticked with the session that the ticks leave, at each of the clocks.
unfoldable pub tick_all : Handshake → Session → Address → List ℕ → Handshake × Session
tick_all h s local [] = (h, s)
tick_all h s local (now_ms ∷ times) =
    let (status, k, t, r) = handshake_tick h s local now_ms in tick_all k t local times

-- Each clock is at least an interval after the one before, from `first` on, and leaves room for
-- another interval.
abbrev pub Spaced : ℕ → List ℕ → Type 0
Spaced first [] = Unit {0}
Spaced first (now_ms ∷ times) =
    (first ≤ now_ms) × (now_ms + interval_ms ≤ u64_max) × Spaced (now_ms + interval_ms) times

tick_rest :
    (h : Handshake) (s : Session) (local : Address) (now_ms : ℕ)
    → h.active ≡ false
    → let (status, k, t, r) = handshake_tick h s local now_ms in (k.active ≡ false) × (t ≡ s)
unfolding handshake_tick
tick_rest h s local now_ms a = ground arith

tick_all_rest :
    (h : Handshake) (s : Session) (local : Address) (times : List ℕ)
    → h.active ≡ false
    → (tick_all h s local times).1 ≡ s
unfolding tick_all
tick_all_rest h s local [] a = refl
tick_all_rest h s local (now_ms ∷ times) a =
    let (rest, same) = tick_rest h s local now_ms a in
    tick_all_rest (handshake_tick h s local now_ms).1 (handshake_tick h s local now_ms).2 local
      times rest
    ∙ same

-- A question is due and goes out.
tick_asks :
    (h : Handshake) (s : Session) (local : Address) (now_ms : ℕ)
    → handshake_current h s local ≡ true
    → h.last_now_ms ≤ now_ms
    → h.next_probe_ms ≤ now_ms
    → now_ms + interval_ms ≤ u64_max
    → h.missed_replies < max_missed_replies
    → let (status, k, t, r) = handshake_tick h s local now_ms in
      (t ≡ s)
      × (handshake_current k t local ≡ true)
      × (k.last_now_ms ≡ now_ms)
      × (k.next_probe_ms ≡ now_ms + interval_ms)
      × (k.missed_replies ≡ suc h.missed_replies)
unfolding handshake_tick
tick_asks h s local now_ms c l p room few = ground arith

-- Five are unanswered when the next is due.
tick_ends :
    (h : Handshake) (s : Session) (local : Address) (now_ms : ℕ)
    → handshake_current h s local ≡ true
    → h.last_now_ms ≤ now_ms
    → h.next_probe_ms ≤ now_ms
    → max_missed_replies ≤ h.missed_replies
    → let (status, k, t, r) = handshake_tick h s local now_ms in
      (t.state ≡ ended) × (k.active ≡ false)
unfolding handshake_tick
tick_ends h s local now_ms c l p many = ground arith

abbrev Outcome : ℕ → Session → Session → Type 0
Outcome asked s t = ((asked ≤ 5) × (t ≡ s)) ⊎ ((6 ≤ asked) × (t.state ≡ ended))

tick_all-Outcome :
    (h : Handshake) (s : Session) (local : Address) (first : ℕ) (times : List ℕ)
    → handshake_current h s local ≡ true
    → h.last_now_ms ≤ first
    → h.next_probe_ms ≤ first
    → h.missed_replies ≤ max_missed_replies
    → Spaced first times
    → Outcome (h.missed_replies + length times) s (tick_all h s local times).1
unfolding tick_all
tick_all-Outcome h s local first [] c l p m spaced = inl (omega arith, refl)
tick_all-Outcome h s local first (now_ms ∷ times) c l p m spaced =
    let k = (handshake_tick h s local now_ms).1 in
    let t = (handshake_tick h s local now_ms).2 in
    elim (dec_lt h.missed_replies max_missed_replies) [
      | yes few ↦
          let (same, c', l', p', m') =
            tick_asks h s local now_ms c (omega arith) (omega arith) spaced.1 few in
          let rest =
            tick_all-Outcome k t local (now_ms + interval_ms) times c' (omega arith) (omega arith)
              (omega arith) spaced.2 in
          elim rest [ inl (n, e) ↦ inl (omega arith, e ∙ same) | inr (n, e) ↦ inr (omega arith, e) ]
      | no many ↦
          let (e, rest) = tick_ends h s local now_ms c (omega arith) (omega arith) (omega arith) in
          inr (omega arith, ap (λ (u : Session). u.state) (tick_all_rest k t local times rest) ∙ e)
    ]

start_current :
    (s : Session) (local : Address) (now_ms : ℕ)
    → (handshake_start s local now_ms).0 ≡ ok
    → let h = (handshake_start s local now_ms).1 in
      (handshake_current h s local ≡ true)
      × (h.last_now_ms ≡ now_ms)
      × (h.next_probe_ms ≡ now_ms)
      × (h.missed_replies ≡ 0)
unfolding handshake_start handshake_current
start_current s local now_ms h = ground (arith, addr_eq_refl s.peer, addr_eq_refl local)

-- A keep-alive that starts and hears nothing, ticked at clocks an interval or more apart, leaves the
-- call alone for five ticks and has ended it after the sixth.
pub silent_station :
    (s : Session) (local : Address) (start_ms : ℕ) (times : List ℕ)
    → (handshake_start s local start_ms).0 ≡ ok
    → Spaced start_ms times
    → let t = (tick_all (handshake_start s local start_ms).1 s local times).1 in
      ((length times ≤ 5) × (t ≡ s)) ⊎ ((6 ≤ length times) × (t.state ≡ ended))
silent_station s local start_ms times h spaced =
    let (c, l, p, m) = start_current s local start_ms h in
    elim (tick_all-Outcome (handshake_start s local start_ms).1 s local start_ms times c
      (omega arith) (omega arith) (omega arith) spaced) [
        | inl (n, e) ↦ inl (omega arith, e)
        | inr (n, e) ↦ inr (omega arith, e)
      ]
