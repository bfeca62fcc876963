-- ===== src/Session/Pick.antt =====
-- src/gvs_session.c, `df_gvs_session_observe_pick`: a call is answered when the station replies to
-- the answer in time.
use doorfast.Prelude.{
  ℕ, ◌+◌, ◌≤◌, ◌<◌, ◌≡◌, ◌≢◌, refl, sym, ap, ◌∙◌, ◌↔◌, ◌⊎◌, inl, inr, Bool, true, false, ◌&&◌, not,
  ◌==◌, Bool-cases, addr_eq, addr_eq_sound, List, [], ◌∷◌, arith, Status, ok, Address,
  addr_eq_complete, All,
}
use doorfast.Frame.{Frame}
use doorfast.Session.{Session, preview, ringing, talking, is_null, session_observe_pick}

-- A frame seen by the observer, with the clock and the timeout that its caller passes.
pub record Observation : Type 0 where
  pub frame : Frame
  pub local : Address
  pub now_ms : ℕ
  pub timeout_ms : ℕ

abbrev pub observe : Session → Observation → Status × Session
observe s o = session_observe_pick s o.frame o.local o.now_ms o.timeout_ms

unfoldable pub observe_all : Session → List Observation → Session
observe_all s [] = s
observe_all s (o ∷ os) = observe_all (observe s o).1 os

-- The reply of the station `peer` to `local`.
pub record IsReply (peer local : Address) (o : Observation) : Type 0 where
  pub family : o.frame.family ≡ 3
  pub opcode : o.frame.opcode ≡ 0x83
  pub size : o.frame.payload_length ≡ 7
  pub present : is_null o.frame.payload ≡ false
  pub from_station : o.frame.source ≡ peer
  pub to_local : o.frame.destination ≡ local
  pub same_local : o.local ≡ local
  pub timeout : o.timeout_ms ≢ 0

-- Whether a frame passes for the reply to a pending answer of `local`.
abbrev passes : Address → Address → Observation → Bool
passes peer local o =
    (o.frame.family == 3 && (o.frame.opcode == 0x83 && o.frame.payload_length == 7))
    && ((not (is_null o.frame.payload) && not (o.timeout_ms == 0))
        && (addr_eq o.frame.source peer
            && (addr_eq o.frame.destination o.local && addr_eq local o.local)))

passes-IsReply :
    (peer local : Address) (o : Observation) → passes peer local o ≡ true → IsReply peer local o
passes-IsReply peer local o h =
    let to = addr_eq_sound o.frame.destination o.local (ground arith) in
    let same = addr_eq_sound local o.local (ground arith) in
    record {
      family = ground arith;
      opcode = ground arith;
      size = ground arith;
      present = ground arith;
      from_station = addr_eq_sound o.frame.source peer (ground arith);
      to_local = to ∙ sym same;
      same_local = sym same;
      timeout = ground arith;
    }

-- While an answer is pending, nothing but the reply changes the session.
observe-pending :
    (s : Session) (o : Observation)
    → s.pick_generation ≡ s.generation
    → ¬ IsReply s.peer s.pick_local o
    → (observe s o).1 ≡ s
unfolding session_observe_pick
observe-pending s o p h = elim (Bool-cases (passes s.peer s.pick_local o)) [
  | inl reply ↦ absurd (h (passes-IsReply s.peer s.pick_local o reply))
  | inr other ↦ ground arith
]

observe_all-pending :
    (s : Session) (os : List Observation)
    → s.pick_generation ≡ s.generation
    → All (λ o. ¬ IsReply s.peer s.pick_local o) os
    → observe_all s os ≡ s
unfolding observe_all
observe_all-pending s [] p h = refl
observe_all-pending s (o ∷ os) p h = rw (observe-pending s o p h.0) (observe_all-pending s os p h.1)

record Asked (s : Session) (o : Observation) (t : Session) : Type 0 where
  pending : t ≡ record s {
    pick_generation = s.generation;
    pick_started_ms = o.now_ms;
    pick_timeout_ms = o.timeout_ms;
    pick_local = o.local;
  }
  called : (s.state ≡ ringing) ⊎ (s.state ≡ preview)
  opened : s.generation ≢ 0

observe-Asked :
    (s : Session) (o : Observation)
    → o.frame.opcode ≡ 3
    → s.pick_generation ≢ s.generation
    → (observe s o).0 ≡ ok
    → Asked s o (observe s o).1
unfolding session_observe_pick
observe-Asked s o a n h = ground arith

-- The session after the answer, written out.
abbrev pending : Session → Observation → Session
pending s o = record s {
  pick_generation = s.generation;
  pick_started_ms = o.now_ms;
  pick_timeout_ms = o.timeout_ms;
  pick_local = o.local;
}

module _ (s : Session) (ask reply : Observation) (r : IsReply s.peer ask.local reply)
    (called : (s.state ≡ ringing) ⊎ (s.state ≡ preview)) (opened : s.generation ≢ 0) where
  reply_accepted :
      ask.now_ms ≤ reply.now_ms
      → reply.now_ms < ask.now_ms + ask.timeout_ms
      → observe (pending s ask) reply
        ≡ (ok, record (pending s ask) { pick_generation = 0; state = talking })
  unfolding session_observe_pick
  reply_accepted h l = ground (
    arith,
    addr_eq_complete reply.frame.source s.peer r.from_station,
    addr_eq_complete reply.frame.destination reply.local (r.to_local ∙ sym r.same_local),
    addr_eq_complete ask.local reply.local (sym r.same_local),
  )

  reply_refused :
      (observe (pending s ask) reply).0 ≡ ok
      → (ask.now_ms ≤ reply.now_ms) × (reply.now_ms < ask.now_ms + ask.timeout_ms)
  unfolding session_observe_pick
  reply_refused h = ground (arith, r.opcode)

-- An answer opens a window of the timeout that was passed with it. Whatever is seen meanwhile that is not
-- the reply itself, the retransmitted answers and replies of other stations or to other units included,
-- the station's reply makes the call a conversation exactly when it comes in that window.
pub answered_in_window :
    (s : Session) (ask reply : Observation) (meanwhile : List Observation)
    → ask.frame.opcode ≡ 3
    → s.pick_generation ≢ s.generation
    → (observe s ask).0 ≡ ok
    → All (λ o. ¬ IsReply s.peer ask.local o) meanwhile
    → IsReply s.peer ask.local reply
    → let (status, u) = observe (observe_all (observe s ask).1 meanwhile) reply in
      ((status ≡ ok) × (u.state ≡ talking))
      ↔ ((ask.now_ms ≤ reply.now_ms) × (reply.now_ms < ask.now_ms + ask.timeout_ms))
answered_in_window s ask reply meanwhile a n accepted others r =
    let asked = observe-Asked s ask a n accepted in
    rw (asked.pending) (
      rw (observe_all-pending (pending s ask) meanwhile refl others) (
        (λ h. reply_refused s ask reply r asked.called asked.opened h.0),
        λ h.
            let e = reply_accepted s ask reply r asked.called asked.opened h.0 h.1 in
            (ap (λ p. p.0) e, ap (λ p. p.1.state) e),
      ))
