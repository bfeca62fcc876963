-- ===== src/Access/Reply.antt =====
-- src/gvs_access.c: what may complete an unlock request, and when the wait ends.
use doorfast.Prelude.{
  ℕ, ◌+◌, ◌≤◌, ◌<◌, ◌≡◌, ◌≢◌, refl, sym, ap, ◌∙◌, ◌↔◌, ◌⊎◌, inl, inr, true, false, arith,
  Bool-cases, Status, ok, Address, addr_eq_sound, addr_eq_complete, is_ok,
}
use mathlib.Core.Bool.{false≢true}
use doorfast.Frame.{Frame}
use doorfast.Session.{Session, is_active, is_null}
use doorfast.Access.{
  AccessResult, waiting, completed, rejected, expired, cancelled, first_byte, result_current,
  result_begin, result_observe, result_tick,
}
use doorfast.Access.Control.{AccessControl, after_send}
use doorfast.Access.Result.{AccessCall, submit, observe, tick, access_step, control_submit_cases}

-- The reply that a waiting request accepts: opcode 89 of family 4 with one byte, between the stations
-- of the request, while the request's call is still on and before the deadline.
pub record IsReply (r : AccessResult) (s : Session) (local : Address) (f : Frame) (now_ms : ℕ)
    : Type 0 where
  pub waits : r.state ≡ waiting
  pub in_time : (r.last_now_ms ≤ now_ms) × (now_ms < r.deadline_ms)
  pub same_call : r.session_generation ≡ s.generation
  pub active : is_active s.state ≡ true
  pub station : (r.destination ≡ s.peer) × (f.source ≡ s.peer)
  pub unit : (r.source ≡ local) × (f.destination ≡ local)
  pub kind : (f.family ≡ 0x04) × (f.opcode ≡ 0x89)
  pub one_byte : (f.payload_length ≡ 1) × (is_null f.payload ≡ false)

accepted :
    (r : AccessResult) (s : Session) (local : Address) (f : Frame) (now_ms : ℕ)
    → is_ok (result_observe r s local f now_ms).0 ≡ true
    → let q = (result_observe r s local f now_ms).1 in
      IsReply r s local f now_ms
      × (q.raw_status ≡ first_byte f.payload)
      × (q.reply_ms ≡ now_ms)
      × (((q.state ≡ completed) × (first_byte f.payload ≡ 1))
          ⊎ ((q.state ≡ rejected) × (first_byte f.payload ≢ 1)))
unfolding result_observe
accepted r s local f now_ms h = ground (
  arith,
  addr_eq_sound r.destination s.peer,
  addr_eq_sound r.source local,
  addr_eq_sound f.source r.destination,
  addr_eq_sound f.destination r.source,
)

refused :
    (r : AccessResult) (s : Session) (local : Address) (f : Frame) (now_ms : ℕ)
    → is_ok (result_observe r s local f now_ms).0 ≡ false
    → ¬ IsReply r s local f now_ms
unfolding result_observe
refused r s local f now_ms h v = ground (
  arith,
  addr_eq_complete r.destination s.peer,
  addr_eq_complete r.source local,
  addr_eq_complete f.source r.destination,
  addr_eq_complete f.destination r.source,
)

-- An observation is accepted exactly for such a reply; it ends the wait as completed exactly on the
-- status byte 1, and as rejected on any other; a frame that is not accepted changes nothing.
pub result_observe_lem :
    (r : AccessResult) (s : Session) (local : Address) (f : Frame) (now_ms : ℕ)
    → let (status, q) = result_observe r s local f now_ms in
      ((status ≢ ok) × (q ≡ r) × (¬ IsReply r s local f now_ms))
      ⊎ ((status ≡ ok)
          × (IsReply r s local f now_ms
              × (q.raw_status ≡ first_byte f.payload)
              × (q.reply_ms ≡ now_ms)
              × (((q.state ≡ completed) × (first_byte f.payload ≡ 1))
                  ⊎ ((q.state ≡ rejected) × (first_byte f.payload ≢ 1)))))
unfolding result_observe
result_observe_lem r s local f now_ms =
    elim (Bool-cases (is_ok (result_observe r s local f now_ms).0)) [
      | inl t ↦ inr (ground arith, accepted r s local f now_ms t)
      | inr n ↦ inl (ground arith, ground arith, refused r s local f now_ms n)
    ]

after_send_ne_completed :
    (c : AccessControl) (generation : ℕ) (next : AccessResult) (status : Status)
    → next.state ≡ waiting
    → (after_send c generation next status).result.state ≢ completed
unfolding after_send
after_send_ne_completed c generation next status w h = ground arith

result_tick-completed :
    (r : AccessResult) (s : Session) (local : Address) (now_ms : ℕ)
    → (result_tick r s local now_ms).1.state ≡ completed
    → r.state ≡ completed
unfolding result_tick
result_tick-completed r s local now_ms h = ground arith

-- What a call that leaves the request completed must have been.
abbrev pub Completes : AccessControl → AccessCall → Type 0
Completes c (submit s generation local now_ms) = ⊥
Completes c (observe s local f now_ms) =
    IsReply c.result s local f now_ms × (first_byte f.payload ≡ 1)
Completes c (tick s local now_ms) = ⊥

-- A request that is completed after a call was so before, or the call observed the station's reply
-- with status byte 1, in time and in the request's own call: no submission or tick completes one.
pub access_step-completed :
    (c : AccessControl) (call : AccessCall)
    → (access_step c call).0.result.state ≡ completed
    → (c.result.state ≡ completed) ⊎ Completes c call
unfolding access_step
access_step-completed c (submit s generation local now_ms) h =
    elim (control_submit_cases c s generation local now_ms) [
      | inl (e, _) ↦ inl (sym (ap (λ (d : AccessControl). d.result.state) e) ∙ h)
      | inr t ↦ absurd (
          after_send_ne_completed c generation t.next t.status t.waits
            (sym (ap (λ (d : AccessControl). d.result.state) t.after) ∙ h))
    ]
access_step-completed c (observe s local f now_ms) h =
    elim (result_observe_lem c.result s local f now_ms) [
      | inl (_, e, _) ↦ inl (sym (ap (λ (r : AccessResult). r.state) e) ∙ h)
      | inr (_, (v, _, _, outcome)) ↦ inr (v, ground arith)
    ]
access_step-completed c (tick s local now_ms) h =
    inl (result_tick-completed c.result s local now_ms h)

-- The result after `result_begin` has accepted.
abbrev begun_result : AccessResult → Session → ℕ → Address → ℕ → ℕ → AccessResult
begun_result r s generation local now_ms timeout_ms = record r {
  state = waiting;
  session_generation = generation;
  last_now_ms = now_ms;
  deadline_ms = now_ms + timeout_ms;
  reply_ms = 0;
  raw_status = 0;
  physical_result_confirmed = false;
  destination = s.peer;
  source = local;
}

result_begin_ok :
    (r : AccessResult) (s : Session) (generation : ℕ) (local : Address) (now_ms timeout_ms : ℕ)
    → (result_begin r s generation local now_ms timeout_ms).0 ≡ ok
    → (result_begin r s generation local now_ms timeout_ms).1
      ≡ begun_result r s generation local now_ms timeout_ms
unfolding result_begin
result_begin_ok r s generation local now_ms timeout_ms h = ground arith

result_current_iff :
    (r : AccessResult) (s : Session) (local : Address)
    → (result_current r s local ≡ true) ↔ (
        (r.session_generation ≡ s.generation)
        × (is_active s.state ≡ true)
        × (r.destination ≡ s.peer)
        × (r.source ≡ local))
unfolding result_current
result_current_iff r s local = (
  λ h. ground (arith, addr_eq_sound r.destination s.peer, addr_eq_sound r.source local),
  λ h. ground (arith, addr_eq_complete r.destination s.peer, addr_eq_complete r.source local),
)

-- The session that a request was begun for is still on, with the same station.
abbrev pub SameCall : ℕ → Address → Session → Type 0
SameCall generation peer t =
    (generation ≡ t.generation) × (is_active t.state ≡ true) × (peer ≡ t.peer)

-- A request that has begun waits for as long as its call is on and the timeout is not over: a tick
-- then leaves it waiting; at the deadline or after it expires it; and when the call is another or
-- has ended it cancels it.
pub result_begin-tick :
    (r : AccessResult) (s : Session) (generation : ℕ) (local : Address) (begun_ms timeout_ms : ℕ)
    (t : Session) (now_ms : ℕ)
    → (result_begin r s generation local begun_ms timeout_ms).0 ≡ ok
    → begun_ms ≤ now_ms
    → let q = (result_begin r s generation local begun_ms timeout_ms).1 in
      let (status, u) = result_tick q t local now_ms in
      (status ≡ ok)
      × (((u.state ≡ waiting) × SameCall generation s.peer t × (now_ms < begun_ms + timeout_ms))
          ⊎ ((u.state ≡ expired) × SameCall generation s.peer t × (begun_ms + timeout_ms ≤ now_ms))
          ⊎ ((u.state ≡ cancelled) × (¬ SameCall generation s.peer t)))
unfolding result_tick
result_begin-tick r s generation local begun_ms timeout_ms t now_ms h l =
    let q = begun_result r s generation local begun_ms timeout_ms in
    rw (result_begin_ok r s generation local begun_ms timeout_ms h)
      (elim (Bool-cases (result_current q t local)) [
        | inl on ↦
            let (g, a, d, _) = (result_current_iff q t local).0 on in ground (arith, g, a, d, on)
        | inr off ↦ (
          ground arith,
          inr (
              inr (
                ground arith,
                λ c. false≢true (sym off ∙ (result_current_iff q t local).1 (c.0, c.1, c.2, refl)),
              )),
        )
      ])
