-- ===== src/LiftControl/Transaction.antt =====
-- src/gvs_elevator_control.c: what one call of the lift sends, and that it ends.
use doorfast.Prelude.{
  ℕ, ◌+◌, ◌-◌, ◌<◌, ◌≤◌, ◌≡◌, refl, ◌⊎◌, inl, inr, true, false, ◌&&◌, ◌||◌, not, Option, none, some,
  List, [], ◌∷◌, ◌++◌, map, arith, ltb, leb, ◌==◌, Bool-cases, if-holds, Status, ok, u64_max,
  Address, addr_eq,
}
use doorfast.Frame.{Frame}
use doorfast.Elevator.{Direction, ElevatorRequest, elevator_prepare_call}
use doorfast.LiftControl.{
  LiftSender, LiftState, cancelled, expired, protocol_completed, is_waiting, LiftControl,
  is_lift_user, lift_finish, LiftAnswer, submitted, submit_request, lift_submit, lift_retry,
  lift_tick, lift_observe, lift_deadline_ms,
}

-- A request and when it was sent.
abbrev Sent : Type 0
Sent = ℕ × ElevatorRequest

abbrev stamped : ℕ → List ElevatorRequest → List Sent
stamped now_ms = map (λ r. (now_ms, r))

-- Ticks and frames, of any kind, with any senders and at any times, and what they send, the latest first.
pub data Followed (c : LiftControl) : LiftControl → List Sent → Type 0 where
  start : Followed c c []
  tick :
      (send : LiftSender) {p : LiftControl} {log : List Sent} (local : Address) (now_ms : ℕ)
      → Followed c p log
      → Followed c
          (lift_tick send p local now_ms).1
          (stamped now_ms (lift_tick send p local now_ms).2 ++ log)
  observe :
      {p : LiftControl} {log : List Sent} (local : Address) (f : Frame) (now_ms : ℕ)
      → Followed c p log
      → Followed c (lift_observe p local f now_ms).1 log

-- Nothing more than one repetition of the request, in the second second of the transaction.
abbrev pub AtMostOnce : ℕ → ElevatorRequest → List Sent → Type 0
AtMostOnce t r log =
    (log ≡ [])
    ⊎ ((now_ms : ℕ) × (log ≡ (now_ms, r) ∷ []) × (t + 1000 ≤ now_ms) × (now_ms < t + 2000))

-- The transaction of a request that was submitted at `t`, while it runs.
abbrev Running : ℕ → LiftControl → List Sent → Type 0
Running t c log =
    (c.last_now_ms < t + 2000)
    × (c.deadline_ms ≡ t + 2000)
    × (((log ≡ []) × (c.attempts ≡ 1) × (c.next_send_ms ≡ t + 1000)) ⊎ (c.attempts ≡ 2))

unfoldable Tracks : ℕ → ElevatorRequest → LiftControl → List Sent → Type 0
Tracks t r c log =
    (c.request ≡ r) × AtMostOnce t r log × ((is_waiting c.state ≡ false) ⊎ Running t c log)

module _ (t : ℕ) (r : ElevatorRequest) (local : Address) (now_ms : ℕ) where
  lift_retry-Tracks :
      (send : LiftSender) (c : LiftControl) (log : List Sent)
      → Tracks t r c log
      → is_waiting c.state ≡ true
      → c.attempts ≡ 1
      → c.next_send_ms ≤ now_ms
      → now_ms < c.deadline_ms
      → c.last_now_ms ≡ now_ms
      → Tracks t r (lift_retry send c).1 (stamped now_ms (lift_retry send c).2 ++ log)
  unfolding lift_retry Tracks
  lift_retry-Tracks send c log (same, once, inl rests) w one due lt now = absurd (ground arith)
  lift_retry-Tracks send c log (same, once, inr (lt', d, inr two)) w one due lt now =
      absurd (ground arith)
  lift_retry-Tracks send c log (same, once, inr (lt', d, inl (empty, _, next))) w one due lt now =
      let sent : AtMostOnce t r ((now_ms, c.request) ∷ log) =
        rw (empty, same) (inr (now_ms, refl, ground arith, ground arith)) in
      elim (Bool-cases (send c.request)) [
        | inl fine ↦ rw fine (same, sent, inr (ground arith, d, inr refl))
        | inr failed ↦ elim (Bool-cases (c.successful_sends == 0)) [
          | inl first ↦ rw (failed, first) (same, sent, inl refl)
          | inr later ↦ rw (failed, later) (same, sent, inr (ground arith, d, inr refl))
        ]
      ]

  clock-Tracks :
      (c : LiftControl) (log : List Sent)
      → Tracks t r c log
      → (is_waiting c.state ≡ true → now_ms < c.deadline_ms)
      → Tracks t r (record c { last_now_ms = now_ms }) log
  unfolding Tracks
  clock-Tracks c log (same, once, inl rests) before = (same, once, inl rests)
  clock-Tracks c log (same, once, inr (lt, d, k)) before = elim (Bool-cases (is_waiting c.state)) [
    | inl waits ↦ (same, once, inr (rw (← d) (before waits), d, k))
    | inr rests ↦ (same, once, inl rests)
  ]

  finish-Tracks :
      (c : LiftControl) (log : List Sent) (s : LiftState)
      → is_waiting s ≡ false
      → Tracks t r c log
      → Tracks t r (lift_finish s (record c { last_now_ms = now_ms })) log
  unfolding Tracks
  finish-Tracks c log s rests (same, once, _) = (same, once, inl rests)

  completed-Tracks :
      (c : LiftControl) (log : List Sent)
      → Tracks t r c log
      → Tracks t r
          (lift_finish protocol_completed
            (record c { last_now_ms = now_ms; physical_result_confirmed = false }))
          log
  unfolding Tracks
  completed-Tracks c log (same, once, _) = (same, once, inl refl)

  lift_tick-Tracks :
      (send : LiftSender) (c : LiftControl) (log : List Sent)
      → Tracks t r c log
      → Tracks t r
          (lift_tick send c local now_ms).1
          (stamped now_ms (lift_tick send c local now_ms).2 ++ log)
  unfolding lift_tick
  lift_tick-Tracks send c log h =
      if-holds P (ltb now_ms c.last_now_ms || not (is_lift_user local)) (λ refused. h)
        (λ user.
          if-holds P (not (is_waiting c.state))
            (λ rests. clock-Tracks c log h (λ w. absurd (ground arith)))
            (λ waits.
              if-holds P (not (addr_eq c.request.source local))
                (λ moved. finish-Tracks c log cancelled refl h)
                (λ own.
                  if-holds P (leb c.deadline_ms now_ms) (λ late. finish-Tracks c log expired refl h)
                    (λ early.
                      let now = clock-Tracks c log h (λ w. ground arith) in
                      if-holds P (c.attempts == 1 && leb c.next_send_ms now_ms)
                        (λ again.
                          lift_retry-Tracks send (record c { last_now_ms = now_ms }) log now
                            (ground arith) (ground arith) (ground arith) (ground arith) refl)
                        (λ rests. now)))))
    where
      P : LiftAnswer → Type 0
      P a = Tracks t r a.1 (stamped now_ms a.2 ++ log)

  lift_observe-Tracks :
      (c : LiftControl) (log : List Sent) (f : Frame)
      → Tracks t r c log
      → Tracks t r (lift_observe c local f now_ms).1 log
  unfolding lift_observe
  lift_observe-Tracks c log f h =
      if-holds P
        (not (is_waiting c.state)
          || (c.successful_sends == 0 || (ltb now_ms c.last_now_ms || leb c.deadline_ms now_ms)))
        (λ refused. h)
        (λ fine.
          if-holds P
            (not (is_lift_user local)
              || (not (addr_eq c.request.source local)
                  || (not (f.family == 0x08) || not (f.opcode == 0x82))))
            (λ refused. h)
            (λ own.
              if-holds P
                (not (addr_eq f.source c.request.destination) || not (addr_eq f.destination local))
                (λ refused. h) (λ answered. completed-Tracks c log h)))
    where
      P : Status × LiftControl → Type 0
      P a = Tracks t r a.1 log

Followed-Tracks :
    (t : ℕ) (r : ElevatorRequest) {c p : LiftControl} {log : List Sent}
    → Tracks t r c []
    → Followed c p log
    → Tracks t r p log
Followed-Tracks t r h start = h
Followed-Tracks t r h (tick send {p} {log} local now_ms f) =
    lift_tick-Tracks t r local now_ms send p log (Followed-Tracks t r h f)
Followed-Tracks t r h (observe {p} {log} local frame now_ms f) =
    lift_observe-Tracks t r local now_ms p log frame (Followed-Tracks t r h f)

submit_request_inv :
    (send : LiftSender) (c : LiftControl) (o : Option ElevatorRequest) (transaction_id t : ℕ)
    {q : LiftControl} {sent : List ElevatorRequest}
    → submit_request send c o transaction_id t ≡ (ok, q, sent)
    → (r : ElevatorRequest) × (o ≡ some r) × (sent ≡ r ∷ []) × Tracks t r q []
unfolding submitted Tracks
submit_request_inv send c none transaction_id t h = absurd (ground (arith, h))
submit_request_inv send c (some r) transaction_id t {q} h =
    let same : q ≡ (submitted send c r transaction_id t).1 = ground (arith, h) in
    (
      r,
      refl,
      ground (arith, h),
      rw same (refl, inl refl, inr (ground arith, refl, inl (refl, refl, refl))),
    )

-- A call of the lift that is accepted at `t` sends the request for its identity and direction; whatever
-- ticks and frames follow, with any senders and at any times, the same request is sent at most once more,
-- one second after `t` at the earliest and before two seconds have gone; and a control that still waits
-- has not seen the second second end.
pub lift_transaction :
    (send : LiftSender) (c : LiftControl) (local : Address) (direction : Direction)
    (transaction_id t : ℕ) {q p : LiftControl} {sent : List ElevatorRequest} {log : List Sent}
    → lift_submit send c local direction transaction_id t ≡ (ok, q, sent)
    → Followed q p log
    → (r : ElevatorRequest) × (elevator_prepare_call local direction ≡ some r)
      × (sent ≡ r ∷ [])
      × AtMostOnce t r log
      × (is_waiting p.state ≡ true → p.last_now_ms < t + 2000)
unfolding lift_submit Tracks
lift_transaction send c local direction transaction_id t {q} {p} {sent} h f =
    elim (Bool-cases (
      is_waiting c.state
      || (transaction_id == 0 || (ltb t c.last_now_ms || ltb (u64_max - lift_deadline_ms) t)))) [
        | inl refused ↦ absurd (ground (arith, h))
        | inr fine ↦
            let (r, prepared, first, begun) =
              submit_request_inv send c (elevator_prepare_call local direction) transaction_id t
                (rw fine at h) in
            let (_, once, k) = Followed-Tracks t r begun f in
            (r, prepared, first, once, λ w. ground arith)
      ]
