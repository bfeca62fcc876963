-- ===== src/LiftControl/Sound.antt =====
-- src/gvs_elevator_control.c: what holds of the control whatever is done with it.
use doorfast.Prelude.{
  List, [], ◌∷◌, ℕ, ◌+◌, ◌<◌, ◌≤◌, ◌≡◌, refl, ◌⊎◌, inl, inr, true, false, ◌&&◌, ◌||◌, not, Option,
  none, some, arith, ltb, leb, ◌==◌, Bool-cases, if-holds, Status, u64_max, Address, addr_eq,
}
use doorfast.Frame.{Frame}
use doorfast.Elevator.{Direction, ElevatorRequest, elevator_prepare_call}
use doorfast.LiftControl.Answered.{
  IsAnswered, heard_after, idle_control-IsAnswered, lift_submit-IsAnswered, lift_tick-IsAnswered,
  lift_observe-IsAnswered,
}
use doorfast.LiftControl.{
  LiftSender, LiftState, idle, waiting, protocol_completed, expired, send_failed, cancelled,
  is_waiting, LiftControl, idle_control, is_lift_user, lift_finish, LiftAnswer, submitted,
  submit_request, lift_submit, lift_retry, lift_tick, lift_observe,
}

-- What each state of the control promises.
abbrev Promise : LiftControl → LiftState → Type 0
Promise c idle = c.attempts ≡ 0
Promise c waiting =
    ((c.attempts ≡ 1) ⊎ ((c.attempts ≡ 2) × (1 ≤ c.successful_sends)))
    × (c.deadline_ms ≡ c.next_send_ms + 1000)
    × (c.last_now_ms < c.deadline_ms)
    × (c.deadline_ms ≤ u64_max)
Promise c protocol_completed = 1 ≤ c.successful_sends
Promise c expired = 1 ≤ c.attempts
Promise c send_failed = (c.attempts ≡ 2) × (c.successful_sends ≡ 0)
Promise c cancelled = 1 ≤ c.attempts

-- A result of the lift itself is never claimed, and there are at most two attempts.
unfoldable pub IsSound : LiftControl → Type 0
IsSound c =
    (c.physical_result_confirmed ≡ false)
    × (c.successful_sends ≤ c.attempts)
    × (c.attempts ≤ 2)
    × Promise c c.state

lift_retry-IsSound :
    (send : LiftSender) (c : LiftControl)
    → c.state ≡ waiting
    → c.attempts ≡ 1
    → IsSound c
    → IsSound (lift_retry send c).1
unfolding lift_retry IsSound
lift_retry-IsSound send c w one h = elim (Bool-cases (send c.request)) [
  | inl sent ↦ rw (sent, w) (ground arith)
  | inr unsent ↦ elim (Bool-cases (c.successful_sends == 0)) [
    | inl first ↦ rw (unsent, first) (ground arith)
    | inr next ↦ rw (unsent, next, w) (ground arith)
  ]
]

submit_request-IsSound :
    (send : LiftSender) (c : LiftControl) (o : Option ElevatorRequest) (transaction_id now_ms : ℕ)
    → now_ms + 2000 ≤ u64_max
    → IsSound c
    → IsSound (submit_request send c o transaction_id now_ms).1
unfolding submitted IsSound
submit_request-IsSound send c none transaction_id now_ms le h = h
submit_request-IsSound send c (some request) transaction_id now_ms le h = ground arith

lift_submit-IsSound :
    (send : LiftSender) (c : LiftControl) (local : Address) (direction : Direction)
    (transaction_id now_ms : ℕ)
    → IsSound c
    → IsSound (lift_submit send c local direction transaction_id now_ms).1
unfolding lift_submit
lift_submit-IsSound send c local direction transaction_id now_ms h =
    if-holds (λ (a : LiftAnswer). IsSound a.1) _ (λ refused. h)
      (λ fine.
        submit_request-IsSound send c (elevator_prepare_call local direction) transaction_id now_ms
          (ground arith) h)

is_waiting_inv : (s : LiftState) → is_waiting s ≡ true → s ≡ waiting
is_waiting_inv waiting h = refl
is_waiting_inv idle h = absurd (ground arith)
is_waiting_inv protocol_completed h = absurd (ground arith)
is_waiting_inv expired h = absurd (ground arith)
is_waiting_inv send_failed h = absurd (ground arith)
is_waiting_inv cancelled h = absurd (ground arith)

-- A control that does not wait is not held to the clock.
Promise-resting :
    (c : LiftControl) (s : LiftState) (now_ms : ℕ)
    → is_waiting s ≡ false
    → Promise c s
    → Promise (record c { last_now_ms = now_ms }) s
Promise-resting c idle now_ms w h = h
Promise-resting c waiting now_ms w h = absurd (ground arith)
Promise-resting c protocol_completed now_ms w h = h
Promise-resting c expired now_ms w h = h
Promise-resting c send_failed now_ms w h = h
Promise-resting c cancelled now_ms w h = h

resting-IsSound :
    (c : LiftControl) (now_ms : ℕ)
    → is_waiting c.state ≡ false
    → IsSound c
    → IsSound (record c { last_now_ms = now_ms })
unfolding IsSound
resting-IsSound c now_ms w (f, le, two, p) = (f, le, two, Promise-resting c c.state now_ms w p)

waiting-IsSound :
    (c : LiftControl) (now_ms : ℕ)
    → c.state ≡ waiting
    → IsSound c
    → now_ms < c.deadline_ms
    → IsSound (record c { last_now_ms = now_ms })
unfolding IsSound
waiting-IsSound c now_ms w h lt = rw w (let k : Promise c waiting = rw w at h.3 in ground arith)

idle_control-IsSound : (now_ms : ℕ) → IsSound (idle_control now_ms)
unfolding IsSound
idle_control-IsSound now_ms = ground arith

module _ (c : LiftControl) (now_ms : ℕ) (w : c.state ≡ waiting) (h : IsSound c) where
  cancelled-IsSound : IsSound (lift_finish cancelled (record c { last_now_ms = now_ms }))
  unfolding IsSound
  cancelled-IsSound = let k : Promise c waiting = rw w at h.3 in ground arith

  expired-IsSound : IsSound (lift_finish expired (record c { last_now_ms = now_ms }))
  unfolding IsSound
  expired-IsSound = let k : Promise c waiting = rw w at h.3 in ground arith

  completed-IsSound :
      (c.successful_sends == 0) ≡ false
      → IsSound (
          lift_finish protocol_completed
            (record c { last_now_ms = now_ms; physical_result_confirmed = false }))
  unfolding IsSound
  completed-IsSound sent = ground arith

lift_tick-IsSound :
    (send : LiftSender) (c : LiftControl) (local : Address) (now_ms : ℕ)
    → IsSound c
    → IsSound (lift_tick send c local now_ms).1
unfolding lift_tick
lift_tick-IsSound send c local now_ms h =
    if-holds P (ltb now_ms c.last_now_ms || not (is_lift_user local)) (λ refused. h)
      (λ user.
        if-holds P (not (is_waiting c.state)) (λ rests. resting-IsSound c now_ms (ground arith) h)
          (λ waits.
            let w = is_waiting_inv c.state (ground arith) in
            if-holds P (not (addr_eq c.request.source local))
              (λ moved. cancelled-IsSound c now_ms w h)
              (λ own.
                if-holds P (leb c.deadline_ms now_ms) (λ late. expired-IsSound c now_ms w h)
                  (λ early.
                    let now = waiting-IsSound c now_ms w h (ground arith) in
                    if-holds P (c.attempts == 1 && leb c.next_send_ms now_ms)
                      (λ again.
                        lift_retry-IsSound send (record c { last_now_ms = now_ms }) w (ground arith)
                          now)
                      (λ rests. now)))))
  where
    P : LiftAnswer → Type 0
    P a = IsSound a.1

lift_observe-IsSound :
    (c : LiftControl) (local : Address) (f : Frame) (now_ms : ℕ)
    → IsSound c
    → IsSound (lift_observe c local f now_ms).1
unfolding lift_observe
lift_observe-IsSound c local f now_ms h =
    if-holds P
      (not (is_waiting c.state)
        || (c.successful_sends == 0 || (ltb now_ms c.last_now_ms || leb c.deadline_ms now_ms)))
      (λ refused. h)
      (λ pending.
        if-holds P
          (not (is_lift_user local)
            || (not (addr_eq c.request.source local)
                || (not (f.family == 0x08) || not (f.opcode == 0x82))))
          (λ refused. h)
          (λ own.
            if-holds P
              (not (addr_eq f.source c.request.destination) || not (addr_eq f.destination local))
              (λ refused. h)
              (λ answered.
                completed-IsSound c now_ms (is_waiting_inv c.state (ground arith)) h
                  (ground arith))))
  where
    P : Status × LiftControl → Type 0
    P a = IsSound a.1

-- A control as its operations can leave it, from its start on, and the frames that it was given since the
-- submission that it accepted last, the latest first.
pub data LiftReach : LiftControl → List Frame → Type 0 where
  start : (now_ms : ℕ) → LiftReach (idle_control now_ms) []
  submit :
      (send : LiftSender) {c : LiftControl} {heard : List Frame} (local : Address)
      (direction : Direction) (transaction_id now_ms : ℕ)
      → LiftReach c heard
      → LiftReach
          (lift_submit send c local direction transaction_id now_ms).1
          (heard_after (lift_submit send c local direction transaction_id now_ms).0 heard)
  tick :
      (send : LiftSender) {c : LiftControl} {heard : List Frame} (local : Address) (now_ms : ℕ)
      → LiftReach c heard
      → LiftReach (lift_tick send c local now_ms).1 heard
  observe :
      {c : LiftControl} {heard : List Frame} (local : Address) (f : Frame) (now_ms : ℕ)
      → LiftReach c heard
      → LiftReach (lift_observe c local f now_ms).1 (f ∷ heard)

-- Whatever is submitted, ticked and observed, with any senders and clocks, a control keeps its word: it
-- never claims that the lift came, it makes at most two attempts and counts no more of them as sent;
-- completed means that a request was sent and, among the frames given since it was submitted, there is
-- the lift's answer: one of family 8 and opcode 0x82, from the address that was asked to the one that
-- asked; failed means that both attempts failed; while it waits, its second attempt is due a second before
-- its deadline, and the deadline is not past.
pub LiftReach-IsSound :
    {c : LiftControl} {heard : List Frame}
    → LiftReach c heard
    → IsSound c × IsAnswered c.request c.state heard
LiftReach-IsSound (start now_ms) = (idle_control-IsSound now_ms, idle_control-IsAnswered now_ms)
LiftReach-IsSound (submit send {c} {heard} local direction transaction_id now_ms r) =
    let (sound, kept) = LiftReach-IsSound r in
    (
      lift_submit-IsSound send c local direction transaction_id now_ms sound,
      lift_submit-IsAnswered send c local direction transaction_id now_ms heard kept,
    )
LiftReach-IsSound (tick send {c} {heard} local now_ms r) =
    let (sound, kept) = LiftReach-IsSound r in
    (
      lift_tick-IsSound send c local now_ms sound,
      lift_tick-IsAnswered send c local now_ms heard kept,
    )
LiftReach-IsSound (observe {c} {heard} local f now_ms r) =
    let (sound, kept) = LiftReach-IsSound r in
    (
      lift_observe-IsSound c local f now_ms sound,
      lift_observe-IsAnswered c local f now_ms heard kept,
    )
