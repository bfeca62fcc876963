-- ===== src/LiftControl/Answered.antt =====
-- src/gvs_elevator_control.c: a control that is completed has heard the lift's answer.
use doorfast.Prelude.{
  ℕ, ◌-◌, ◌≡◌, ◌⊎◌, inl, inr, refl, sym, ◌∙◌, true, false, ◌&&◌, ◌||◌, not, Option, none, some,
  List, [], ◌∷◌, arith, ltb, leb, ◌==◌, if◌then◌else◌, if-holds, Bool-cases, Status, is_ok, u64_max,
  Address, addr_eq, addr_eq_sound,
}
use doorfast.Frame.{Frame}
use doorfast.Elevator.{Direction, ElevatorRequest, elevator_prepare_call}
use doorfast.LiftControl.{
  LiftSender, LiftState, idle, waiting, protocol_completed, expired, send_failed, cancelled,
  is_waiting, LiftControl, idle_control, is_lift_user, LiftAnswer, submitted, submit_request,
  lift_submit, lift_retry, lift_tick, lift_observe, lift_deadline_ms,
}

-- The lift's answer to the request: a frame of family 8 and opcode 0x82, from where the request went to
-- where it came from.
pub record IsAnswer (r : ElevatorRequest) (f : Frame) : Type 0 where
  pub family : f.family ≡ 0x08
  pub opcode : f.opcode ≡ 0x82
  pub from_lift : f.source ≡ r.destination
  pub to_unit : f.destination ≡ r.source

abbrev pub HasAnswer : ElevatorRequest → List Frame → Type 0
HasAnswer r [] = false ≡ true
HasAnswer r (f ∷ fs) = IsAnswer r f ⊎ HasAnswer r fs

-- What was heard, where the state says that something was.
unfoldable pub IsAnswered : ElevatorRequest → LiftState → List Frame → Type 0
IsAnswered r protocol_completed heard = HasAnswer r heard
IsAnswered r idle heard = Unit
IsAnswered r waiting heard = Unit
IsAnswered r expired heard = Unit
IsAnswered r send_failed heard = Unit
IsAnswered r cancelled heard = Unit

IsAnswered-waiting :
    (r : ElevatorRequest) (s : LiftState) (heard : List Frame)
    → is_waiting s ≡ true
    → IsAnswered r s heard
unfolding IsAnswered
IsAnswered-waiting r waiting heard w = tt
IsAnswered-waiting r idle heard w = absurd (ground arith)
IsAnswered-waiting r protocol_completed heard w = absurd (ground arith)
IsAnswered-waiting r expired heard w = absurd (ground arith)
IsAnswered-waiting r send_failed heard w = absurd (ground arith)
IsAnswered-waiting r cancelled heard w = absurd (ground arith)

-- One more frame takes nothing away.
IsAnswered-more :
    (r : ElevatorRequest) (s : LiftState) (f : Frame) (heard : List Frame)
    → IsAnswered r s heard
    → IsAnswered r s (f ∷ heard)
unfolding IsAnswered
IsAnswered-more r protocol_completed f heard h = inr h
IsAnswered-more r idle f heard h = tt
IsAnswered-more r waiting f heard h = tt
IsAnswered-more r expired f heard h = tt
IsAnswered-more r send_failed f heard h = tt
IsAnswered-more r cancelled f heard h = tt

-- What was heard since the submission that was accepted last.
abbrev pub heard_after : Status → List Frame → List Frame
heard_after status heard = if is_ok status then [] else heard

lift_retry-IsAnswered :
    (send : LiftSender) (c : LiftControl) (heard : List Frame)
    → is_waiting c.state ≡ true
    → IsAnswered (lift_retry send c).1.request (lift_retry send c).1.state heard
unfolding lift_retry IsAnswered
lift_retry-IsAnswered send c heard w = elim (Bool-cases (send c.request)) [
  | inl sent ↦ rw sent (IsAnswered-waiting c.request c.state heard w)
  | inr unsent ↦ elim (Bool-cases (c.successful_sends == 0)) [
    | inl first ↦ rw (unsent, first) tt
    | inr next ↦ rw (unsent, next) (IsAnswered-waiting c.request c.state heard w)
  ]
]

over_cancelled : (r : ElevatorRequest) (heard : List Frame) → IsAnswered r cancelled heard
unfolding IsAnswered
over_cancelled r heard = tt

over_expired : (r : ElevatorRequest) (heard : List Frame) → IsAnswered r expired heard
unfolding IsAnswered
over_expired r heard = tt

pub lift_tick-IsAnswered :
    (send : LiftSender) (c : LiftControl) (local : Address) (now_ms : ℕ) (heard : List Frame)
    → IsAnswered c.request c.state heard
    → let next = (lift_tick send c local now_ms).1 in IsAnswered next.request next.state heard
unfolding lift_tick
lift_tick-IsAnswered send c local now_ms heard h =
    if-holds P (ltb now_ms c.last_now_ms || not (is_lift_user local)) (λ refused. h)
      (λ user.
        if-holds P (not (is_waiting c.state)) (λ rests. h)
          (λ waits.
            if-holds P (not (addr_eq c.request.source local))
              (λ moved. over_cancelled c.request heard)
              (λ own.
                if-holds P (leb c.deadline_ms now_ms) (λ late. over_expired c.request heard)
                  (λ early.
                    if-holds P (c.attempts == 1 && leb c.next_send_ms now_ms)
                      (λ again.
                        lift_retry-IsAnswered send (record c { last_now_ms = now_ms }) heard
                          (ground arith))
                      (λ rests. h)))))
  where
    P : LiftAnswer → Type 0
    P a = IsAnswered a.1.request a.1.state heard

submit_request-IsAnswered :
    (send : LiftSender) (c : LiftControl) (o : Option ElevatorRequest) (transaction_id now_ms : ℕ)
    (heard : List Frame)
    → IsAnswered c.request c.state heard
    → let (status, next, sent) = submit_request send c o transaction_id now_ms in
      IsAnswered next.request next.state (heard_after status heard)
unfolding submitted
submit_request-IsAnswered send c none transaction_id now_ms heard h = h
submit_request-IsAnswered send c (some r) transaction_id now_ms heard h =
    IsAnswered-waiting r waiting [] refl

pub lift_submit-IsAnswered :
    (send : LiftSender) (c : LiftControl) (local : Address) (direction : Direction)
    (transaction_id now_ms : ℕ) (heard : List Frame)
    → IsAnswered c.request c.state heard
    → let (status, next, sent) = lift_submit send c local direction transaction_id now_ms in
      IsAnswered next.request next.state (heard_after status heard)
unfolding lift_submit
lift_submit-IsAnswered send c local direction transaction_id now_ms heard h =
    if-holds (λ (a : LiftAnswer). IsAnswered a.1.request a.1.state (heard_after a.0 heard))
      (is_waiting c.state
        || (transaction_id == 0
            || (ltb now_ms c.last_now_ms || ltb (u64_max - lift_deadline_ms) now_ms)))
      (λ refused. h)
      (λ fine.
        submit_request-IsAnswered send c (elevator_prepare_call local direction) transaction_id
          now_ms heard h)

answered :
    (r : ElevatorRequest) (f : Frame) (heard : List Frame)
    → IsAnswer r f
    → IsAnswered r protocol_completed (f ∷ heard)
unfolding IsAnswered
answered r f heard a = inl a

pub lift_observe-IsAnswered :
    (c : LiftControl) (local : Address) (f : Frame) (now_ms : ℕ) (heard : List Frame)
    → IsAnswered c.request c.state heard
    → let next = (lift_observe c local f now_ms).1 in IsAnswered next.request next.state (f ∷ heard)
unfolding lift_observe
lift_observe-IsAnswered c local f now_ms heard h =
    let kept = IsAnswered-more c.request c.state f heard h in
    if-holds P
      (not (is_waiting c.state)
        || (c.successful_sends == 0 || (ltb now_ms c.last_now_ms || leb c.deadline_ms now_ms)))
      (λ refused. kept)
      (λ pending.
        if-holds P
          (not (is_lift_user local)
            || (not (addr_eq c.request.source local)
                || (not (f.family == 0x08) || not (f.opcode == 0x82))))
          (λ refused. kept)
          (λ own.
            if-holds P
              (not (addr_eq f.source c.request.destination) || not (addr_eq f.destination local))
              (λ refused. kept)
              (λ fits.
                let asked = addr_eq_sound c.request.source local (ground arith) in
                let to = addr_eq_sound f.destination local (ground arith) in
                let from = addr_eq_sound f.source c.request.destination (ground arith) in
                answered c.request f heard (record {
                  family = ground arith;
                  opcode = ground arith;
                  from_lift = from;
                  to_unit = to ∙ sym asked;
                }))))
  where
    P : Status × LiftControl → Type 0
    P a = IsAnswered a.1.request a.1.state (f ∷ heard)

pub idle_control-IsAnswered :
    (now_ms : ℕ) → let c = idle_control now_ms in IsAnswered c.request c.state []
unfolding IsAnswered
idle_control-IsAnswered now_ms = tt
