-- ===== src/LiftControl/Tests.antt =====
-- A call of the lift and a query, at fixed clocks.
use doorfast.Prelude.{
  ◌⊎◌, ◌<◌, ◌≡◌, refl, Bool, true, false, some, [], ◌∷◌, Address, addr_eq, five_eq,
}
use doorfast.Fixtures.{frame}
use doorfast.Identity.{unicast_ip, identity_fields, bcd_value}
use doorfast.Elevator.{
  ElevatorRequest, down, elevator_prepare_call, elevator_prepare_query, call_request, bcd_decode,
  elevator_target, target_address,
}
use doorfast.Elevator.Requests.{prepared_call}
use doorfast.LiftControl.{
  LiftControl, LiftQuery, idle_control, is_waiting, submitted, lift_submit, lift_retry, lift_tick,
  lift_observe, fresh_query, protocol_completed,
}
use doorfast.Frame.{Frame}
use doorfast.LiftControl.Answered.{IsAnswer, IsAnswered}
use doorfast.LiftControl.Sound.{LiftReach, LiftReach-IsSound, IsSound}
use doorfast.LiftControl.Transaction.{Followed, AtMostOnce, lift_transaction}

abbrev unit : Address
unit = record { b0 = 0x61; b1 = 1; b2 = 2; b3 = 0x12; b4 = 1; b5 = 1 }

abbrev lift : Address
lift = target_address unit

abbrev fails : ElevatorRequest → Bool
fails r = false

abbrev sends : ElevatorRequest → Bool
sends r = true

abbrev call : ElevatorRequest
call = prepared_call unit down 12

-- The first attempt fails, the second is sent, and the lift answers.
abbrev called : LiftControl
called = (submitted fails (idle_control 100) call 1 500).1

abbrev repeated : LiftControl
repeated = record called { last_now_ms = 1500; attempts = 2; successful_sends = 1 }

abbrev completed : LiftControl
completed = record repeated {
  state = protocol_completed;
  last_now_ms = 1700;
  next_send_ms = 0;
  deadline_ms = 0;
}

abbrev answer : Frame
answer = frame unit lift 0x08 0x82 [] 0

LiftReach-IsSound_example : IsSound completed × (IsAnswer call answer ⊎ (false ≡ true))
unfolding IsSound IsAnswered submitted lift_submit lift_tick lift_retry lift_observe
    elevator_prepare_call elevator_prepare_query call_request elevator_target unicast_ip
    identity_fields bcd_value bcd_decode addr_eq five_eq
LiftReach-IsSound_example = LiftReach-IsSound (
    LiftReach.observe unit answer 1700 (
      LiftReach.tick sends unit 1500
        (LiftReach.submit fails unit down 1 500 (LiftReach.start 100))))

lift_transaction_example :
    (r : ElevatorRequest) × (elevator_prepare_call unit down ≡ some r)
    × (call ∷ [] ≡ r ∷ [])
    × AtMostOnce 500 r ((1500, call) ∷ [])
    × (is_waiting repeated.state ≡ true → repeated.last_now_ms < 2500)
unfolding submitted lift_submit lift_tick lift_retry elevator_prepare_call elevator_prepare_query
    call_request elevator_target unicast_ip identity_fields bcd_value bcd_decode addr_eq five_eq
lift_transaction_example =
    lift_transaction fails (idle_control 100) unit down 1 500 {q = called} refl
      (Followed.tick sends unit 1500 Followed.start)

abbrev asked : LiftQuery
asked = record (fresh_query unit true 300) {
  last_now_ms = 1299;
  next_query_ms = 1300;
  attempts = 1;
  failed_sends = 1;
}
