-- ===== src/Lifecycle/Tests.antt =====
-- A session from nothing to its second call.
use doorfast.Prelude.{[]}
use doorfast.Frame.EventType.{incoming_call}
use doorfast.Session.{Session, empty_session, session_apply}
use doorfast.Lifecycle.{Reach, start, next, applied, IsValid, Reach-IsValid}
use doorfast.Fixtures.{station, unit, frame, event}

abbrev ringing_call : Session
ringing_call =
    (session_apply empty_session (frame unit station 0x03 0x01 [] 0) (event incoming_call)).1

abbrev reached : Reach ringing_call
reached = next start (applied (frame unit station 0x03 0x01 [] 0) (event incoming_call))

Reach-IsValid_example : IsValid ringing_call
Reach-IsValid_example = Reach-IsValid reached
