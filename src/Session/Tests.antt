-- ===== src/Session/Tests.antt =====
-- A ringing call through its events, at fixed frames and clocks.
use doorfast.Prelude.{
  List, Address, ap, ◌+◌, ◌<◌, ◌≤◌, ◌≡◌, ◌↔◌, refl, some, [], ◌∷◌, arith, ok, addr_eq, five_eq,
}
use doorfast.Frame.{Frame}
use doorfast.Frame.EventType.{session_established}
use doorfast.Session.{
  ringing, talking, session_apply, session_observe_pick, observe_ask, observe_reply,
}
use doorfast.Session.Rules.{FromPeer, session_apply_iff}
use doorfast.Session.Pick.{Observation, observe, observe_all, answered_in_window}
use doorfast.Fixtures.{station, unit, other, call_in, frame, event}

abbrev established : Frame
established = frame unit station 0x03 0x05 [] 0

session_apply_iff_example :
    (((session_apply (call_in ringing) established (event session_established)).0 ≡ ok)
      × ((session_apply (call_in ringing) established (event session_established)).1.state
          ≡ talking))
    ↔ ((some talking ≡ some talking) × FromPeer (call_in ringing) established)
session_apply_iff_example =
    session_apply_iff (call_in ringing) established (event session_established) talking

abbrev answer_frame : Frame
answer_frame = frame station unit 3 3 (2 ∷ 1 ∷ 1 ∷ 0 ∷ 1 ∷ 2 ∷ 9 ∷ []) 7

abbrev asked : Observation
asked = record { frame = answer_frame; local = unit; now_ms = 100; timeout_ms = 1000 }

-- The answer again, and the station's reply.
abbrev asked_again : Observation
asked_again = record asked { now_ms = 600 }

abbrev replied : Observation
replied = record {
  frame = frame unit station 3 0x83 (0 ∷ 1 ∷ 1 ∷ 0 ∷ 1 ∷ 2 ∷ 9 ∷ []) 7;
  local = unit;
  now_ms = 1050;
  timeout_ms = 1000;
}

-- The reply of a second station
abbrev foreign : Observation
foreign = record replied {
  frame = frame unit other 3 0x83 (0 ∷ 1 ∷ 1 ∷ 0 ∷ 1 ∷ 2 ∷ 9 ∷ []) 7;
  now_ms = 700;
}

abbrev meanwhile : List Observation
meanwhile = asked_again ∷ foreign ∷ []

answered_in_window_example :
    let (status, u) = observe (observe_all (observe (call_in ringing) asked).1 meanwhile) replied in
    ((status ≡ ok) × (u.state ≡ talking)) ↔ ((100 ≤ 1050) × (1050 < 100 + 1000))
unfolding session_observe_pick observe_ask observe_reply addr_eq five_eq
answered_in_window_example =
    answered_in_window (call_in ringing) asked replied meanwhile refl (omega arith) refl
      (
        λ r. absurd (omega (arith, r.opcode)),
        (λ r. absurd (omega (arith, ap (λ (a : Address). a.b0) r.from_station)), tt),
      )
      (record {
        family = refl;
        opcode = refl;
        size = refl;
        present = refl;
        from_station = refl;
        to_local = refl;
        same_local = refl;
        timeout = omega arith;
      })
