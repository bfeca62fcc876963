-- ===== src/Access/Tests.antt =====
-- Unlock requests for one call, at fixed frames and clocks.
use doorfast.Prelude.{
  ◌≡◌, ◌↔◌, ◌⊎◌, refl, true, false, none, some, List, [], ◌∷◌, arith, Status, ok, length, All,
  Bytes, Block, zero_block, addr_eq, five_eq,
}
use doorfast.Frame.{Frame}
use doorfast.Session.{talking}
use doorfast.Access.{
  AccessRequest, AccessResult, waiting, completed, result_init, result_begin, result_observe,
  result_tick, result_current, prepare_direct,
}
use doorfast.Access.Control.{
  AccessControl, is_hex, control_init, control_submit, control_submit_material, begin_send,
  try_send, after_send,
}
use doorfast.Access.Control.Material.{control_init_configured}
use doorfast.Access.Result.{AccessCall, submit, observe, access_step, access_run}
use doorfast.Access.Reply.{Completes, access_step-completed}
use doorfast.Access.Once.{Rising, access_run-Rising}
use doorfast.Fixtures.{station, unit, call_in, frame}

abbrev material : Block
material = record { c0 = 0x3f; c1 = 0; c2 = 255; c3 = 16; c4 = 1; c5 = 2; c6 = 171; c7 = 205 }

-- A text that is too short.
abbrev short : Bytes
short = b'0' ∷ b'f' ∷ []

control_init_configured_example :
    let (status, c) = control_init (some short) 5 none in
    ((c.configured ≡ false)
      × (c.material ≡ zero_block)
      × ((status ≡ ok) ↔ ((some short ≡ none) ⊎ (some short ≡ some []))))
    ⊎ ((c.configured ≡ true)
        × (status ≡ ok)
        × ((t : Bytes) × (some short ≡ some t) × (length t ≡ 16) × All (λ d. is_hex d ≡ true) t))
control_init_configured_example = control_init_configured (some short) 5 none

abbrev always_ok : AccessRequest → Status
always_ok r = ok

-- A control that has its material, and one whose request for the seventh call is under way.
abbrev configured : AccessControl
configured = record {
  result = result_init 100;
  configured = true;
  material = material;
  attempted_generation = 0;
  send = some always_ok;
}

abbrev begun : AccessResult
begun = record (result_init 100) {
  state = waiting;
  session_generation = 7;
  last_now_ms = 200;
  deadline_ms = 1200;
  destination = station;
  source = unit;
}

abbrev opened : Frame
opened = frame unit station 0x04 0x89 (0x01 ∷ []) 1

-- Submitted twice and answered.
abbrev calls : List AccessCall
calls =
    submit (call_in talking) 7 unit 200
    ∷ submit (call_in talking) 7 unit 300
    ∷ observe (call_in talking) unit opened 900
    ∷ []

submitted_once :
    (access_run configured calls).1
    ≡ record {
      valid = true;
      session_generation = 7;
      destination = station;
      source = unit;
      material = material;
    }
      ∷ []
unfolding access_run access_step control_submit control_submit_material begin_send try_send
    after_send prepare_direct result_begin result_tick addr_eq five_eq
submitted_once = refl

access_step-completed_example :
    (waiting ≡ completed)
    ⊎ Completes (record configured { result = begun }) (observe (call_in talking) unit opened 900)
unfolding access_step result_observe result_current addr_eq five_eq
access_step-completed_example =
    access_step-completed (record configured { result = begun })
      (observe (call_in talking) unit opened 900) refl

access_run-Rising_example : Rising 0 (access_run configured calls).1
access_run-Rising_example = access_run-Rising configured 0 calls (omega arith) (omega arith)
