-- ===== src/Call/Dispatch/Enqueue.antt =====
-- src/gvs_call_dispatch.c: the check of a command before it is queued.
use doorfast.Prelude.{
  ℕ, ◌+◌, ◌≤◌, ◌≡◌, ◌≢◌, refl, true, false, some, arith, take, ok, Address, zero_address, addr_eq,
  bytes_eq_refl, u64_max,
}
use doorfast.Session.{Session}
use doorfast.SendTransaction.{attempt_timeout_ms}
use doorfast.Call.Command.{
  CallCommand, payload_list, command_begin, fill_pick, fill_hangup, prepare_pick, prepare_answer,
  prepare_call, prepare_hangup,
}
use doorfast.Call.Command.Wire.{
  Choice, answers, calls, hangs_up, prepare, prepare_inv, prepared, InRange, Fits,
}
use doorfast.Call.Dispatch.{
  Dispatch, queued, at_work, checked_command, enqueue_checked, dispatch_enqueue,
}

-- Preparing a prepared command again makes the same command.
checked_command-prepared :
    (choice : Choice) (s : Session) (local : Address)
    → InRange choice
    → Fits choice s.state
    → s.generation ≢ 0
    → addr_eq local zero_address ≡ false
    → addr_eq s.peer zero_address ≡ false
    → checked_command (prepared choice s local) ≡ some (prepared choice s local)
unfolding checked_command prepare_answer prepare_call prepare_hangup prepare_pick command_begin
    fill_pick fill_hangup
checked_command-prepared (answers primary secondary duration) s local r f g l p = ground arith
checked_command-prepared (calls primary secondary duration) s local r f g l p = ground arith
checked_command-prepared (hangs_up reason) s local r f g l p = ground arith

enqueue_checked_ok :
    (d : Dispatch) (c : CallCommand) (now_ms : ℕ)
    → d.next_id ≢ 0
    → now_ms + attempt_timeout_ms ≤ u64_max
    → enqueue_checked d c now_ms (some c) ≡ (
      ok,
      record d {
        command = c;
        state = queued;
        last_now_ms = now_ms;
        deadline_ms = now_ms + attempt_timeout_ms;
        attempts = 0;
        active_id = 0;
      },
    )
unfolding enqueue_checked
enqueue_checked_ok d c now_ms id room =
    let same = bytes_eq_refl (take c.payload_length (payload_list c.payload)) in ground arith

-- Every answer, call or hang-up that `prepare_*` makes of 16-bit ports and an 8-bit duration is
-- queued, unchanged and without attempts so far, by a dispatch that is not at work, has completion
-- ids left, and whose clock does not run back or out.
pub dispatch_enqueue-prepare :
    (d : Dispatch) (choice : Choice) (s : Session) (expected : ℕ) (local : Address) (now_ms : ℕ)
    {c : CallCommand}
    → InRange choice
    → prepare choice s expected local ≡ some c
    → at_work d.state ≡ false
    → d.next_id ≢ 0
    → d.last_now_ms ≤ now_ms
    → now_ms + attempt_timeout_ms ≤ u64_max
    → dispatch_enqueue d c now_ms ≡ (
      ok,
      record d {
        command = c;
        state = queued;
        last_now_ms = now_ms;
        deadline_ms = now_ms + attempt_timeout_ms;
        attempts = 0;
        active_id = 0;
      },
    )
unfolding dispatch_enqueue
dispatch_enqueue-prepare d choice s expected local now_ms {c} r p w id l room =
    let (e, same, some_generation, own, peer, fits) = prepare_inv choice s expected local p in
    let checked : checked_command c ≡ some c =
      rw e (checked_command-prepared choice s local r fits some_generation own peer) in
    let valid : c.valid ≡ true = rw e refl in
    let queues = enqueue_checked_ok d c now_ms id room in ground arith
