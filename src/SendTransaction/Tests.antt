-- ===== src/SendTransaction/Tests.antt =====
-- A transaction that sends one reply, at fixed clocks.
use doorfast.Prelude.{ℕ, ◌≤◌, ◌≡◌, inl, inr, List, [], ◌∷◌, arith}
use doorfast.ReplyQueue.{ReplyQueue, new_entry}
use doorfast.SendTransaction.{
  idle, sending, pending, failure, SendTransaction, SendAttempt, transaction_init,
}
use doorfast.SendTransaction.Invariant.{SendCall, steps, completes}
use doorfast.SendTransaction.Progress.{drive, steps_left, drive_ends}
use doorfast.Fixtures.{station}

abbrev queue : ReplyQueue
queue = record {
  entries = new_entry (record { target = station; request_data0 = 1; request_data1 = 2 }) 1100 ∷ [];
  last_now_ms = 100;
}

abbrev empty_queue : ReplyQueue
empty_queue = record { entries = []; last_now_ms = 100 }

abbrev unanswered : SendAttempt
unanswered entry attempt completion_id = pending

abbrev calls : List SendCall
calls = steps queue 200 unanswered ∷ completes 1 failure 250 ∷ steps empty_queue 400 unanswered ∷ []

-- The first attempt is on its way.
abbrev first_attempt : SendTransaction
first_attempt = record (transaction_init 200) {
  state = sending;
  attempt = 1;
  active_completion_id = 1;
  next_completion_id = 2;
  deadline_ms = 450;
}

abbrev times : List ℕ
times = 450 ∷ 700 ∷ 950 ∷ 1200 ∷ 1450 ∷ 1700 ∷ []

drive_ends_example :
    ((drive first_attempt empty_queue unanswered times).state ≡ idle)
    × (steps_left first_attempt ≤ 6)
drive_ends_example =
    drive_ends first_attempt empty_queue unanswered 450 times
      (record {
        few = omega arith;
        at_rest = inl (λ e. cc);
        started = inr (omega arith);
        on_air = inr (omega arith);
        waits = inl (λ e. cc);
        ids = omega arith;
      })
      (omega arith) (omega arith) (omega arith) (omega arith) (omega arith) (omega arith)
      (omega arith) (omega arith)
