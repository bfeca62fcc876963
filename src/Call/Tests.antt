-- ===== src/Call/Tests.antt =====
-- An answer to a ringing call, from its preparation to its acknowledgement.
use doorfast.Prelude.{
  inr, ℕ, ◌≤◌, ◌≡◌, ◌⊎◌, inl, refl, false, some, List, [], ◌∷◌, arith, ok, err_invalid, Bytes,
  zero_block, addr_eq, five_eq, bytes_eq,
}
use doorfast.Frame.{Frame, Event, parse, event_of, event_type, length_accepted, frame_of}
use doorfast.Frame.Serialize.{control_serialize, frame_bytes}
use doorfast.Session.{ringing, ended}
use doorfast.SendTransaction.{pending, success}
use doorfast.Call.Command.{
  CallCommand, prepare_answer, prepare_pick, command_begin, fill_pick, command_serialize,
}
use doorfast.Call.Command.Wire.{Choice, answers, prepare, prepared, choice_frame, parse-prepare}
use doorfast.Call.Dispatch.{
  queued, sent, Dispatch, CommandAttempt, at_work, dispatch_init, dispatch_current, dispatch_step,
  dispatch_complete,
}
use doorfast.Call.Dispatch.Invariant.{DispatchCall, enqueues, steps, completes}
use doorfast.Call.Dispatch.Current.{stopped, stale_command}
use doorfast.Call.Dispatch.Progress.{Visit, drive, steps_left, dispatch_ends}
use doorfast.Call.Ack.{
  Ack, confirmed, ack_init, ack_begin, ack_observe, ack_parsed, ack_receive, ack_current,
  frame_matches, pick_reply_matches,
}
use doorfast.Call.Ack.Confirm.{reply_request, reply_body, waits_for, ack_begin-ack_receive}
use doorfast.Call.Ack.Safety.{Answers, ack_receive_sound}
use doorfast.Fixtures.{station, unit, call_in, zero_fields, frame}

-- Answer with ports 9700 and 9701 for 60 seconds.
abbrev choice : Choice
choice = answers 9700 9701 60

abbrev command : CallCommand
command = prepared choice (call_in ringing) unit

abbrev answer_bytes : Bytes
answer_bytes =
    frame_bytes
      (record {
        destination = station;
        source = unit;
        family = 0x03;
        opcode = 0x03;
        payload = some (2 ∷ 37 ∷ 228 ∷ 0 ∷ 37 ∷ 229 ∷ 60 ∷ []);
        payload_length = 7;
      })
      (zero_block, zero_block)

parse-prepare_example :
    parse answer_bytes
    ≡ some (
      choice_frame choice (call_in ringing) unit,
      event_of (choice_frame choice (call_in ringing) unit),
    )
unfolding prepare prepare_answer prepare_pick command_begin fill_pick addr_eq five_eq
    command_serialize control_serialize
parse-prepare_example =
    parse-prepare choice (call_in ringing) 7 unit 100 (some zero_fields) {c = command} refl refl

abbrev queued_dispatch : Dispatch
queued_dispatch = record (dispatch_init 100) {
  command = command;
  state = queued;
  last_now_ms = 200;
  deadline_ms = 450;
}

abbrev unanswered : CommandAttempt
unanswered c attempt id = pending

abbrev history : List DispatchCall
history =
    enqueues command 200
    ∷ steps (call_in ringing) unit 210 unanswered
    ∷ completes (call_in ringing) unit 220 1 success
    ∷ []

-- The call has ended meanwhile.
stale_command_example :
    (dispatch_step queued_dispatch (call_in ended) unit 300 unanswered
      ≡ (ok, stopped queued_dispatch 300))
    × ((dispatch_complete queued_dispatch (call_in ended) unit 300 1 success
          ≡ (ok, stopped queued_dispatch 300))
        ⊎ (dispatch_complete queued_dispatch (call_in ended) unit 300 1 success
            ≡ (err_invalid, queued_dispatch)))
unfolding dispatch_current addr_eq five_eq
stale_command_example =
    stale_command queued_dispatch (call_in ended) unit 300 unanswered 1 success refl
      (inr (inr (inr (λ ringing_now. absurd (ground (arith, ringing_now)))))) (omega arith)

abbrev visit : ℕ → Visit
visit now_ms = record {
  now_ms = now_ms;
  session = call_in ringing;
  local = unit;
  send = unanswered;
}

abbrev visits : List Visit
visits = visit 210 ∷ visit 500 ∷ visit 800 ∷ visit 1100 ∷ visit 1400 ∷ visit 1700 ∷ visit 2000 ∷ []

dispatch_ends_example :
    (at_work (drive queued_dispatch visits).state ≡ false) × (steps_left queued_dispatch ≤ 7)
dispatch_ends_example =
    dispatch_ends queued_dispatch 200 visits
      (record { few = omega arith; in_range = omega arith; allowed = (refl, refl, omega arith) })
      (omega arith) (inl refl) (omega arith) (omega arith)

abbrev sent_dispatch : Dispatch
sent_dispatch = record (dispatch_init 100) {
  command = command;
  state = sent;
  last_now_ms = 220;
  next_id = 2;
  attempts = 1;
}

-- The station grants 45 seconds.
abbrev reply_bytes : Bytes
reply_bytes = frame_bytes (reply_request choice (call_in ringing) unit 45) (zero_block, zero_block)

ack_begin-ack_receive_example :
    let (status, b) = ack_begin (ack_init 100) sent_dispatch (call_in ringing) unit 230 500 in
    (status ≡ ok)
    × (ack_receive b (call_in ringing) unit reply_bytes 400
        ≡ (ok, record { state = confirmed; command = command; last_now_ms = 400; deadline_ms = 0 }))
unfolding prepare prepare_answer prepare_pick command_begin fill_pick addr_eq five_eq
    control_serialize
ack_begin-ack_receive_example =
    ack_begin-ack_receive (ack_init 100) sent_dispatch choice (call_in ringing) 7 unit 230 500 400
      45 100 (some zero_fields) (omega arith) refl refl refl (omega arith) (omega arith)
      (omega arith) (omega arith) (omega arith) refl

abbrev waiting_ack : Ack
waiting_ack = waits_for command 230 730

ack_receive_sound_example :
    (fe : Frame × Event) × (parse reply_bytes ≡ some fe)
    × Answers waiting_ack (call_in ringing) unit 400 fe.0
unfolding ack_receive ack_parsed ack_observe ack_current frame_matches pick_reply_matches parse
    length_accepted frame_of event_of event_type bytes_eq addr_eq five_eq frame_bytes
ack_receive_sound_example =
    ack_receive_sound waiting_ack (call_in ringing) unit reply_bytes 400 refl

abbrev reply : Frame
reply = frame unit station 0x03 0x83 (reply_body choice 45) 7
