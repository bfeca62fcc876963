-- ===== src/Control/Lasting.antt =====
-- src/gvs_call_control.c: the record of how a call ended is written once.
use doorfast.Prelude.{
  ℕ, ◌≡◌, refl, ap, ◌∙◌, ◌⊎◌, inl, inr, true, false, ◌&&◌, ◌||◌, Option, none, some, arith, ◌==◌,
  ltb, Bool-cases, is_ok, Bytes, Address,
}
use doorfast.Frame.{Frame, Event, parse}
use doorfast.Session.{Session}
use doorfast.Deadline.{Deadline}
use doorfast.Call.Command.{is_pick, command_serialize}
use doorfast.Call.Sender.{placeholder_fields}
use doorfast.Call.Dispatch.{Dispatch, CommandAttempt, dispatch_step}
use doorfast.Runtime.{runtime_tick, runtime_receive}
use doorfast.Control.{
  Control, ControlResult, no_control_result, by_local_hangup, has_ended, record_terminal, classify,
  handshake_enqueue, control_receive, receive_parsed, receive_hand, receive_call_frame,
}
use doorfast.Control.Step.{
  Work, tick_handshake, tick_runtime, start_handshake, step_handshake, send_action, step_dispatch,
  judge_dispatch, sent_now, blamed, confirm_sent, receive_sent, begin_ack, stages, control_step,
  control_step_inv, >>=-keeps,
}
use doorfast.Control.Own.{receive_sent-own}
use doorfast.Control.Ended.{Handled, stepped, received}
use doorfast.Control.Recorded.{
  Recorded, record_terminal-Recorded, Recorded-same, same-Recorded, classify-Recorded,
  Recorded-trans,
}

judge_dispatch_terminal :
    (s : Session) (before : Dispatch) (w : Work)
    → ((judge_dispatch s before w).control.terminal ≡ w.control.terminal)
      ⊎ ((judge_dispatch s before w).control.terminal
          ≡ (record_terminal
              (blamed w).control
              by_local_hangup
              (blamed w).control.fault
              s).terminal)
unfolding judge_dispatch
judge_dispatch_terminal s before w = ground arith

module _ (local : Address) (now_ms : ℕ) (w v : Work) where
  tick_handshake-terminal :
      tick_handshake local now_ms w ≡ some v → v.control.terminal ≡ w.control.terminal
  unfolding tick_handshake
  tick_handshake-terminal h = ground arith

  start_handshake-terminal :
      start_handshake local now_ms w ≡ some v → v.control.terminal ≡ w.control.terminal
  unfolding start_handshake
  start_handshake-terminal h = ground arith

  step_handshake-terminal :
      (send : CommandAttempt)
      → step_handshake send local now_ms w ≡ some v
      → v.control.terminal ≡ w.control.terminal
  unfolding step_handshake
  step_handshake-terminal send h = ground arith

  send_action-terminal :
      (send : CommandAttempt)
      → send_action send local now_ms w ≡ some v
      → v.control.terminal ≡ w.control.terminal
  unfolding send_action handshake_enqueue
  send_action-terminal send h = ground arith

  begin_ack-terminal : begin_ack local now_ms w ≡ some v → v.control.terminal ≡ w.control.terminal
  unfolding begin_ack
  begin_ack-terminal h = ground arith

  tick_runtime-Recorded :
      (s : Session) → tick_runtime s local now_ms w ≡ some v → Recorded s w.control v.control
  unfolding tick_runtime Recorded
  tick_runtime-Recorded s h =
      let out = runtime_tick w.control.acknowledgement local w.session w.deadline now_ms in
      let recorded =
        classify-Recorded (record w.control { acknowledgement = out.1 }) s out.2
          (record w.result { runtime = out.4 }) in
      elim (Bool-cases (is_ok out.0)) [
        | inr refused ↦ absurd (ground arith)
        | inl fine ↦
            let same : v.control.terminal
                ≡ (classify (record w.control { acknowledgement = out.1 }) s out.2
                    (record w.result { runtime = out.4 })).terminal =
              ground arith in
            rw same recorded
      ]

confirm_sent-terminal :
    (before : Dispatch) (local : Address) (now_ms : ℕ) (w v : Work)
    → confirm_sent before local now_ms w ≡ some v
    → v.control.terminal ≡ w.control.terminal
unfolding confirm_sent
confirm_sent-terminal before local now_ms w v h =
    elim (Bool-cases (sent_now before w.control.dispatch)) [
      | inr idle ↦ ground (arith, h)
      | inl sent ↦ elim (Bool-cases (is_pick w.control.dispatch.command.kind)) [
        | inr other ↦ begin_ack-terminal local now_ms w v (rw (sent, other) at h)
        | inl pick ↦
            let c = w.control.dispatch.command in
            >>=-keeps (λ u. u.control.terminal ≡ w.control.terminal)
              (λ u. u.control.terminal ≡ w.control.terminal)
              (receive_sent (command_serialize c 49 (some placeholder_fields)) local now_ms w)
              (begin_ack local now_ms)
              (λ u e.
                ap (λ (k : Control). k.terminal) (receive_sent-own c local now_ms w u pick e).2)
              (λ u x a e. begin_ack-terminal local now_ms u x e ∙ a) v (rw (sent, pick) at h)
      ]
    ]

judge_dispatch-Recorded :
    (s : Session) (before : Dispatch) (w : Work)
    → Recorded s w.control (judge_dispatch s before w).control
unfolding Recorded
judge_dispatch-Recorded s before w = elim (judge_dispatch_terminal s before w) [
  | inl same ↦ same-Recorded s w.control (judge_dispatch s before w).control same
  | inr recorded ↦
      let c = (blamed w).control in
      Recorded-same s w.control (record_terminal c by_local_hangup c.fault s)
        (judge_dispatch s before w).control recorded
        (record_terminal-Recorded c by_local_hangup c.fault s refl)
]

step_dispatch-Recorded :
    (s : Session) (send : CommandAttempt) (local : Address) (now_ms : ℕ) (w v : Work)
    → step_dispatch send s local now_ms w ≡ some v
    → Recorded s w.control v.control
unfolding step_dispatch Recorded
step_dispatch-Recorded s send local now_ms w v h =
    let out = dispatch_step w.control.dispatch w.session local now_ms send in
    let u : Work = record w { control = record w.control { dispatch = out.1 } } in
    elim (Bool-cases (is_ok out.0)) [
      | inr refused ↦ absurd (ground (arith, h))
      | inl fine ↦
          let judged = judge_dispatch s w.control.dispatch u in
          rw (confirm_sent-terminal w.control.dispatch local now_ms judged v (rw fine at h))
            (judge_dispatch-Recorded s w.control.dispatch u)
    ]

stages-Recorded :
    (send hand_send : CommandAttempt) (c : Control) (s : Session) (local : Address) (d : Deadline)
    (now_ms : ℕ) (v : Work)
    → stages send hand_send c s local d now_ms ≡ some v
    → Recorded s c v.control
unfolding stages
stages-Recorded send hand_send c s local d now_ms =
    >>=-keeps P P _ (step_dispatch send s local now_ms)
      (>>=-keeps P P _ (send_action hand_send local now_ms)
        (>>=-keeps P P _ (step_handshake hand_send local now_ms)
          (>>=-keeps P P _ (start_handshake local now_ms)
            (>>=-keeps (λ w. w.control.terminal ≡ c.terminal) P _ (tick_runtime s local now_ms)
              (λ w e. tick_handshake-terminal local now_ms begun w e)
              (λ w u k e.
                Recorded-trans s c w.control u.control (same-Recorded s c w.control k)
                  (tick_runtime-Recorded local now_ms w u s e)))
            (λ w u k e. keep w u k (start_handshake-terminal local now_ms w u e)))
          (λ w u k e. keep w u k (step_handshake-terminal local now_ms w u hand_send e)))
        (λ w u k e. keep w u k (send_action-terminal local now_ms w u hand_send e)))
      (λ w u k e.
        Recorded-trans s c w.control u.control k (step_dispatch-Recorded s send local now_ms w u e))
  where
    begun : Work
    begun = record { control = c; session = s; deadline = d; result = no_control_result }

    P : Work → Type 0
    P w = Recorded s c w.control

    keep : (w u : Work) → P w → u.control.terminal ≡ w.control.terminal → P u
    keep w u k e = Recorded-same s c w.control u.control e k

receive_call_frame-Recorded :
    (c : Control) (datagram : Bytes) (local : Address) (s : Session) (d : Deadline) (now_ms : ℕ)
    {c' : Control} {s' : Session} {d' : Deadline} {r : ControlResult}
    → receive_call_frame c datagram local s d now_ms ≡ some (c', s', d', r)
    → Recorded s c c'
unfolding receive_call_frame
receive_call_frame-Recorded c datagram local s d now_ms {c'} h =
    let out = runtime_receive c.acknowledgement datagram local s d now_ms in
    let acked : Control = record c { acknowledgement = out.1 } in
    let result : ControlResult = record no_control_result { runtime = out.4 } in
    let classified = classify acked s out.2 result in
    elim (Bool-cases (is_ok out.0)) [
      | inr refused ↦ absurd (ground (arith, h))
      | inl fine ↦
          let same : c'.terminal ≡ classified.terminal = ground (arith, h) in
          Recorded-same s c classified c' same (
            Recorded-trans s c acked classified (same-Recorded s c acked refl)
              (classify-Recorded acked s out.2 result))
    ]

receive_hand-terminal :
    (c : Control) (datagram : Bytes) (local : Address) (s : Session) (d : Deadline) (now_ms : ℕ)
    {c' : Control} {s' : Session} {d' : Deadline} {r : ControlResult}
    → receive_hand c datagram local s d now_ms ≡ some (c', s', d', r)
    → c'.terminal ≡ c.terminal
unfolding receive_hand handshake_enqueue
receive_hand-terminal c datagram local s d now_ms h = ground arith

receive_parsed-Recorded :
    (c : Control) (datagram : Bytes) (o : Option (Frame × Event)) (local : Address) (s : Session)
    (d : Deadline) (now_ms : ℕ) {c' : Control} {s' : Session} {d' : Deadline} {r : ControlResult}
    → receive_parsed c datagram o local s d now_ms ≡ some (c', s', d', r)
    → Recorded s c c'
unfolding receive_parsed
receive_parsed-Recorded c datagram none local s d now_ms h = absurd (ground (arith, h))
receive_parsed-Recorded c datagram (some (f, e)) local s d now_ms {c'} h =
    elim (Bool-cases (f.family == 3 && (f.opcode == 0x51 || f.opcode == 0x52))) [
      | inl hand ↦
          same-Recorded s c c' (receive_hand-terminal c datagram local s d now_ms (rw hand at h))
      | inr other ↦ receive_call_frame-Recorded c datagram local s d now_ms (rw other at h)
    ]

control_step-Recorded :
    (send hand_send : CommandAttempt) (c : Control) (s : Session) (local : Address) (d : Deadline)
    (now_ms : ℕ) {c' : Control} {s' : Session} {d' : Deadline} {r : ControlResult}
    → control_step send hand_send c s local d now_ms ≡ some (c', s', d', r)
    → Recorded s c c'
control_step-Recorded send hand_send c s local d now_ms {c'} h =
    let (w, e, k, _, _) = control_step_inv send hand_send c s local d now_ms h in
    Recorded-same s c w.control c' (ap (λ (x : Control). x.terminal) k)
      (stages-Recorded send hand_send c s local d now_ms w e)

-- How a call ended is written once: a step or a received datagram leaves the record as it is, or writes
-- the end of the session that was there before it, with a reason, when the end of that session was not
-- yet on record.
pub recorded_once :
    (c : Control) (s : Session) {c' : Control} {s' : Session} {r : ControlResult}
    → Handled c s c' s' r
    → (c'.terminal ≡ c.terminal)
      ⊎ ((c'.terminal.generation ≡ s.generation)
          × (has_ended c'.terminal.end_reason ≡ true)
          × ((has_ended c.terminal.end_reason && c.terminal.generation == s.generation) ≡ false))
unfolding Recorded control_receive
recorded_once c s (stepped send hand_send local d now_ms h) =
    control_step-Recorded send hand_send c s local d now_ms h
recorded_once c s (received datagram local d now_ms h) =
    elim (Bool-cases (
      ltb now_ms c.dispatch.last_now_ms
      || (ltb now_ms c.handshake.last_now_ms || ltb now_ms c.handshake_dispatch.last_now_ms))) [
        | inl late ↦ absurd (ground (arith, h))
        | inr fine ↦
            receive_parsed-Recorded c datagram (parse datagram) local s d now_ms (rw fine at h)
      ]
