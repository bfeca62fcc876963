-- ===== src/Control/Untouched.antt =====
-- src/gvs_call_control.c, `df_gvs_call_control_step`: the stages that have no part in how a call ends.
use doorfast.Prelude.{ℕ, ◌≡◌, ◌∙◌, ap, inl, inr, true, some, arith, Address}
use doorfast.Session.{Session}
use doorfast.Call.Command.{CallCommand, is_pick, command_serialize}
use doorfast.Call.Sender.{placeholder_fields}
use doorfast.Call.Dispatch.{CommandAttempt}
use doorfast.Control.{
  Control, ControlResult, EndReason, not_ended, by_local_hangup, by_peer_hangup, by_session_timeout,
  by_confirmation_timeout, by_preemption, by_runtime_reset, by_heartbeat_timeout, by_unknown,
  handshake_enqueue,
}
use doorfast.Control.Own.{receive_sent-own}
use doorfast.Control.Step.{Work, step_handshake, send_action, receive_sent, begin_ack}
use doorfast.Control.Reason.{IsReason, IsAccounted, same-IsAccounted}
use doorfast.Control.Ticks.{Accounts}

-- The reason of an end depends on these parts of the result only.
IsReason-same :
    (r q : ControlResult) (reason : EndReason)
    → q.runtime ≡ r.runtime
    → q.handshake ≡ r.handshake
    → IsReason r reason
    → IsReason q reason
unfolding IsReason
IsReason-same r q by_heartbeat_timeout e k h = ground arith
IsReason-same r q by_preemption e k h = ground arith
IsReason-same r q by_session_timeout e k h = ground arith
IsReason-same r q by_local_hangup e k h = ground arith
IsReason-same r q by_peer_hangup e k h = (ground arith, ground arith)
IsReason-same r q by_unknown e k h = (ground arith, ground arith, ground arith, ground arith)
IsReason-same r q not_ended e k h = absurd (ground arith)
IsReason-same r q by_confirmation_timeout e k h = absurd (ground arith)
IsReason-same r q by_runtime_reset e k h = absurd (ground arith)

result-IsAccounted :
    (s : Session) (c c' : Control) (r q : ControlResult)
    → q.runtime ≡ r.runtime
    → q.handshake ≡ r.handshake
    → IsAccounted s c r c'
    → IsAccounted s c q c'
unfolding IsAccounted
result-IsAccounted s c c' r q e k (inl already) = inl already
result-IsAccounted s c c' r q e k (inr (fresh, number, station, reason)) =
    inr (fresh, number, station, IsReason-same r q c'.terminal.end_reason e k reason)

-- What a stage leaves as it is.
abbrev pub Untouched : Work → Work → Type 0
Untouched w v =
    (v.session.generation ≡ w.session.generation)
    × (v.session.state ≡ w.session.state)
    × (v.control.terminal ≡ w.control.terminal)
    × (v.result.runtime ≡ w.result.runtime)
    × (v.result.handshake ≡ w.result.handshake)

pub Untouched-Accounts :
    (s : Session) (c : Control) (w v : Work) → Untouched w v → Accounts s c w → Accounts s c v
Untouched-Accounts s c w v (g, st, t, e, k) (number, inl (over, a)) = (
  g ∙ number,
  inl (
    ground arith,
    same-IsAccounted s c v.control w.control v.result t
        (result-IsAccounted s c w.control w.result v.result e k a),
  ),
)
Untouched-Accounts s c w v (g, st, t, e, k) (number, inr (on, u)) =
    (g ∙ number, inr (ground arith, t ∙ u))

pub step_handshake-Untouched :
    (send : CommandAttempt) (local : Address) (now_ms : ℕ) (w v : Work)
    → step_handshake send local now_ms w ≡ some v
    → Untouched w v
unfolding step_handshake
step_handshake-Untouched send local now_ms w v h =
    (ground arith, ground arith, ground arith, ground arith, ground arith)

pub send_action-Untouched :
    (send : CommandAttempt) (local : Address) (now_ms : ℕ) (w v : Work)
    → send_action send local now_ms w ≡ some v
    → Untouched w v
unfolding send_action handshake_enqueue
send_action-Untouched send local now_ms w v h =
    (ground arith, ground arith, ground arith, ground arith, ground arith)

pub begin_ack-Untouched :
    (local : Address) (now_ms : ℕ) (w v : Work) → begin_ack local now_ms w ≡ some v → Untouched w v
unfolding begin_ack
begin_ack-Untouched local now_ms w v h =
    (ground arith, ground arith, ground arith, ground arith, ground arith)

pub receive_sent-Untouched :
    (c : CallCommand) (local : Address) (now_ms : ℕ) (w v : Work)
    → is_pick c.kind ≡ true
    → receive_sent (command_serialize c 49 (some placeholder_fields)) local now_ms w ≡ some v
    → Untouched w v
receive_sent-Untouched c local now_ms w v pick h =
    let (number, state, control, result) = receive_sent-own c local now_ms w v pick h in
    (
      number,
      state,
      ap (λ (k : Control). k.terminal) control,
      ap (λ (k : ControlResult). k.runtime) result,
      ap (λ (k : ControlResult). k.handshake) result,
    )
