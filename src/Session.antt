-- ===== src/Session.antt =====
-- src/gvs_session.c and src/gvs_session.h: the one call that the indoor unit holds.
-- An operation returns its status and the session as it leaves it. The pointers that the code tests
-- against null are values here; only a frame's payload may be null.
pub mod Rules
pub mod Pick
mod Tests
use doorfast.Prelude.{
  ℕ, ◌+◌, ◌-◌, Bool, true, false, ◌&&◌, ◌||◌, not, Option, none, some, List, [], ◌∷◌, ltb, leb,
  ◌==◌, if◌then◌else◌, Status, ok, err_invalid, u64, u64_max, Bytes, Address, zero_address, addr_eq,
}
use doorfast.Frame.{Frame, EventType, Event}
use doorfast.Frame.EventType.{
  incoming_call, hangup, preview_started, session_established, unlock_result_observed,
}
use doorfast.Priority.{Decision, unsupported, keep, preempt, priority_compare}

-- `enum df_gvs_session_state`
pub data SessionState : Type 0 where
  idle preview ringing talking ended : SessionState

-- `struct df_gvs_session`
pub record Session : Type 0 where
  pub state : SessionState
  pub peer : Address
  pub generation : ℕ
  pub pick_generation : ℕ
  pub pick_started_ms : ℕ
  pub pick_timeout_ms : ℕ
  pub pick_local : Address

-- A zeroed session, as its owners set it up.
abbrev pub empty_session : Session
empty_session = record {
  state = idle;
  peer = zero_address;
  generation = 0;
  pick_generation = 0;
  pick_started_ms = 0;
  pick_timeout_ms = 0;
  pick_local = zero_address;
}

-- The numbers of the enumerators, for the code's comparisons.
abbrev pub state_code : SessionState → ℕ
state_code idle = 0
state_code preview = 1
state_code ringing = 2
state_code talking = 3
state_code ended = 4

abbrev pub in_state : SessionState → SessionState → Bool
in_state s t = state_code s == state_code t

abbrev pub event_code : EventType → ℕ
event_code EventType.unknown = 0
event_code incoming_call = 1
event_code hangup = 2
event_code EventType.station_observed = 3
event_code preview_started = 4
event_code session_established = 5
event_code unlock_result_observed = 6
event_code EventType.pick_reply_observed = 7

abbrev pub is_event : EventType → EventType → Bool
is_event e f = event_code e == event_code f

-- `df_gvs_session_is_active`
abbrev pub is_active : SessionState → Bool
is_active s = in_state s preview || (in_state s ringing || in_state s talking)

-- `struct df_gvs_transition_event` and `struct df_gvs_preemption`
pub record TransitionEvent : Type 0 where
  pub kind : EventType
  pub peer : Address
  pub generation : ℕ

pub record Preemption : Type 0 where
  pub events : List TransitionEvent
  pub count : ℕ
  pub ring_started_ms : ℕ

abbrev pub no_preemption : Preemption
no_preemption = record { events = []; count = 0; ring_started_ms = 0 }

-- Clears what `observe_pick` remembers.
abbrev pub forget_pick : Session → Session
forget_pick s = record s {
  pick_generation = 0;
  pick_started_ms = 0;
  pick_timeout_ms = 0;
  pick_local = zero_address;
}

abbrev pub preempts : Decision → Bool
preempts unsupported = false
preempts keep = false
preempts preempt = true

unfoldable pub preempted : Session → Address → Session
preempted s incoming = record (forget_pick s) {
  peer = incoming;
  generation = u64 (s.generation + 1);
}

unfoldable pub preemption_of : Session → Address → ℕ → Preemption
preemption_of s incoming now_ms = record {
  events =
      record { kind = hangup; peer = s.peer; generation = s.generation }
      ∷ record { kind = incoming_call; peer = incoming; generation = u64 (s.generation + 1) }
      ∷ [];
  count = 2;
  ring_started_ms = now_ms;
}

-- `df_gvs_session_preempt`
unfoldable pub session_preempt :
    Session → ℕ → Address → Option ℕ → Option ℕ → ℕ → Status × Session × Preemption
unfolding preempted preemption_of
session_preempt s expected incoming current_category incoming_category now_ms =
    if not (in_state s.state ringing)
      || (expected == 0
          || (not (expected == s.generation)
              || (s.generation == u64_max
                  || (addr_eq s.peer incoming
                      || not (preempts (priority_compare current_category incoming_category))))))
    then (err_invalid, s, no_preemption)
    else (ok, preempted s incoming, preemption_of s incoming now_ms)

-- `++` on a 64-bit counter that skips 0
unfoldable pub next_generation : ℕ → ℕ
next_generation g = if u64 (g + 1) == 0 then 1 else u64 (g + 1)

-- `df_gvs_session_start`, with `df_gvs_session_set_peer`
unfoldable pub session_start : Session → Frame → SessionState → Session
unfolding next_generation
session_start s f state = record s {
  generation = next_generation s.generation;
  pick_generation = 0;
  peer = f.source;
  state = state;
}

abbrev pub at_rest : SessionState → Bool
at_rest s = in_state s idle || in_state s ended

-- `df_gvs_session_apply`
unfoldable pub session_apply : Session → Frame → Event → Status × Session
unfolding session_start
session_apply s f e =
    if is_active s.state && not (addr_eq s.peer f.source)
    then (err_invalid, s)
    else if at_rest s.state && is_event e.kind preview_started
    then (ok, session_start s f preview)
    else if at_rest s.state && is_event e.kind incoming_call
    then (ok, session_start s f ringing)
    else if (in_state s.state preview || in_state s.state ringing)
        && is_event e.kind session_established
    then (ok, record s { state = talking })
    else if is_active s.state && is_event e.kind hangup
    then (ok, record s { state = ended; pick_generation = 0 })
    else if in_state s.state ringing && is_event e.kind incoming_call
    then (ok, s)
    else if is_active s.state && is_event e.kind unlock_result_observed
    then (ok, s)
    else (err_invalid, s)

-- `df_gvs_session_apply_for_generation`
unfoldable pub session_apply_for_generation : Session → ℕ → Frame → Event → Status × Session
unfolding session_apply
session_apply_for_generation s generation f e =
    if generation == 0 || not (generation == s.generation)
    then (err_invalid, s)
    else session_apply s f e

-- `df_gvs_session_abort`; the Boolean is `*ended`.
unfoldable pub session_abort : Session → Status × Session × Bool
session_abort s =
    if not (is_active s.state)
    then (ok, s, false)
    else (ok, record (forget_pick s) { state = ended }, true)

abbrev pub is_null : Option Bytes → Bool
is_null none = true
is_null (some p) = false

-- `now - started < timeout`, with the clock not run backwards
abbrev pub in_window : Session → ℕ → Bool
in_window s now_ms =
    leb s.pick_started_ms now_ms && ltb (now_ms - s.pick_started_ms) s.pick_timeout_ms

-- The branch of opcode 3: the answer that the local unit sends.
unfoldable pub observe_ask : Session → Frame → Address → ℕ → ℕ → Status × Session
observe_ask s f local now_ms timeout_ms =
    if not (addr_eq f.source local) || not (addr_eq f.destination s.peer)
    then (err_invalid, s)
    else if s.pick_generation == s.generation
    then (if in_window s now_ms then (ok, s) else (err_invalid, s))
    else (
      ok,
      record s {
        pick_generation = s.generation;
        pick_started_ms = now_ms;
        pick_timeout_ms = timeout_ms;
        pick_local = local;
      },
    )

-- The branch of every other opcode: the station's reply, 0x83.
unfoldable pub observe_reply : Session → Frame → Address → ℕ → Status × Session
observe_reply s f local now_ms =
    if not (f.opcode == 0x83)
      || (not (addr_eq f.source s.peer)
          || (not (addr_eq f.destination local)
              || (not (addr_eq s.pick_local local) || not (s.pick_generation == s.generation))))
    then (err_invalid, s)
    else if not (in_window s now_ms)
    then (err_invalid, record s { pick_generation = 0 })
    else (ok, record s { pick_generation = 0; state = talking })

-- `df_gvs_session_observe_pick`
unfoldable pub session_observe_pick : Session → Frame → Address → ℕ → ℕ → Status × Session
unfolding observe_ask observe_reply
session_observe_pick s f local now_ms timeout_ms =
    if timeout_ms == 0
      || (s.generation == 0
          || ((not (in_state s.state ringing) && not (in_state s.state preview))
              || (not (f.family == 3) || (not (f.payload_length == 7) || is_null f.payload))))
    then (err_invalid, s)
    else if f.opcode == 3
    then observe_ask s f local now_ms timeout_ms
    else observe_reply s f local now_ms
