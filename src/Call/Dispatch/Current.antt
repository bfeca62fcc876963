-- ===== src/Call/Dispatch/Current.antt =====
-- src/gvs_call_dispatch.c: a command belongs to the session that it was prepared for.
use doorfast.Prelude.{
  ℕ, ◌≤◌, ◌≡◌, ◌≢◌, ◌⊎◌, inl, inr, true, false, arith, ok, err_invalid, Address, Bool-cases,
  addr_eq_sound,
}
use doorfast.Session.{Session, SessionState, ringing, preview, talking}
use doorfast.SendTransaction.{AttemptResult}
use doorfast.Call.Command.{CommandType, no_command, answer, hangup, call, hand_ask, hand_reply}
use doorfast.Call.Dispatch.{
  cancelled, Dispatch, CommandAttempt, at_work, state_fits, dispatch_work, dispatch_step,
  dispatch_completed, dispatch_complete, dispatch_current,
}

-- The states of a session that a command is for: an answer wants a ringing call, a call a preview, and
-- any other command a session that is not at rest.
abbrev pub IsFor : CommandType → SessionState → Type 0
IsFor answer s = s ≡ ringing
IsFor call s = s ≡ preview
IsFor _ s = (s ≡ preview) ⊎ (s ≡ ringing) ⊎ (s ≡ talking)

-- A command that the session is not, or is no longer, the one for: by its number, its station, the unit
-- itself or the state.
abbrev pub IsStale : Dispatch → Session → Address → Type 0
IsStale d s local =
    (d.command.session_generation ≢ s.generation)
    ⊎ (d.command.destination ≢ s.peer)
    ⊎ (d.command.source ≢ local)
    ⊎ ¬ IsFor d.command.kind s.state

-- The dispatch once it has seen that its session is gone.
abbrev pub stopped : Dispatch → ℕ → Dispatch
stopped d now_ms = record d {
  state = cancelled;
  active_id = 0;
  deadline_ms = 0;
  last_now_ms = now_ms;
}

state_fits-IsFor : (kind : CommandType) (s : SessionState) → state_fits kind s ≡ true → IsFor kind s
state_fits-IsFor answer s h = ground arith
state_fits-IsFor call s h = ground arith
state_fits-IsFor no_command s h = ground arith
state_fits-IsFor hangup s h = ground arith
state_fits-IsFor hand_ask s h = ground arith
state_fits-IsFor hand_reply s h = ground arith

IsStale-dispatch_current :
    (d : Dispatch) (s : Session) (local : Address)
    → IsStale d s local
    → dispatch_current d s local ≡ false
unfolding dispatch_current
IsStale-dispatch_current d s local h = elim (Bool-cases (dispatch_current d s local)) [
  | inr stale ↦ stale
  | inl current ↦
      let to = addr_eq_sound d.command.destination s.peer (ground arith) in
      let from = addr_eq_sound d.command.source local (ground arith) in
      let fits = state_fits-IsFor d.command.kind s.state (ground arith) in
      let number : d.command.session_generation ≡ s.generation = ground arith in
      elim h [
        | inl apart ↦ absurd (apart number)
        | inr (inl apart) ↦ absurd (apart to)
        | inr (inr (inl apart)) ↦ absurd (apart from)
        | inr (inr (inr unfit)) ↦ absurd (unfit fits)
      ]
]

-- A command at work that is stale is cancelled by the next step and by the next accepted completion. The
-- dispatch is left the same whatever the sender would do and whatever the result is: the sender is not
-- called, no attempt is counted and a success is not recorded. Stale is a command whose number is not
-- that of the session, whose destination is not its station, whose source is not the unit, or whose kind
-- is not for the session's state: an answer for a ringing call, a call for a preview, any other one for
-- a preview, a ringing call or a conversation.
pub stale_command :
    (d : Dispatch) (s : Session) (local : Address) (now_ms : ℕ) (send : CommandAttempt) (id : ℕ)
    (result : AttemptResult)
    → at_work d.state ≡ true
    → IsStale d s local
    → d.last_now_ms ≤ now_ms
    → (dispatch_step d s local now_ms send ≡ (ok, stopped d now_ms))
      × ((dispatch_complete d s local now_ms id result ≡ (ok, stopped d now_ms))
          ⊎ (dispatch_complete d s local now_ms id result ≡ (err_invalid, d)))
unfolding dispatch_step dispatch_work dispatch_complete dispatch_completed
stale_command d s local now_ms send id result w stale l =
    let c = IsStale-dispatch_current d s local stale in
    let k = IsStale-dispatch_current (record d { last_now_ms = now_ms }) s local stale in
    (ground arith, ground arith)
