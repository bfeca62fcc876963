-- ===== src/Deadline.antt =====
-- src/gvs_deadline.c: the time limit of a call that nobody ends.
mod Laws
use doorfast.Prelude.{
  ℕ, ◌+◌, ◌-◌, Bool, true, false, ◌||◌, not, ltb, ◌==◌, if◌then◌else◌, Status, ok, err_invalid,
}
use doorfast.Session.{Session, SessionState, ended, is_active}

-- `struct df_gvs_deadline`
pub record Deadline : Type 0 where
  pub armed : Bool
  pub generation : ℕ
  pub started_ms : ℕ
  pub timeout_ms : ℕ

-- `df_gvs_deadline_cancel`: the zeroed structure
abbrev pub cancelled : Deadline
cancelled = record { armed = false; generation = 0; started_ms = 0; timeout_ms = 0 }

-- `df_gvs_deadline_arm`; `is_active` is also the test of `df_gvs_state_has_deadline`.
unfoldable pub deadline_arm : Deadline → Session → ℕ → ℕ → Status × Deadline
deadline_arm d s now_ms timeout_ms = if not (is_active s.state) then (err_invalid, d) else (
  ok,
  record { armed = true; generation = s.generation; started_ms = now_ms; timeout_ms = timeout_ms },
)

-- `df_gvs_deadline_tick`; the Boolean is `*timed_out`.
unfoldable pub deadline_tick : Deadline → Session → ℕ → Status × Deadline × Session × Bool
deadline_tick d s now_ms =
    if not d.armed
    then (ok, d, s, false)
    else if not (d.generation == s.generation) || not (is_active s.state)
    then (ok, cancelled, s, false)
    else if ltb now_ms d.started_ms
    then (err_invalid, d, s, false)
    else if ltb (now_ms - d.started_ms) d.timeout_ms
    then (ok, d, s, false)
    else (ok, cancelled, record s { state = ended; pick_generation = 0 }, true)

-- `df_gvs_deadline_remaining`; the number is `*remaining_ms`.
unfoldable pub deadline_remaining : Deadline → ℕ → Status × ℕ
deadline_remaining d now_ms =
    if not d.armed
    then (ok, 0)
    else if ltb now_ms d.started_ms
    then (err_invalid, 0)
    else if ltb (now_ms - d.started_ms) d.timeout_ms
    then (ok, d.timeout_ms - (now_ms - d.started_ms))
    else (ok, 0)
