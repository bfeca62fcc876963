-- ===== src/Deadline/Laws.antt =====
-- src/gvs_deadline.c: when a deadline ends its call.
use doorfast.Prelude.{ℕ, ◌+◌, ◌≤◌, ◌≡◌, ◌≢◌, ◌↔◌, ◌⊎◌, true, false, arith, ok}
use doorfast.Session.{Session, ended, is_active}
use doorfast.Deadline.{Deadline, cancelled, deadline_arm, deadline_tick, deadline_remaining}

-- A deadline armed for a call ends that call at the first tick at or after its limit, and at no
-- tick before; what it reports as remaining is 0 exactly from that time on, and the time itself is
-- the tick's clock plus what remains.
pub deadline_arm-tick :
    (d : Deadline) (s : Session) (armed_ms timeout_ms now_ms : ℕ)
    → is_active s.state ≡ true
    → armed_ms ≤ now_ms
    → let a = (deadline_arm d s armed_ms timeout_ms).1 in
      let (status, b, t, timed_out) = deadline_tick a s now_ms in
      (status ≡ ok)
      × ((timed_out ≡ true) ↔ (armed_ms + timeout_ms ≤ now_ms))
      × ((timed_out ≡ true) ↔ ((deadline_remaining a now_ms).1 ≡ 0))
      × ((timed_out ≡ true)
          ⊎ (now_ms + (deadline_remaining a now_ms).1 ≡ armed_ms + timeout_ms) × (b ≡ a) × (t ≡ s))
      × ((timed_out ≡ false) ⊎ (t.state ≡ ended) × (b ≡ cancelled))
unfolding deadline_arm deadline_tick deadline_remaining
deadline_arm-tick d s armed_ms timeout_ms now_ms h l = ground arith

-- A deadline never touches a later call, nor one that has ended: it is taken off and the session
-- stays as it is, whatever the clock says.
pub deadline_tick_other :
    (d : Deadline) (s : Session) (now_ms : ℕ)
    → (d.generation ≢ s.generation) ⊎ (is_active s.state ≡ false)
    → let (status, b, t, timed_out) = deadline_tick d s now_ms in
      (status ≡ ok) × (b.armed ≡ false) × (t ≡ s) × (timed_out ≡ false)
unfolding deadline_tick
deadline_tick_other d s now_ms h = ground arith
