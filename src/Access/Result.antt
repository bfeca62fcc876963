-- ===== src/Access/Result.antt =====
-- src/gvs_access.c: the result of an unlock request through any history of calls.
use doorfast.Prelude.{
  ℕ, ◌≤◌, ◌<◌, ◌≡◌, ◌≢◌, refl, ◌⊎◌, inl, inr, false, Option, none, some, List, [], ◌∷◌, ◌++◌, arith,
  Bool-cases, ◌==◌, Status, ok, err_invalid, err_io, u64_max, Bytes, Address, is_ok,
}
use doorfast.Frame.{Frame}
use doorfast.Session.{Session}
use doorfast.Access.{
  AccessRequest, AccessResult, waiting, completed, is_waiting, prepare_direct, result_begin,
  result_observe, result_tick,
}
use doorfast.Access.Control.{
  AccessControl, control_init, control_submit, try_send, after_send, begin_send,
}

-- A call on the control, with the clock of its caller.
pub data AccessCall : Type 0 where
  submit : Session → ℕ → Address → ℕ → AccessCall
  observe : Session → Address → Frame → ℕ → AccessCall
  tick : Session → Address → ℕ → AccessCall

-- The control after a call, and the requests that the call handed to the sender.
unfoldable pub access_step : AccessControl → AccessCall → AccessControl × List AccessRequest
access_step c (submit s generation local now_ms) =
    let (status, d, sent) = control_submit c s generation local now_ms in (d, sent)
access_step c (observe s local f now_ms) =
    (record c { result = (result_observe c.result s local f now_ms).1 }, [])
access_step c (tick s local now_ms) =
    (record c { result = (result_tick c.result s local now_ms).1 }, [])

unfoldable pub access_run : AccessControl → List AccessCall → AccessControl × List AccessRequest
access_run c [] = (c, [])
access_run c (call ∷ calls) =
    let (d, sent) = access_step c call in let (e, later) = access_run d calls in (e, sent ++ later)

pub record IsSound (r : AccessResult) : Type 0 where
  pub unconfirmed : r.physical_result_confirmed ≡ false
  pub armed :
      ((r.state ≡ waiting) × (r.last_now_ms < r.deadline_ms) × (r.deadline_ms ≤ u64_max))
      ⊎ ((is_waiting r.state ≡ false) × (r.deadline_ms ≡ 0))
  pub agreed : (r.state ≢ completed) ⊎ (r.raw_status ≡ 1)

result_tick-IsSound :
    (r : AccessResult) (s : Session) (local : Address) (now_ms : ℕ)
    → IsSound r
    → IsSound (result_tick r s local now_ms).1
unfolding result_tick
result_tick-IsSound r s local now_ms v = ground arith

result_observe-IsSound :
    (r : AccessResult) (s : Session) (local : Address) (f : Frame) (now_ms : ℕ)
    → IsSound r
    → IsSound (result_observe r s local f now_ms).1
unfolding result_observe
result_observe-IsSound r s local f now_ms v = ground arith

result_begin-IsSound :
    (r : AccessResult) (s : Session) (generation : ℕ) (local : Address) (now_ms timeout_ms : ℕ)
    → timeout_ms ≤ u64_max
    → IsSound r
    → IsSound (result_begin r s generation local now_ms timeout_ms).1
unfolding result_begin
result_begin-IsSound r s generation local now_ms timeout_ms b v = ground arith

after_send-IsSound :
    (c : AccessControl) (generation : ℕ) (next : AccessResult) (status : Status)
    → IsSound next
    → IsSound (after_send c generation next status).result
unfolding after_send
after_send-IsSound c generation next status v = ground arith

result_begin_waits :
    (r : AccessResult) (s : Session) (generation : ℕ) (local : Address) (now_ms timeout_ms : ℕ)
    → (result_begin r s generation local now_ms timeout_ms).0 ≡ ok
    → (result_begin r s generation local now_ms timeout_ms).1.state ≡ waiting
unfolding result_begin
result_begin_waits r s generation local now_ms timeout_ms h = ground arith

-- A submission that reaches the sender.
pub record Submitted (c : AccessControl) (s : Session) (generation : ℕ) (local : Address)
    (d : AccessControl) (sent : List AccessRequest) : Type 0 where
  pub request : AccessRequest
  pub next : AccessResult
  pub status : Status
  pub fresh : generation ≢ c.attempted_generation
  pub prepared : prepare_direct s generation local c.material ≡ some request
  pub once : sent ≡ request ∷ []
  pub begun : IsSound c.result → IsSound next
  pub waits : next.state ≡ waiting
  pub after : d ≡ after_send c generation next status

ticked_then_begun :
    (r : AccessResult) (s : Session) (generation : ℕ) (local : Address) (now_ms : ℕ)
    → IsSound r
    → IsSound (result_begin (result_tick r s local now_ms).1 s generation local now_ms 1000).1
ticked_then_begun r s generation local now_ms v =
    result_begin-IsSound (result_tick r s local now_ms).1 s generation local now_ms 1000
      (omega arith) (result_tick-IsSound r s local now_ms v)

module _ (c : AccessControl) (s : Session) (generation : ℕ) (local : Address) (now_ms : ℕ) where
  abbrev Outcome : Status × AccessControl × List AccessRequest → Type 0
  Outcome o = ((o.1 ≡ c) × (o.2 ≡ [])) ⊎ Submitted c s generation local o.1 o.2

  try_send_cases :
      (request : AccessRequest) (send : AccessRequest → Status) (begun : Status × AccessResult)
      → generation ≢ c.attempted_generation
      → prepare_direct s generation local c.material ≡ some request
      → (IsSound c.result → IsSound begun.1)
      → (begun.0 ≡ ok → begun.1.state ≡ waiting)
      → Outcome (try_send c generation request send begun)
  unfolding try_send
  try_send_cases request send (ok, next) fresh prepared begun waits = inr (record {
    request = request;
    next = next;
    status = send request;
    fresh = fresh;
    prepared = prepared;
    once = refl;
    begun = begun;
    waits = waits refl;
    after = refl;
  })
  try_send_cases request send (err_invalid, next) fresh prepared begun waits = inl (refl, refl)
  try_send_cases request send (err_io, next) fresh prepared begun waits = inl (refl, refl)

  begin_send_cases :
      (sender : Option (AccessRequest → Status)) (prepared : Option AccessRequest)
      → generation ≢ c.attempted_generation
      → prepare_direct s generation local c.material ≡ prepared
      → Outcome (begin_send c s generation local now_ms sender prepared)
  unfolding begin_send
  begin_send_cases none prepared fresh e = inl (refl, refl)
  begin_send_cases (some send) none fresh e = inl (refl, refl)
  begin_send_cases (some send) (some request) fresh e =
      elim (Bool-cases (is_ok (result_tick c.result s local now_ms).0)) [
        | inl t ↦ rw t (
            try_send_cases request send _ fresh e
              (ticked_then_begun c.result s generation local now_ms)
              (result_begin_waits (result_tick c.result s local now_ms).1 s generation local now_ms
                1000))
        | inr t ↦ rw t (inl (refl, refl))
      ]

  -- A submission changes nothing and sends nothing, or it reaches the sender.
  pub control_submit_cases : Outcome (control_submit c s generation local now_ms)
  unfolding control_submit
  control_submit_cases = elim (Bool-cases (c.configured)) [
    | inr no_material ↦ simp no_material (inl (refl, refl))
    | inl set ↦ simp set (elim (Bool-cases (generation == c.attempted_generation)) [
      | inl again ↦ rw again (inl (refl, refl))
      | inr fresh ↦ rw fresh (
          begin_send_cases c.send (prepare_direct s generation local c.material) (ground arith)
            refl)
    ])
  ]

access_step-IsSound :
    (c : AccessControl) (call : AccessCall)
    → IsSound c.result
    → IsSound (access_step c call).0.result
unfolding access_step
access_step-IsSound c (submit s generation local now_ms) v =
    elim (control_submit_cases c s generation local now_ms) [
      | inl (e, _) ↦ rw e v
      | inr t ↦ rw t.after (after_send-IsSound c generation t.next t.status (t.begun v))
    ]
access_step-IsSound c (observe s local f now_ms) v =
    result_observe-IsSound c.result s local f now_ms v
access_step-IsSound c (tick s local now_ms) v = result_tick-IsSound c.result s local now_ms v

access_run-IsSound :
    (c : AccessControl) (calls : List AccessCall)
    → IsSound c.result
    → IsSound (access_run c calls).0.result
unfolding access_run
access_run-IsSound c [] v = v
access_run-IsSound c (call ∷ calls) v =
    access_run-IsSound (access_step c call).0 calls (access_step-IsSound c call v)

init-IsSound :
    (text : Option Bytes) (now_ms : ℕ) (send : Option (AccessRequest → Status))
    → IsSound (control_init text now_ms send).1.result
unfolding control_init
init-IsSound none now_ms send = ground arith
init-IsSound (some []) now_ms send = ground arith
init-IsSound (some (c ∷ text)) now_ms send = ground arith

-- Whatever the calls after the control is set up, no unlock is ever reported as physically confirmed,
-- a result that waits has a deadline that is yet to come and fits 64 bits, no other result has one,
-- and a completed one holds the status byte 1.
pub access_run-init-IsSound :
    (text : Option Bytes) (now_ms : ℕ) (send : Option (AccessRequest → Status))
    (calls : List AccessCall)
    → IsSound (access_run (control_init text now_ms send).1 calls).0.result
access_run-init-IsSound text now_ms send calls =
    access_run-IsSound (control_init text now_ms send).1 calls (init-IsSound text now_ms send)
