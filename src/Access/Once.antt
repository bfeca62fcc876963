-- ===== src/Access/Once.antt =====
-- src/gvs_access.c: one unlock attempt per call, whatever becomes of it.
use doorfast.Prelude.{
  ℕ, ◌≤◌, ◌<◌, ◌≡◌, sym, ap, ◌∙◌, inl, inr, List, [], ◌∷◌, some, arith, Status, Address, Block,
}
use mathlib.Core.Path.{subst}
use doorfast.Session.{Session}
use doorfast.Access.{AccessRequest, AccessResult, prepare_direct}
use doorfast.Access.Control.{AccessControl, after_send, control_submit}
use doorfast.Access.Result.{
  AccessCall, submit, observe, tick, access_step, access_run, control_submit_cases,
}

-- The session's generation, from `g` on, never falls from one submission to the next.
abbrev pub Ordered : ℕ → List AccessCall → Type 0
Ordered g [] = Unit {0}
Ordered g (submit s generation local now_ms ∷ calls) =
    (g ≤ s.generation) × Ordered s.generation calls
Ordered g (observe s local f now_ms ∷ calls) = Ordered g calls
Ordered g (tick s local now_ms ∷ calls) = Ordered g calls

-- The generations of the requests rise strictly, from above `g`.
abbrev pub Rising : ℕ → List AccessRequest → Type 0
Rising g [] = Unit {0}
Rising g (r ∷ rs) = (g < r.session_generation) × Rising r.session_generation rs

prepare_direct_generation :
    (s : Session) (generation : ℕ) (local : Address) (material : Block) {r : AccessRequest}
    → prepare_direct s generation local material ≡ some r
    → (r.session_generation ≡ generation) × (s.generation ≡ generation)
unfolding prepare_direct
prepare_direct_generation s generation local material h = ground arith

attempted-after_send :
    (c : AccessControl) (generation : ℕ) (next : AccessResult) (status : Status)
    → (after_send c generation next status).attempted_generation ≡ generation
unfolding after_send
attempted-after_send c generation next status = ground arith

-- Where the generation of the session never falls, the sender gets requests of strictly rising
-- generations above the last one attempted: a call is never sent a second unlock, also not after a
-- failed or rejected one.
pub access_run-Rising :
    (c : AccessControl) (g : ℕ) (calls : List AccessCall)
    → c.attempted_generation ≤ g
    → Ordered g calls
    → Rising c.attempted_generation (access_run c calls).1
unfolding access_run access_step
access_run-Rising c g [] a o = tt
access_run-Rising c g (submit s generation local now_ms ∷ calls) a o =
    let d = (control_submit c s generation local now_ms).1 in
    elim (control_submit_cases c s generation local now_ms) [
      | inl (kept, none_sent) ↦
          rw (none_sent, kept) (access_run-Rising c s.generation calls (omega arith) o.1)
      | inr t ↦
          let (rg, sg) = prepare_direct_generation s generation local c.material t.prepared in
          let at : d.attempted_generation ≡ generation =
            ap (λ (d : AccessControl). d.attempted_generation) t.after
            ∙ attempted-after_send c generation t.next t.status in
          let later = access_run-Rising d s.generation calls (omega arith) o.1 in
          rw t.once (omega arith, subst (λ k. Rising k (access_run d calls).1) (at ∙ sym rg) later)
    ]
access_run-Rising c g (observe s local f now_ms ∷ calls) a o = access_run-Rising _ g calls a o
access_run-Rising c g (tick s local now_ms ∷ calls) a o = access_run-Rising _ g calls a o
