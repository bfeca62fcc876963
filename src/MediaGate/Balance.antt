-- ===== src/MediaGate/Balance.antt =====
-- src/gvs_media_lifecycle.c and src/gvs_media_admission.c: media that begin also end, and what is admitted
-- in between.
use doorfast.Prelude.{
  ℕ, ◌≡◌, refl, sym, ◌∙◌, ◌↔◌, true, false, Option, none, some, List, [], ◌∷◌, arith, ◌==◌,
  if◌then◌else◌, Bool-cases, inl, inr, Address, addr_eq, addr_eq_sound, addr_eq_complete,
}
use doorfast.Session.{Session}
use doorfast.MediaGate.{
  accepted, has_media, media_admit, Lifecycle, lifecycle_init, LifecycleResult, lifecycle_sync,
}

-- What a caller is told: media of a generation begin or end.
pub data MediaEvent : Type 0 where
  begins ends : ℕ → MediaEvent

-- The lifecycle after a list of sessions, the latest first
abbrev pub synced : List Session → Lifecycle
synced [] = lifecycle_init
synced (s ∷ ss) = (lifecycle_sync (synced ss) s).0

abbrev pub and_begins : LifecycleResult → List MediaEvent → List MediaEvent
and_begins r log = if r.started then begins r.generation ∷ log else log

abbrev pub and_ends : LifecycleResult → ℕ → List MediaEvent → List MediaEvent
and_ends r generation log = if r.ended then ends generation ∷ log else log

-- What is told by then, the latest first
abbrev pub told : List Session → List MediaEvent
told [] = []
told (s ∷ ss) =
    let r = (lifecycle_sync (synced ss) s).1 in
    and_begins r (and_ends r (synced ss).generation (told ss))

-- What is open after a log: `none` if it begins what is open or ends what is not.
abbrev open_after : MediaEvent → Option (Option ℕ) → Option (Option ℕ)
open_after e none = none
open_after (begins g) (some none) = some (some g)
open_after (begins g) (some (some h)) = none
open_after (ends g) (some none) = none
open_after (ends g) (some (some h)) = if g == h then some none else none

abbrev pub open_of : List MediaEvent → Option (Option ℕ)
open_of [] = some none
open_of (e ∷ log) = open_after e (open_of log)

abbrev pub current : Lifecycle → Option ℕ
current l = if l.active then some l.generation else none

open_current : (l : Lifecycle) → l.active ≡ true → some (current l) ≡ some (some l.generation)
open_current l e = rw e refl

open_nothing : (l : Lifecycle) → l.active ≡ false → some (current l) ≡ some none
open_nothing l e = rw e refl

sync-open_of :
    (l : Lifecycle) (s : Session) (log : List MediaEvent)
    → open_of log ≡ some (current l)
    → let (next, r) = lifecycle_sync l s in
      open_of (and_begins r (and_ends r l.generation log)) ≡ some (current next)
unfolding lifecycle_sync
sync-open_of l s log h = elim (Bool-cases l.active) [
  | inl was ↦
      let held : open_of log ≡ some (some l.generation) = h ∙ open_current l was in
      let itself : (l.generation == l.generation) ≡ true = ground arith in
      elim (Bool-cases (has_media s)) [
        | inr off ↦ rw (was, off, held, itself) refl
        | inl on ↦ elim (Bool-cases (l.generation == s.generation)) [
          | inr other ↦ rw (was, on, other, held, itself) refl
          | inl same ↦
              let number : l.generation ≡ s.generation = ground arith in
              rw (was, on, same, held, number) refl
        ]
      ]
  | inr rested ↦
      let free : open_of log ≡ some none = h ∙ open_nothing l rested in
      elim (Bool-cases (has_media s)) [
        | inl on ↦ rw (rested, on, free) refl
        | inr off ↦ rw (rested, off, free) refl
      ]
]

-- Whatever sessions a lifecycle is synced with, what it tells is in pairs: media begin only when none are
-- open, end only under the number they began with, and what is open is what the lifecycle holds.
told-open_of : (ss : List Session) → open_of (told ss) ≡ some (current (synced ss))
told-open_of [] = refl
told-open_of (s ∷ ss) = sync-open_of (synced ss) s (told ss) (told-open_of ss)

open_synced :
    (l : Lifecycle) (s : Session)
    → has_media s ≡ true
    → some (current (lifecycle_sync l s).0) ≡ some (some s.generation)
unfolding lifecycle_sync
open_synced l s on = rw on refl

synced_open :
    (l : Lifecycle) (s : Session)
    → some (current (lifecycle_sync l s).0) ≡ some (some s.generation)
    → has_media s ≡ true
unfolding lifecycle_sync
synced_open l s h = elim (Bool-cases (has_media s)) [
  | inl on ↦ on
  | inr off ↦ absurd (ground (arith, rw off at h))
]

-- A media packet is accepted exactly if it goes to the unit, comes from the station of the session, and
-- by what the lifecycle has told, after any sessions and then this one, media of its number are open: all
-- that began before have ended.
pub media_admit_iff :
    (ss : List Session) (s : Session) (identity destination source : Address)
    → (media_admit s identity destination source ≡ accepted) ↔ (
        (open_of (told (s ∷ ss)) ≡ some (some s.generation))
        × (destination ≡ identity)
        × (source ≡ s.peer))
unfolding media_admit
media_admit_iff ss s identity destination source = (
  λ h.
      let on : has_media s ≡ true = ground (arith, h) in
      let to_unit : addr_eq destination identity ≡ true = ground (arith, h) in
      let from_peer : addr_eq source s.peer ≡ true = ground (arith, h) in
      (
        told-open_of (s ∷ ss) ∙ open_synced (synced ss) s on,
        addr_eq_sound destination identity to_unit,
        addr_eq_sound source s.peer from_peer,
      ),
  λ (opened, to_unit, from_peer).
      let on = synced_open (synced ss) s (sym (told-open_of (s ∷ ss)) ∙ opened) in
      let to = addr_eq_complete destination identity to_unit in
      let from = addr_eq_complete source s.peer from_peer in ground arith,
)
