-- ===== src/MediaGate.antt =====
-- src/gvs_media_admission.c, src/gvs_media_lifecycle.c and their headers: which media packets belong to the
-- call, and when its media begin and end.
pub mod Balance
mod Tests
use doorfast.Prelude.{ℕ, Bool, true, false, ◌&&◌, ◌||◌, not, ◌==◌, if◌then◌else◌, Address, addr_eq}
use doorfast.Session.{Session, SessionState, is_active}

-- `enum df_gvs_media_admission`
pub data Admission : Type 0 where
  accepted inactive wrong_destination wrong_peer admission_error : Admission

-- `session_has_media`
abbrev pub has_media : Session → Bool
has_media s = not (s.generation == 0) && is_active s.state

-- `df_gvs_media_admit`
unfoldable pub media_admit : Session → Address → Address → Address → Admission
media_admit s identity destination source =
    if s.generation == 0 || not (is_active s.state)
    then inactive
    else if not (addr_eq destination identity)
    then wrong_destination
    else if not (addr_eq source s.peer)
    then wrong_peer
    else accepted

-- `struct df_gvs_media_lifecycle`
pub record Lifecycle : Type 0 where
  pub initialized : Bool
  pub active : Bool
  pub generation : ℕ

-- `df_gvs_media_lifecycle_init`
abbrev pub lifecycle_init : Lifecycle
lifecycle_init = record { initialized = false; active = false; generation = 0 }

-- `struct df_gvs_media_lifecycle_result`
pub record LifecycleResult : Type 0 where
  pub active : Bool
  pub started : Bool
  pub ended : Bool
  pub clear : Bool
  pub generation : ℕ

-- `df_gvs_media_lifecycle_sync`
unfoldable pub lifecycle_sync : Lifecycle → Session → Lifecycle × LifecycleResult
lifecycle_sync l s =
    let active = has_media s in
    let changed = l.active && (active && not (l.generation == s.generation)) in
    let generation : ℕ = if active then s.generation else 0 in
    let started = active && (not l.active || changed) in
    let ended = l.active && (not active || changed) in
    (
      record { initialized = true; active = active; generation = generation },
      record {
        active = active;
        started = started;
        ended = ended;
        clear = not l.initialized || (started || ended);
        generation = generation;
      },
    )
