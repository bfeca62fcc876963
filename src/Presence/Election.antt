-- ===== src/Presence/Election.antt =====
-- src/gvs_presence.c: which of two units keeps the shared state.
use Prim.Native.Nat.{max}
use doorfast.Prelude.{
  ℕ, ◌<◌, ◌≡◌, Bool, true, false, ◌&&◌, ◌||◌, not, ltb, ltb_ℤ, signed_byte, ◌==◌, arith,
  if◌then◌else◌, ok, Address, addr_eq,
}
use doorfast.Presence.{Presence}
use doorfast.Presence.Receive.{period, SyncAdvice, is_sibling, accept_sync_data, observe_sync_data}

observe_sync_data_inv :
    (p : Presence) (source : Address) (version now_ms : ℕ) {q : Presence} {a : SyncAdvice}
    → observe_sync_data p source period version now_ms ≡ (ok, q, a)
    → (is_sibling source p.identity ≡ true)
      × (accept_sync_data p source period version now_ms ≡ (q, a))
unfolding observe_sync_data
observe_sync_data_inv p source version now_ms h = ground arith

-- Two units of an apartment differ in their last byte.
sibling_bytes : (a b : Address) → is_sibling a b ≡ true → (a.b5 == b.b5) ≡ false
unfolding addr_eq
sibling_bytes a b h = ground arith

-- Whether a unit stands before another: the higher version, and for equal versions the lower signed
-- last byte.
abbrev pub precedes : Presence → Presence → Bool
precedes p q =
    ltb q.sync_version p.sync_version
    || (p.sync_version == q.sync_version
        && ltb_ℤ (signed_byte p.identity.b5) (signed_byte q.identity.b5))

-- What became of a maintainer that has heard the other.
record HasDecided (p p' : Presence) (other : Presence) (a : SyncAdvice) (wins : Bool) : Type 0 where
  stays : p'.sync_maintainer ≡ wins
  resends : a.resend_local ≡ wins
  applies : a.apply_values ≡ not wins
  version : p'.sync_version ≡ (if wins then p.sync_version else other.sync_version)

signed_order :
    (x y : ℕ)
    → x < 256
    → y < 256
    → (x == y) ≡ false
    → ltb_ℤ (signed_byte y) (signed_byte x) ≡ not (ltb_ℤ (signed_byte x) (signed_byte y))
signed_order x y p q ne = ground arith

accept_sync_data-HasDecided :
    (p other : Presence) (now_ms : ℕ) {p' : Presence} {a : SyncAdvice}
    → p.sync_maintainer ≡ true
    → ltb_ℤ (signed_byte other.identity.b5) (signed_byte p.identity.b5)
      ≡ not (ltb_ℤ (signed_byte p.identity.b5) (signed_byte other.identity.b5))
    → accept_sync_data p other.identity period other.sync_version now_ms ≡ (p', a)
    → HasDecided p p' other a (precedes p other)
unfolding accept_sync_data
accept_sync_data-HasDecided p other now_ms m order h = ground arith

precedes_opposite :
    (p q : Presence)
    → ltb_ℤ (signed_byte q.identity.b5) (signed_byte p.identity.b5)
      ≡ not (ltb_ℤ (signed_byte p.identity.b5) (signed_byte q.identity.b5))
    → precedes q p ≡ not (precedes p q)
precedes_opposite p q order = ground arith

-- The one that stands before the other has the higher version.
precedes_version :
    (p q : Presence)
    → (if precedes p q then p.sync_version else q.sync_version) ≡ max p.sync_version q.sync_version
precedes_version p q = ground arith

outcome :
    (wins : Bool) {p q p' q' : Presence} {a b : SyncAdvice}
    → HasDecided p p' q a wins
    → HasDecided q q' p b (not wins)
    → (if wins then p.sync_version else q.sync_version) ≡ max p.sync_version q.sync_version
    → (p'.sync_maintainer ≡ wins)
      × (q'.sync_maintainer ≡ not wins)
      × (p'.sync_version ≡ max p.sync_version q.sync_version)
      × (q'.sync_version ≡ max p.sync_version q.sync_version)
      × (a ≡ record { apply_values = not wins; resend_local = wins })
      × (b ≡ record { apply_values = wins; resend_local = not wins })
outcome true d d' le =
    ground (
      arith, d.stays, d.resends, d.applies, d.version, d'.stays, d'.resends, d'.applies, d'.version,
    )
outcome false d d' le =
    ground (
      arith, d.stays, d.resends, d.applies, d.version, d'.stays, d'.resends, d'.applies, d'.version,
    )

-- Two maintainers of an apartment that have each heard the other's periodic data agree. Exactly one of
-- them stays the maintainer: the one with the higher version, or with the same version and the lower
-- signed last byte. Both have the higher version afterwards; the winner is told to send its values again
-- and the other to apply what it heard.
pub election :
    (p q : Presence) (now_ms later_ms : ℕ) {p' q' : Presence} {a b : SyncAdvice}
    → p.identity.b5 < 256
    → q.identity.b5 < 256
    → p.sync_maintainer ≡ true
    → q.sync_maintainer ≡ true
    → observe_sync_data p q.identity period q.sync_version now_ms ≡ (ok, p', a)
    → observe_sync_data q p.identity period p.sync_version later_ms ≡ (ok, q', b)
    → (p'.sync_maintainer ≡ precedes p q)
      × (q'.sync_maintainer ≡ not (precedes p q))
      × (p'.sync_version ≡ max p.sync_version q.sync_version)
      × (q'.sync_version ≡ max p.sync_version q.sync_version)
      × (a ≡ record { apply_values = not (precedes p q); resend_local = precedes p q })
      × (b ≡ record { apply_values = precedes p q; resend_local = not (precedes p q) })
election p q now_ms later_ms small small' m m' heard heard' =
    let (s, h) = observe_sync_data_inv p q.identity q.sync_version now_ms heard in
    let (s', h') = observe_sync_data_inv q p.identity p.sync_version later_ms heard' in
    let ne = sibling_bytes q.identity p.identity s in
    let order = signed_order p.identity.b5 q.identity.b5 small small' (ground arith) in
    let d = accept_sync_data-HasDecided p q now_ms m order h in
    let d' =
      accept_sync_data-HasDecided q p later_ms m'
        (signed_order q.identity.b5 p.identity.b5 small' small ne) h' in
    outcome (precedes p q) d (rw (precedes_opposite p q order) at d') (precedes_version p q)
