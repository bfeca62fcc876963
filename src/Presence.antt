-- ===== src/Presence.antt =====
-- src/gvs_presence.c and src/gvs_presence.h: which units of the apartment are there, and who keeps the
-- shared state. The emit callback is a function of the actions that it was given before and of the
-- action: `true` is DF_OK. The trace is the list of the actions handed to it, in order. An operation
-- returns its status, the state that it leaves and the trace.
pub mod Receive
pub mod Timers
pub mod Loop
pub mod Split
pub mod Endless
pub mod Invariant
pub mod Reach
pub mod Peers
pub mod Schedule
pub mod Election
pub mod Exchange
mod Tests
use mathlib.Core.Option
use doorfast.Prelude.{
  ℕ, zero, suc, ◌+◌, ◌-◌, ◌%◌, Bool, true, false, ◌||◌, Option, none, some, List, [], ◌∷◌, ◌++◌,
  map, ltb, leb, ◌==◌, if◌then◌else◌, Status, ok, err_invalid, err_io, u64_max, u64, Address,
  zero_address,
}
use doorfast.Identity.{indoor_peers}
use doorfast.Frame.Serialize.{
  PresenceAction, PresenceActionType, peer_probe, peer_offline, sync_ask, sync_version_ask,
  periodic_sync,
}

-- `enum df_gvs_presence_phase`
pub data PresencePhase : Type 0 where
  down wait_sync asking choosing periodic : PresencePhase

-- `struct df_gvs_presence_peer`
pub record PresencePeer : Type 0 where
  pub address : Address
  pub online : Bool
  pub seconds_remaining : ℕ

-- `struct df_gvs_presence`
pub record Presence : Type 0 where
  pub phase : PresencePhase
  pub identity : Address
  pub peers : List PresencePeer
  pub sync_maintainer : Bool
  pub sync_version : ℕ
  pub sync_round : ℕ
  pub periodic_misses : ℕ
  pub last_now_ms : ℕ
  pub next_peer_tick_ms : ℕ
  pub next_phase_ms : ℕ

abbrev pub peer_initial_seconds : ℕ
peer_initial_seconds = 61

abbrev pub peer_reset_seconds : ℕ
peer_reset_seconds = 60

abbrev pub peer_probe_seconds : ℕ
peer_probe_seconds = 30

abbrev pub sync_start_delay_ms : ℕ
sync_start_delay_ms = 3000

abbrev pub sync_ask_interval_ms : ℕ
sync_ask_interval_ms = 500

abbrev pub sync_choose_interval_ms : ℕ
sync_choose_interval_ms = 1000

abbrev pub periodic_sync_interval_ms : ℕ
periodic_sync_interval_ms = 60000

abbrev pub sync_rounds : ℕ
sync_rounds = 3

abbrev pub Trace : Type 0
Trace = List PresenceAction

-- `df_gvs_presence_emit_fn` with its context
abbrev pub Emit : Type 0
Emit = Trace → PresenceAction → Bool

-- Code that emits: `none` is a call that has failed with DF_ERR_IO.
abbrev pub Emits : Type 0 → Type 0
Emits A = Emit → Trace → Option A × Trace

abbrev pub pure : {A : Type 0} → A → Emits A
pure a emit t = (some a, t)

abbrev pub refused : {A : Type 0} → Emits A
refused emit t = (none, t)

infixl 5 ◌>>=◌ ◌>>◌
abbrev pub ◌>>=◌ : {A B : Type 0} → Emits A → (A → Emits B) → Emits B
◌>>=◌ m f emit t = let (r, u) = m emit t in elim r [ none ↦ (none, u) | some a ↦ f a emit u ]

abbrev pub ◌>>◌ : {B : Type 0} → Emits (Unit {0}) → Emits B → Emits B
m >> k = m >>= λ _. k

-- `df_gvs_presence_emit`
unfoldable pub presence_emit : PresenceActionType → Address → ℕ → Emits (Unit {0})
presence_emit kind target round emit t =
    let action : PresenceAction = record { kind = kind; target = target; round = round } in
    (if emit t action then some tt else none, t ++ action ∷ [])

abbrev pub emit_if : Bool → Emits (Unit {0}) → Emits (Unit {0})
emit_if true m = m
emit_if false m = pure tt

-- `df_gvs_presence_emit_indoor`
unfoldable pub emit_indoor : PresenceActionType → ℕ → List PresencePeer → Emits (Unit {0})
unfolding presence_emit
emit_indoor kind round [] = pure tt
emit_indoor kind round (p ∷ ps) = do
  emit_if (p.address.b0 == 0x61) (presence_emit kind p.address round)
  emit_indoor kind round ps

-- A second of a peer, and the action that it calls for.
unfoldable pub aged : PresencePeer → PresencePeer
aged p =
    if p.seconds_remaining - 1 == 0
    then record p { online = false; seconds_remaining = peer_reset_seconds }
    else record p { seconds_remaining = p.seconds_remaining - 1 }

unfoldable pub notify : PresencePeer → Emits (Unit {0})
unfolding presence_emit
notify p =
    if p.seconds_remaining - 1 == 0
    then presence_emit peer_offline p.address 0
    else emit_if ((p.seconds_remaining - 1) % peer_probe_seconds == 0)
        (presence_emit peer_probe p.address 0)

-- `df_gvs_presence_peer_tick`
unfoldable pub peer_tick : List PresencePeer → Emits (List PresencePeer)
unfolding aged notify
peer_tick [] = pure []
peer_tick (p ∷ ps) = do notify p; rest ← peer_tick ps; pure (aged p ∷ rest)

unfoldable pub announce : Presence → PresenceActionType → ℕ → Emits Presence
unfolding emit_indoor
announce p kind round = do emit_indoor kind round p.peers; pure p

abbrev pub after : Presence → ℕ → Presence
after p interval_ms = record p { next_phase_ms = u64 (p.next_phase_ms + interval_ms) }

unfoldable pub phase_tick_at : PresencePhase → Presence → Emits Presence
unfolding announce
phase_tick_at down p = refused
phase_tick_at wait_sync p =
    announce (record (after p sync_ask_interval_ms) { phase = asking; sync_round = 1 }) sync_ask 1
phase_tick_at asking p =
    if ltb p.sync_round sync_rounds
    then announce (record (after p sync_ask_interval_ms) { sync_round = p.sync_round + 1 }) sync_ask
        (p.sync_round + 1)
    else announce
        (record (after p sync_choose_interval_ms) {
          phase = choosing;
          sync_maintainer = true;
          sync_round = 1;
        })
        sync_version_ask 1
phase_tick_at choosing p =
    if ltb p.sync_round sync_rounds
    then announce (record (after p sync_choose_interval_ms) { sync_round = p.sync_round + 1 })
        sync_version_ask (p.sync_round + 1)
    else pure (record (after p periodic_sync_interval_ms) { phase = periodic; sync_round = 0 })
phase_tick_at periodic p =
    let q : Presence = after p periodic_sync_interval_ms in
    if p.sync_maintainer
    then announce (record q { periodic_misses = 0 }) periodic_sync 0
    else if ltb (p.periodic_misses + 1) 2
    then pure (record q { periodic_misses = p.periodic_misses + 1 })
    else announce (record q { periodic_misses = 0; sync_maintainer = true }) periodic_sync 0

-- `df_gvs_presence_phase_tick`
unfoldable pub phase_tick : Presence → Emits Presence
unfolding phase_tick_at
phase_tick p = phase_tick_at p.phase p

abbrev pub initial_peer : Address → PresencePeer
initial_peer address = record {
  address = address;
  online = false;
  seconds_remaining = peer_initial_seconds;
}

abbrev pub no_presence : Presence
no_presence = record {
  phase = down;
  identity = zero_address;
  peers = [];
  sync_maintainer = false;
  sync_version = 0;
  sync_round = 0;
  periodic_misses = 0;
  last_now_ms = 0;
  next_peer_tick_ms = 0;
  next_phase_ms = 0;
}

abbrev pub started : Address → List Address → ℕ → Presence
started identity addresses now_ms = record no_presence {
  phase = wait_sync;
  identity = identity;
  peers = map initial_peer addresses;
  last_now_ms = now_ms;
  next_peer_tick_ms = now_ms + 1000;
  next_phase_ms = now_ms + sync_start_delay_ms;
}

unfoldable pub start_with : Presence → Address → ℕ → Option (List Address) → Status × Presence
start_with p identity now_ms none = (err_invalid, p)
start_with p identity now_ms (some addresses) =
    if ltb (u64_max - periodic_sync_interval_ms) now_ms
    then (err_invalid, p)
    else (ok, started identity addresses now_ms)

-- `df_gvs_presence_start`
unfoldable pub presence_start : Presence → Address → ℕ → Status × Presence
unfolding start_with
presence_start p identity now_ms = start_with p identity now_ms (indoor_peers identity)

-- `df_gvs_presence_stop`
unfoldable pub presence_stop : Presence → Presence
presence_stop p = no_presence

-- The body of the loop: the earlier of the two timers, the peers' first on a tie.
unfoldable pub timer_step : Presence → Emits Presence
timer_step p =
    if leb p.next_peer_tick_ms p.next_phase_ms
    then (do
      peers ← peer_tick p.peers
      pure (record p { peers = peers; next_peer_tick_ms = u64 (p.next_peer_tick_ms + 1000) }))
    else phase_tick p

abbrev pub is_due : Presence → ℕ → Bool
is_due p now_ms = leb p.next_peer_tick_ms now_ms || leb p.next_phase_ms now_ms

-- The loop, on fuel: `none` means that the fuel ran out.
unfoldable pub tick_loop : Emit → ℕ → ℕ → Presence → Trace → Option (Status × Presence × Trace)
tick_loop emit zero now_ms p t = none
tick_loop emit (suc fuel) now_ms p t = elim (is_due p now_ms) [
  | false ↦ some (ok, record p { last_now_ms = now_ms }, t)
  | true ↦
      let (r, u) = timer_step p emit t in
      elim r [ none ↦ some (err_io, p, u) | some q ↦ tick_loop emit fuel now_ms q u ]
]

-- More than the milliseconds that the two timers are behind.
abbrev pub tick_fuel : Presence → ℕ → ℕ
tick_fuel p now_ms = suc ((suc now_ms - p.next_peer_tick_ms) + (suc now_ms - p.next_phase_ms))

abbrev pub is_down : PresencePhase → Bool
is_down down = true
is_down wait_sync = false
is_down asking = false
is_down choosing = false
is_down periodic = false

-- `df_gvs_presence_tick`
unfoldable pub presence_tick :
    Option Emit → Presence → ℕ → Trace → Option (Status × Presence × Trace)
presence_tick none p now_ms t = some (err_invalid, p, t)
presence_tick (some emit) p now_ms t =
    if is_down p.phase || ltb now_ms p.last_now_ms
    then some (err_invalid, p, t)
    else tick_loop emit (tick_fuel p now_ms) now_ms p t

-- `df_gvs_presence_set_sync_maintainer`
unfoldable pub set_sync_maintainer : Presence → Bool → Presence
set_sync_maintainer p maintainer =
    if is_down p.phase then p else record p { sync_maintainer = maintainer; periodic_misses = 0 }
