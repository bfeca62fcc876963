-- ===== src/Presence/Tests.antt =====
-- Runs of src/gvs_presence.c for two units of one apartment.
use doorfast.Prelude.{
  ℕ, ◌+◌, ◌<◌, ◌≡◌, refl, ◌⊎◌, true, false, not, Option, none, some, List, [], ◌∷◌, map, ltb, arith,
  Status, ok, err_invalid, err_io, u64_max, Bytes, Address, addr_eq, five_eq, zero_block,
}
use doorfast.Identity.{indoor_peers}
use doorfast.Frame.Serialize.{
  peer_online, frame_bytes, presence_action_serialize, peer_reply_serialize, control_serialize,
  request_of,
}
use doorfast.Presence.{
  periodic, PresencePeer, Presence, Trace, Emit, no_presence, started, presence_start,
  presence_tick, tick_loop, timer_step, phase_tick, peer_tick, presence_emit,
}
use doorfast.Presence.Receive.{
  refresh_peer, observe_peer, receive_peer, receive_peer_request, period, SyncAdvice,
  observe_sync_data,
}
use doorfast.Presence.Loop.{presence_tick_ends}
use doorfast.Presence.Split.{Alike, presence_tick_split}
use doorfast.Presence.Endless.{tick_loop_endless}
use doorfast.Presence.Invariant.{IsValid}
use doorfast.Presence.Reach.{PresenceReach, zeroed, further, start, tick, PresenceReach-IsValid}
use doorfast.Presence.Peers.{find_peer, silent_peer}
use doorfast.Presence.Schedule.{scheduled_phase, scheduled_round, presence_schedule}
use doorfast.Presence.Election.{precedes, election}
use doorfast.Presence.Exchange.{Lists, probe_to, echo_to, told, probe_exchange}
use doorfast.Fixtures.{zero_fields}

abbrev unit_one : Address
unit_one = record { b0 = 0x61; b1 = 1; b2 = 2; b3 = 0x12; b4 = 1; b5 = 1 }

abbrev unit_two : Address
unit_two = record unit_one { b5 = 2 }

abbrev outdoor : ℕ → Address
outdoor machine = record unit_one { b0 = 0x62; b5 = machine }

abbrev peers_of_one : List Address
peers_of_one =
    unit_two ∷ record unit_one { b5 = 3 } ∷ record unit_one { b5 = 4 } ∷ outdoor 1 ∷ outdoor 2 ∷ []

abbrev peers_of_two : List Address
peers_of_two =
    unit_one ∷ record unit_one { b5 = 3 } ∷ record unit_one { b5 = 4 } ∷ outdoor 1 ∷ outdoor 2 ∷ []

-- The first unit, started at a second, and the second one.
abbrev one : Presence
one = started unit_one peers_of_one 1000

abbrev two : Presence
two = started unit_two peers_of_two 1000

start_one : presence_start no_presence unit_one 1000 ≡ (ok, one)
unfolding presence_start indoor_peers
start_one = refl

abbrev accepts : Emit
accepts t a = true

abbrev left : Option (Status × Presence × Trace) → Status × Presence × Trace
left none = (err_invalid, no_presence, [])
left (some e) = e

-- What ticks of the first unit leave.
abbrev at : ℕ → Status × Presence × Trace
at now_ms = left (presence_tick (some accepts) one now_ms [])

tick_once :
    presence_tick (some accepts) one 2000 [] ≡ some (ok, (at 2000).1, map probe_to peers_of_one)
unfolding presence_tick tick_loop timer_step peer_tick
tick_once = refl

presence_tick_ends_example :
    (status : Status) × (q : Presence) × (u : Trace) × (presence_tick (some accepts) one 2000 []
      ≡ some (status, q, u))
    × (((status ≡ err_invalid) × (q ≡ one) × (u ≡ []))
        ⊎ ((status ≡ err_io)
            ⊎ ((status ≡ ok)
                × (2000 < q.next_peer_tick_ms)
                × (2000 < q.next_phase_ms)
                × (q.last_now_ms ≡ 2000))))
presence_tick_ends_example = presence_tick_ends accepts one 2000 [] (omega arith)

tick_loop_endless_example : tick_loop accepts 9 u64_max one [] ≡ none
tick_loop_endless_example = tick_loop_endless accepts (λ t a. refl) 9 one [] refl (omega arith)

presence_tick_split_example :
    (e e' : Status × Presence × Trace) × (presence_tick
        (some accepts)
        (at 2000).1
        5500
        (map probe_to peers_of_one)
      ≡ some e)
    × (presence_tick (some accepts) one 5500 [] ≡ some e')
    × Alike e e'
presence_tick_split_example =
    presence_tick_split accepts one 2000 5500 [] (omega arith) (omega arith) tick_once

reach_one : PresenceReach (at 2000).1
unfolding presence_start presence_tick tick_loop timer_step peer_tick indoor_peers
reach_one =
    further (further zeroed (start unit_one 1000))
      (tick (some accepts) 2000 [] {status = ok} {u = map probe_to peers_of_one} refl)

PresenceReach-IsValid_example : IsValid (at 2000).1
PresenceReach-IsValid_example = PresenceReach-IsValid reach_one

-- The second unit is seen, and nothing more is heard for a minute.
abbrev told_two : Trace
told_two = record { kind = peer_online; target = unit_two; round = 0 } ∷ []

abbrev seen_two : Presence
seen_two = (observe_peer (some accepts) one unit_two []).1

observe_two : observe_peer (some accepts) one unit_two [] ≡ (ok, seen_two, told_two)
unfolding observe_peer presence_emit addr_eq
observe_two = refl

abbrev later : ℕ → Status × Presence × Trace
later now_ms = left (presence_tick (some accepts) seen_two now_ms [])

minute_passes :
    presence_tick (some accepts) seen_two 61500 [] ≡ some (ok, (later 61500).1, (later 61500).2)
unfolding presence_tick tick_loop timer_step peer_tick phase_tick observe_peer presence_emit addr_eq
minute_passes = refl

silent_peer_example :
    (s : PresencePeer) × (find_peer unit_two (later 61500).1.peers ≡ some s)
    × (s.online ≡ ltb 61500 (seen_two.next_peer_tick_ms + 59000))
silent_peer_example =
    silent_peer accepts accepts one unit_two [] [] 61500 (omega arith) observe_two minute_passes

tick_to_choice : presence_tick (some accepts) one 7000 [] ≡ some (ok, (at 7000).1, (at 7000).2)
unfolding presence_tick tick_loop timer_step peer_tick phase_tick
tick_to_choice = refl

presence_schedule_example :
    ((at 7000).1.phase ≡ scheduled_phase 6000)
    × ((at 7000).1.sync_round ≡ scheduled_round 6000)
    × ((at 7000).1.sync_maintainer ≡ true)
presence_schedule_example =
    presence_schedule accepts no_presence unit_one 1000 7000 [] (omega arith) start_one
      tick_to_choice

-- Both units hold the fifth version.
abbrev keeper : Presence → Presence
keeper p = record p { phase = periodic; sync_maintainer = true; sync_version = 5 }

abbrev heard_by : Presence → Address → Status × Presence × SyncAdvice
heard_by p source = observe_sync_data p source period 5 9000

one_hears :
    observe_sync_data (keeper one) unit_two period 5 9000
    ≡ (ok, (heard_by (keeper one) unit_two).1, (heard_by (keeper one) unit_two).2)
unfolding observe_sync_data five_eq addr_eq
one_hears = refl

two_hears :
    observe_sync_data (keeper two) unit_one period 5 9000
    ≡ (ok, (heard_by (keeper two) unit_one).1, (heard_by (keeper two) unit_one).2)
unfolding observe_sync_data five_eq addr_eq
two_hears = refl

election_example :
    let p' = (heard_by (keeper one) unit_two).1 in
    let q' = (heard_by (keeper two) unit_one).1 in
    (p'.sync_maintainer ≡ precedes (keeper one) (keeper two))
    × (q'.sync_maintainer ≡ not (precedes (keeper one) (keeper two)))
    × (p'.sync_version ≡ 5)
    × (q'.sync_version ≡ 5)
    × ((heard_by (keeper one) unit_two).2 ≡ record { apply_values = false; resend_local = true })
    × ((heard_by (keeper two) unit_one).2 ≡ record { apply_values = true; resend_local = false })
election_example =
    election (keeper one) (keeper two) 9000 9000 (omega arith) (omega arith) refl refl one_hears
      two_hears

abbrev probe_bytes : Bytes
probe_bytes =
    frame_bytes (request_of unit_two unit_one 0x07 0x01 (0 ∷ 1 ∷ [])) (zero_block, zero_block)

abbrev answer_bytes : Bytes
answer_bytes =
    frame_bytes (request_of unit_one unit_two 0x07 0x81 (0 ∷ 1 ∷ 0 ∷ 0 ∷ 0 ∷ 0 ∷ []))
      (zero_block, zero_block)

-- The candidates behind the first one
abbrev others : List PresencePeer
others =
    map (λ a. record { address = a; online = false; seconds_remaining = 61 })
      (record unit_one { b5 = 3 } ∷ record unit_one { b5 = 4 } ∷ outdoor 1 ∷ outdoor 2 ∷ [])

abbrev one_lists : Lists unit_two one.peers
one_lists = record {
  before = [];
  entry = record { address = unit_two; online = false; seconds_remaining = 61 };
  behind = others;
  split = refl;
  first = tt;
  same = refl;
}

abbrev two_lists : Lists unit_one two.peers
two_lists = record {
  before = [];
  entry = record { address = unit_one; online = false; seconds_remaining = 61 };
  behind = others;
  split = refl;
  first = tt;
  same = refl;
}

probe_exchange_example :
    (receive_peer_request (some accepts) two probe_bytes 1500 [] ≡ (
      ok,
      record two {
        peers = record { address = unit_one; online = true; seconds_remaining = 60 } ∷ others;
        last_now_ms = 1500;
      },
      echo_to unit_one,
      true,
      told accepts unit_one [],
    ))
    × (receive_peer (some accepts) one answer_bytes 1600 [] ≡ (
      ok,
      record one {
        peers = record { address = unit_two; online = true; seconds_remaining = 60 } ∷ others;
        last_now_ms = 1600;
      },
      told accepts unit_two [],
    ))
unfolding presence_action_serialize peer_reply_serialize control_serialize presence_emit
    refresh_peer addr_eq five_eq
probe_exchange_example =
    probe_exchange one two accepts accepts [] [] 0 50 50 1500 1600 (some zero_fields)
      (some zero_fields) (refl, omega arith) (refl, omega arith) one_lists two_lists refl refl refl
      refl
