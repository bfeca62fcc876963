-- ===== src/LiftControl/Pace.antt =====
-- src/gvs_elevator_query.c: how often the status of the lift is asked for.
use doorfast.Prelude.{ℕ, ◌+◌, ◌*◌, ◌≤◌}
use doorfast.LiftControl.{LiftSender, LiftQuery, query_tick, uint_max}

-- The ticks of a query, with any senders, at any times; a refused one leaves the query as it is.
pub data QueryRun (q : LiftQuery) : LiftQuery → Type 0 where
  stay : QueryRun q q
  tick :
      (send : LiftSender) {p : LiftQuery} (now_ms : ℕ)
      → QueryRun q p
      → QueryRun q (query_tick send p now_ms).1

-- What a query started at `start_ms` keeps.
unfoldable pub KeepsPace : ℕ → LiftQuery → Type 0
KeepsPace start_ms q =
    (start_ms + 1000 * q.attempts ≤ q.next_query_ms)
    × (q.next_query_ms ≤ q.last_now_ms + 1000)
    × (q.attempts ≤ uint_max)
    × (q.successful_sends ≤ q.attempts)
    × (q.failed_sends ≤ q.attempts)
    × (q.attempts ≤ q.successful_sends + q.failed_sends)
