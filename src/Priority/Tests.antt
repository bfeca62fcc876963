-- ===== src/Priority/Tests.antt =====
-- Priorities of callers, at fixed addresses.
use doorfast.Prelude.{◌≡◌, refl, some}
use doorfast.Priority.{call_category}
use doorfast.Fixtures.{station, unit}

station_category : call_category station unit ≡ some 0
unfolding call_category
station_category = refl
