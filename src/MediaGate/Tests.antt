-- ===== src/MediaGate/Tests.antt =====
-- Media of the seventh call, after an earlier one.
use doorfast.Prelude.{◌≡◌, ◌↔◌, some, [], ◌∷◌, List}
use doorfast.Fixtures.{station, unit, call_in}
use doorfast.Session.{Session, ringing, talking}
use doorfast.MediaGate.{accepted, media_admit, lifecycle_sync}
use doorfast.MediaGate.Balance.{begins, ends, open_of, media_admit_iff}

abbrev earlier : List Session
earlier = record (call_in talking) { generation = 6 } ∷ []

media_admit_iff_example : (media_admit (call_in ringing) unit unit station ≡ accepted) ↔ (
    (open_of (begins 7 ∷ ends 6 ∷ begins 6 ∷ []) ≡ some (some 7))
    × (unit ≡ unit)
    × (station ≡ station))
unfolding lifecycle_sync
media_admit_iff_example = media_admit_iff earlier (call_in ringing) unit unit station
