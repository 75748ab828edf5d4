-- ===== src/Examples/Publishing.antt =====
-- Runs of `convert_to_gtfsrt`.
use kirin.Prelude.{◌*◌, pos, negsuc, ◌*ℤ◌, some, List, [], ◌∷◌, ok, ◌≡◌, ◌↔◌, All}
use kirin.Model.{second, StopTimeUpdate}
use kirin.Feed.{convert_to_gtfsrt, PbTripUpdate}
use kirin.Feed.Totality.{AllDescribe, IsPublishable, convert_to_gtfsrt_iff}
use kirin.Examples.{stop_point_a, late, late_trip, delayed_stop}

-- A minute early.
abbrev early_stop : StopTimeUpdate
early_stop = record (delayed_stop stop_point_a 0 (negsuc 59 *ℤ second)) {
  arrival = some (pos (19000 * 86400) *ℤ second);
}

convert_to_gtfsrt_iff_example :
    ((feed : List PbTripUpdate) × (convert_to_gtfsrt (late ∷ late_trip ∷ []) ≡ ok feed)
      × AllDescribe (late ∷ late_trip ∷ []) feed)
    ↔ All IsPublishable (late ∷ late_trip ∷ [])
convert_to_gtfsrt_iff_example = convert_to_gtfsrt_iff (late ∷ late_trip ∷ [])
