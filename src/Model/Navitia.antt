-- ===== src/Model/Navitia.antt =====
-- The parts of navitia's answers that kirin reads. A missing key and a null are both `none`, and a
-- stop point always has an id, as navitia documents.
use kirin.Prelude.{ℕ, String, Option, none, some, List, [], Bool, false, not, ◌==◌, string_eq}

-- One element of "codes".
pub record Code : Type 0 where
  pub type_ : String
  pub value : String

pub record StopPoint : Type 0 where
  pub id : String
  pub codes : List Code
  pub stop_area_codes : List Code

-- One element of "stop_times"; the times of day are those that navitia_wrapper parsed.
pub record NavStop : Type 0 where
  pub stop_point : Option StopPoint
  pub utc_arrival_time : Option ℕ
  pub utc_departure_time : Option ℕ

-- A vehicle journey. `trip_id` is the id under "trip", if both are there.
pub record NavVj : Type 0 where
  pub id : Option String
  pub trip_id : Option String
  pub stop_times : Option (List NavStop)

-- `navitia_vj.get("stop_times", [])`
unfoldable pub get_stop_times : NavVj → List NavStop
get_stop_times vj = elim vj.stop_times [ none ↦ [] | some l ↦ l ]

-- `navitia_stop.get("stop_point", {}).get("id")`
unfoldable pub get_stop_id : NavStop → Option String
get_stop_id st = elim st.stop_point [ none ↦ none | some sp ↦ some sp.id ]

-- The truth of a text that may be missing: `None` and the empty text are false.
unfoldable pub text_truthy : Option String → Bool
text_truthy none = false
text_truthy (some s) = not (s == "")
