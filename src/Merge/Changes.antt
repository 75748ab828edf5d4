-- ===== src/Merge/Changes.antt =====
-- When `merge` (kirin/core/merge_utils.py) returns `None`, and what it has changed all the same.
use kirin.Prelude.{ℕ, Option, true, string_eq, option_eq, ◌≡◌, is_some}
use kirin.Types.{status_eq}
use kirin.Model.{NavStop, get_stop_id, TripUpdate}
use kirin.Merge.Events.{find_in}

-- The recorded trip update has a stop time for this stop.
abbrev pub IsRecorded : Option TripUpdate → ℕ × NavStop → Type 0
IsRecorded db_tu (order, st) = is_some (find_in db_tu (get_stop_id st) order) ≡ true
