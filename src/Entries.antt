-- ===== src/Entries.antt =====
-- The feeds that are sent over HTTP (kirin/piv/piv.py: `Piv`, kirin/gtfs_rt/gtfs_rt.py: `GtfsRT`,
-- kirin/cots/cots.py: `Cots`). The builder of a contributor is an argument, as `wrap_build` takes it.
-- The authorization of a request, the routes and the texts of answers are not modelled. `Retired` is
-- about the feeds of a contributor that was deleted.
pub mod Retired
use kirin.Prelude.{
  ℤ, String, Option, none, some, List, [], ◌∷◌, Bool, true, false, ◌&&◌, if◌then◌else◌, ◌==◌,
  string_eq, find_first, Exception, invalid_arguments, sub_service_error, Result, ok, err,
}
use kirin.Types.{ConnectorType}
use kirin.RtUpdates.{connector_beq}
use kirin.Feed.{PbTripUpdate}
use kirin.Handling.{Builder, World, wrap_build}
use kirin.Contributors.Rows.{Contributor, has_id, query_existing, find_by_connector_type}

-- What is answered: the feed is processed, `abort` with its status, or an exception is raised.
pub data Answer : Type 0 where
  processed bad_request not_found : Answer
  raised : Exception → Answer

unfoldable pub get_cots_contributor : Bool → List Contributor → Result Contributor
unfolding find_by_connector_type
get_cots_contributor include_deactivated rows =
    elim (find_by_connector_type ConnectorType.cots include_deactivated rows) [
      | [] ↦ err sub_service_error
      | contributor ∷ _ ↦ ok contributor
    ]

-- `get_cots`, `_get_piv`, `_get_gtfs_rt`
unfoldable pub get_data : String → Result String
get_data data_ = if data_ == "" then err invalid_arguments else ok data_

-- A feed that is handled without an exception is answered by 200.
unfoldable pub answer : World × Result (Unit {0}) → World × Answer
answer (w, ok _) = (w, Answer.processed)
answer (w, err e) = (w, Answer.raised e)

module _ {P : Type 0} (make_builder : Contributor → Builder P) (broker : List PbTripUpdate → Bool)
    (error_text : Exception → String) (now : ℤ) where
  unfoldable pub process : Contributor → Result String → World → World × Answer
  unfolding answer
  process contributor (err e) w = (w, Answer.raised e)
  process contributor (ok raw) w =
      answer (wrap_build (make_builder contributor) broker error_text now raw w)

  -- `query_existing().filter_by(id=id, connector_type=type_).first()`
  unfoldable pub post_feed :
      ConnectorType → Option String → String → List Contributor → World → World × Answer
  unfolding process get_data find_first query_existing
  post_feed type_ none data_ rows w = (w, Answer.bad_request)
  post_feed type_ (some id) data_ rows w =
      elim (find_first (λ (c : Contributor). has_id id c && connector_beq c.connector_type type_)
        (query_existing rows)) [
          | none ↦ (w, Answer.not_found)
          | some contributor ↦ process contributor (get_data data_) w
        ]

  -- The contributor is read before the data.
  unfoldable pub process_found : Result Contributor → Result String → World → World × Answer
  unfolding process
  process_found (err e) data_ w = (w, Answer.raised e)
  process_found (ok contributor) data_ w = process contributor data_ w

  unfoldable pub post_cots : String → List Contributor → World → World × Answer
  unfolding process_found get_data get_cots_contributor
  post_cots data_ rows w = process_found (get_cots_contributor false rows) (get_data data_) w
