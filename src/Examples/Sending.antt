-- ===== src/Examples/Sending.antt =====
-- Feeds that are sent over HTTP, and what is known of a contributor.
use kirin.Prelude.{
  invalid_arguments, select, find_first, ◌≢◌, false, ok, pos, String, none, some, List, [], ◌∷◌,
  Bool, true, false, string_eq, Exception, ok, ◌≡◌, refl, select, exists,
}
use kirin.Types.{ConnectorType}
use kirin.Merge.Loop.{merge}
use kirin.Feed.{PbTripUpdate}
use kirin.RtUpdates.{RealTimeUpdate, RtStatus, later}
use kirin.RtUpdates.Probes.{
  newest, get_probes_by_contributor, probe_contributors, probe_row, probe_valid, update_date,
}
use kirin.RtUpdates.Valid.{lookup, IsLatest, valid_of, get_probes_by_contributor-IsLatest}
use kirin.Handling.{Builder, World}
use kirin.Contributors.Rows.{Contributor, has_id, query_existing}
use kirin.Contributors.Requests.{delete_contributor}
use kirin.Entries.{process, get_data, get_cots_contributor, Answer, post_feed}
use kirin.Entries.Retired.{deleted_post}
use kirin.Examples.{late_trip}
use kirin.Examples.Contributing.{piv_row, piv_row_deleted}

-- Every feed is the late trip.
abbrev late_builder : Contributor → Builder (Unit {0})
late_builder c = record {
  contributor_id = c.id;
  build_rt_update = λ input s. (s, ok (1, tt));
  build_trip_updates = λ id rows s. (s, ok (late_trip ∷ []));
  merge_trip_updates = λ vj db new. merge vj db new false;
}

abbrev takes_all : List PbTripUpdate → Bool
takes_all feed = true

abbrev no_text : Exception → String
no_text e = ""

abbrev empty_world : World
empty_world = record {
  store = record { real_time_updates = []; etags = [] };
  trip_updates = [];
  published = [];
  calls = [];
}

deleted_post_example :
    let left = (delete_contributor (some "realtime.piv") (piv_row ∷ [])).0 in
    (post_feed late_builder takes_all no_text
        (pos 7)
        ConnectorType.piv
        (some "realtime.piv")
        "{}"
        left
        empty_world
      ≡ (empty_world, Answer.not_found))
    × ((c : Contributor) → get_cots_contributor false left ≡ ok c → c.id ≢ "realtime.piv")
deleted_post_example =
    deleted_post late_builder takes_all no_text (pos 7) ConnectorType.piv "realtime.piv" "{}"
      (piv_row ∷ []) empty_world piv_row_deleted

abbrev failed_update : RealTimeUpdate
failed_update = record {
  id = 2;
  connector = ConnectorType.piv;
  status = RtStatus.rt_ko;
  error = some "invalid json";
  raw_data = "{";
  contributor_id = "realtime.piv";
  created_at = pos 9;
  updated_at = some (pos 11);
  modified = false;
}

abbrev valid_update : RealTimeUpdate
valid_update = record failed_update {
  id = 1;
  status = RtStatus.rt_ok;
  error = none;
  created_at = pos 5;
  updated_at = none;
}

-- The newest update has failed, and the one before tells when the last valid one came.
failed_probes :
    get_probes_by_contributor (piv_row ∷ []) (failed_update ∷ valid_update ∷ []) ≡ record {
      last_update = ("realtime.piv", pos 11) ∷ [];
      last_valid_update = ("realtime.piv", pos 5) ∷ [];
      last_update_error = ("realtime.piv", some "invalid json") ∷ [];
    }
unfolding get_probes_by_contributor probe_contributors probe_row probe_valid update_date newest
    later query_existing select
failed_probes = refl

piv_row_active : exists (has_id "realtime.piv") (query_existing (piv_row ∷ [])) ≡ true
unfolding exists query_existing select
piv_row_active = refl

get_probes_by_contributor-IsLatest_example :
    IsLatest (valid_of "realtime.piv") (failed_update ∷ valid_update ∷ []) (
      lookup "realtime.piv"
        (get_probes_by_contributor
          (piv_row ∷ [])
          (failed_update ∷ valid_update ∷ [])).last_valid_update)
get_probes_by_contributor-IsLatest_example =
    get_probes_by_contributor-IsLatest "realtime.piv" (piv_row ∷ [])
      (failed_update ∷ valid_update ∷ []) piv_row_active

-- A feed without a body is refused before it is handled.
empty_refused :
    post_feed late_builder takes_all no_text
      (pos 7)
      ConnectorType.piv
      (some "realtime.piv")
      ""
      (piv_row ∷ [])
      empty_world
    ≡ (empty_world, Answer.raised invalid_arguments)
unfolding post_feed process get_data find_first query_existing select
empty_refused = refl
