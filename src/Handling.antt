-- ===== src/Handling.antt =====
-- kirin/core/build_wrapper.py: from a raw feed to what is recorded and published, for any builder
-- (kirin/core/abstract_builder.py), and kirin/new_relic.py: `is_invalid_input_exception`. The broker
-- and the text of an error are parameters. Logs, durations and the parts of the metrology other than
-- the status are not modelled. A change of a recorded trip update is a change of its row at once:
-- each path to the end of `wrap_build` that can change one commits the session. What the database
-- refuses (two new trip updates for one circulation) is not modelled.
mod Updates
mod Delivery
pub mod Calls
pub mod Failures
pub mod Rewriting
pub mod Added
unfoldable pub use Updates.*
unfoldable pub use Delivery.*
use kirin.Prelude.{
  ℕ, ℤ, String, Option, none, some, List, ◌∷◌, Bool, true, false, not, if◌then◌else◌, Result, ok,
  err, Exception, invalid_arguments,
}
use kirin.Model.{TripUpdate}
use kirin.Feed.{PbTripUpdate}
use kirin.RtUpdates.{Store, db_commit, set_rtu_status_ko, allow_reprocess_same_data}

unfoldable pub is_invalid_input_exception : Exception → Bool
is_invalid_input_exception invalid_arguments = true
is_invalid_input_exception _ = false

-- The `except` clause of `wrap_build` up to its `raise`, and the call that is recorded.
unfoldable pub settle_failure :
    {P : Type 0} → Builder P → (Exception → String) → ℤ → Option ℕ → Exception → World → World
unfolding is_invalid_input_exception
settle_failure builder error_text now rt_update e w =
    let invalid = is_invalid_input_exception e in
    let store : Store = elim rt_update [
      | none ↦ allow_reprocess_same_data builder.contributor_id w.store
      | some id ↦
          db_commit now
            (set_rtu_status_ko id builder.contributor_id (error_text e) (not invalid) w.store)
    ] in
    record w { store = store; calls = (if invalid then warning else failure) ∷ w.calls }

abbrev pub with_store : Store → World → World
with_store store w = record w { store = store }

-- What the body of the `try` leaves: the id of the update, if it was built, and how it ended.
pub record Processed : Type 0 where
  pub world : World
  pub rt_update : Option ℕ
  pub reply : Result (Unit {0})

unfoldable pub process_trip_updates :
    {P : Type 0}
    → Builder P
    → (List PbTripUpdate → Bool)
    → ℤ
    → World
    → ℕ
    → Store × Result (List TripUpdate)
    → Processed
unfolding handle
process_trip_updates builder broker now w id (s, err e) = record {
  world = with_store s w;
  rt_update = some id;
  reply = err e;
}
process_trip_updates builder broker now w id (s, ok trip_updates) =
    let (w', r) = handle builder broker now id trip_updates (with_store s w) in
    record { world = w'; rt_update = some id; reply = r }

unfoldable pub process_rt_update :
    {P : Type 0}
    → Builder P
    → (List PbTripUpdate → Bool)
    → ℤ
    → World
    → Store × Result (ℕ × P)
    → Processed
unfolding process_trip_updates
process_rt_update builder broker now w (s, err e) = record {
  world = with_store s w;
  rt_update = none;
  reply = err e;
}
process_rt_update builder broker now w (s, ok (id, attached)) =
    process_trip_updates builder broker now w id
      (builder.build_trip_updates (id, attached) w.trip_updates s)

-- The exception is raised again once its traces are settled.
unfoldable pub finish_call :
    {P : Type 0}
    → Builder P
    → (Exception → String)
    → ℤ
    → World
    → Option ℕ
    → Result (Unit {0})
    → World × Result (Unit {0})
unfolding settle_failure
finish_call builder error_text now w rt_update (err e) =
    (settle_failure builder error_text now rt_update e w, err e)
finish_call builder error_text now w rt_update (ok t) =
    (record w { calls = CallStatus.status_ok ∷ w.calls }, ok tt)

unfoldable pub wrap_build :
    {P : Type 0}
    → Builder P
    → (List PbTripUpdate → Bool)
    → (Exception → String)
    → ℤ
    → String
    → World
    → World × Result (Unit {0})
unfolding process_rt_update finish_call
wrap_build builder broker error_text now input_raw w =
    let p = process_rt_update builder broker now w (builder.build_rt_update input_raw w.store) in
    finish_call builder error_text now p.world p.rt_update p.reply
