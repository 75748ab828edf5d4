-- ===== src/Cots.antt =====
-- kirin/cots/model_maker.py: building trip updates from a COTS feed. `Messages` has what is read of
-- the feed, `Headsigns` the numbers of a train, `Stops` the stops, `Actions` what is done to a trip,
-- `Lookup` the vehicle journeys, `Trips` the trip updates, `Building` the builder. `Numbers` is about
-- the numbers, `Kept` about the stops that are kept, `Times` and `Built` about what is read of them,
-- `Life` about a trip over several feeds, `Merging` about the merge.
pub mod Messages
pub mod Headsigns
pub mod Stops
pub mod Actions
pub mod Lookup
pub mod Trips
pub mod Building
pub mod Times
pub mod Built
pub mod Merging
pub mod Kept
pub mod Life
pub mod Numbers
