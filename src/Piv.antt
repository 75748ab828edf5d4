-- ===== src/Piv.antt =====
-- kirin/piv/model_maker.py: building trip updates from a PIV feed. `Messages` has what is read of the
-- feed, `Disruptions` the choice of the disruption, `Stops` the stops, `Trips` the vehicle journey and
-- the trip update, `Building` the builder. `Choice` is about the disruption that is chosen, `Kept`
-- about the stops that are kept, `Reading` about what is read of the train, `Times` about its times,
-- `Listing` about the stops and the circulation of the trip update, `Merging` about its merge and its
-- publication.
pub mod Messages
pub mod Disruptions
pub mod Stops
pub mod Trips
pub mod Building
pub mod Choice
pub mod Kept
pub mod Times
pub mod Merging
pub mod Reading
pub mod Listing
