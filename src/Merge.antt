-- ===== src/Merge.antt =====
-- kirin/core/merge_utils.py: merging the base schedule, the recorded trip update and the new one.
-- `Events` decides which stop events are served, `StopTimes` computes the times of one stop,
-- `Stops` lists the stops to go through, `Loop` is `merge`.
pub mod Events
pub mod StopTimes
pub mod Stops
pub mod Loop
pub mod Times
pub mod Chain
pub mod Shape
pub mod Numbers
pub mod Changes
pub mod Dates
pub mod Validity
pub mod BaseSchedule
