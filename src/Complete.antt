-- ===== src/Complete.antt =====
-- What the connectors with complete feeds, COTS and PIV (kirin/cots/model_maker.py and
-- kirin/piv/model_maker.py), do in the same way: `Interesting` has the loop that keeps stops, `Values`
-- the values of JSON, `Drafts` the stop time updates that the loop over the stops adds, `Rounds` what
-- holds of that loop.
pub mod Interesting
pub mod Values
pub mod Drafts
pub mod Rounds
