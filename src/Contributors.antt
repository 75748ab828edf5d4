-- ===== src/Contributors.antt =====
-- The contributors: `Rows` has those that the database keeps (kirin/core/model.py), `Requests` the
-- requests that change them (kirin/resources/contributors.py), `Workers` the worker that listens for
-- one (kirin/command/piv_worker.py, kirin/piv/piv.py). `Answers` is about what the requests
-- answer, `Stopping` about the end of the worker.
pub mod Rows
pub mod Requests
pub mod Workers
pub mod Answers
pub mod Stopping
