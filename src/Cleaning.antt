-- ===== src/Cleaning.antt =====
-- What the database keeps and for how long: `Database` has the tables and their deletions
-- (kirin/core/model.py), `Tasks` the tasks that purge them (kirin/tasks.py,
-- kirin/command/purge_rt.py), `Loading` the full feed that is published of them
-- (kirin/rabbitmq_handler.py). `Integrity` is about the references under the tasks, `Purged` about what
-- they remove, `Answering` about when the feed is published.
pub mod Database
pub mod Tasks
pub mod Loading
pub mod Integrity
pub mod Purged
pub mod Answering
