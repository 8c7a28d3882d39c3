-- ===== src/Reliability.antt =====
-- .harness/reliability.py: reliability runs, from `start_run` to `finish_run`. An operation takes the
-- run that it reads under its lock and gives the error that it raises or the run that it writes.
pub mod State
pub mod Texts
pub mod Records
pub mod Finish
pub mod Evidence
pub mod Checkpoint
pub mod Budget
pub mod Words
pub mod Assess
pub mod Frozen
pub mod Events
mod Tests
