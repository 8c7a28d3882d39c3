-- ===== src/Continuity.antt =====
-- .harness/continuity.py: the notes of a project's journal, and how the saved direction of a project is
-- shown to a session whose context was compacted.
pub mod Journal
pub mod Projection
pub mod Lineage
pub mod Goal
mod Tests
