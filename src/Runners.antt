-- ===== src/Runners.antt =====
-- src/runners: the merge of the input files' events, flat and as a tree.
pub mod Merge
pub mod Hierarchy
pub mod Agreement
pub mod Summary
mod Tests
