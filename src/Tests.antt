-- ===== src/Tests.antt =====
-- The theorems at concrete inputs, with tests of the definitions.
pub mod Log
pub mod Pool
pub mod Locks
pub mod Frames
pub mod Select
pub mod Pages
pub mod Rows
pub mod Heap
pub mod Query
pub mod Statements
pub mod Messages
pub mod Trees
