-- ===== src/Pool.antt =====
-- IMServer/LFThreadPool: a leader/follower pool. What a thread does between two releases of `mtx`
-- is one function of the members that the mutex guards; how threads, submitters and the destructor
-- interleave is a step relation.
pub mod Loops
pub mod System
pub mod Runs
pub mod Invariant
pub mod Safety
pub mod Ending
mod Examples
