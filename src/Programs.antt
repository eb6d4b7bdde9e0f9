-- ===== src/Programs.antt =====
-- The programs under example/ and bench/, over the worker pool. Their log lines are left out, and the
-- JSON of a user record is a parameter.
pub mod Values
pub mod Publisher
pub mod Consumer
pub mod SelfFeeding
pub mod Benchmark
pub mod SameId
pub mod Serving
