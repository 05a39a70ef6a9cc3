-- ===== src/Jobs.antt =====
-- The `jobs` table: its rows and constraints (app/models/job.py) and every query and write on it
-- (app/repositories/jobs.py).
pub mod Row
pub mod Store
pub mod Queries
pub mod Writes
pub mod Trace
pub mod StoreLaws
pub mod Invariant
pub mod Effect
pub mod Evolution
pub mod WellFormed
pub mod Finality
pub mod Isolation
pub mod Claims
pub mod Integrity
pub mod Paging
pub mod PageOrder
pub mod EditRoots
