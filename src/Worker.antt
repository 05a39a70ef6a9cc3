-- ===== src/Worker.antt =====
-- The worker: the tasks that drive a job (app/worker/tasks.py), the reaper (app/worker/reaper.py)
-- and the plans that the ladder, the preview and the pieces follow.
pub mod Messages
pub mod Tasks
pub mod Histories
pub mod Leaving
pub mod Settling
pub mod Ladders
pub mod Reaper
pub mod Reaping
pub mod LadderReaping
pub mod ReaperHistories
pub mod Pieces
pub mod EditChecks
pub mod EditFits
pub mod FrameStarts
pub mod FrameCounts
pub mod FramePlan
pub mod FrameCuts
pub mod PiecesKept
