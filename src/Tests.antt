-- ===== src/Tests.antt =====
-- Tests by evaluation, and the theorems at concrete inputs.
mod JobTests
mod ApiTests
mod PlaybackTests
mod UploadTests
mod WorkerTests
mod EditTests
