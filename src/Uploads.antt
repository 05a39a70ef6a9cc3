-- ===== src/Uploads.antt =====
-- Direct uploads: the session (app/models/upload.py), what a request may say (app/schemas/upload.py),
-- the routes (app/api/multipart_uploads.py) over app/repositories/uploads.py, the sniffing of the
-- content (app/services/media_type.py) and the clean-up (app/services/upload_cleanup.py).
pub mod Session
pub mod Parts
pub mod PartSizes
pub mod Sniff
pub mod Routes
pub mod Completion
pub mod Forward
pub mod Kept
pub mod GivenUp
pub mod Completed
pub mod Gate
pub mod Retry
