-- ===== src/Lib.antt =====
-- Verification of the back end of the video player: the jobs that turn an upload or an edit into
-- a playable video, the routes on them, the uploads that create them, the rules that edits follow,
-- the worker that processes jobs, what a finished video is given beside its MP4, and the reaper that
-- looks after lost jobs.
--
-- The API (app/api) and the worker (app/worker) meet in the database. An upload session
-- (app/models/upload.py) becomes one job (app/models/job.py) when its file is complete and checked;
-- a worker claims the job, records a result or a failure through app/repositories/jobs.py, and
-- hands the adaptive ladder to a later task; the reaper fails what a dead worker left behind. All
-- of them write rows by conditional statements, so what can happen to a row is a history of those
-- statements, in any order.
--
-- Where the code is:
--   Prelude        Boolean tests, lists and Python text (str.strip, and PostgreSQL's btrim)
--   Jobs/Row       app/models/job.py: the columns, the enums, the CHECK constraints
--   Jobs/Store     the table and the statements that the repository runs on it
--   Jobs/Queries, Jobs/Paging, Jobs/EditRoots
--                  app/repositories/jobs.py: get_job, the lists, resolve_edit_roots
--   Jobs/Writes    app/repositories/jobs.py: every write; Jobs/Trace makes histories of them
--   Edits/Operation    app/schemas/edit.py: the operations and their parameters
--   Edits/Rules, Edits/Checking
--                  app/services/media_rules.py: each rule, and a whole request
--   Edits/Filters  app/worker/edit_ops: the filters of each operation and the chain
--   Uploads/Session, Uploads/Parts
--                  app/models/upload.py, app/repositories/uploads.py, app/schemas/upload.py
--   Uploads/Sniff  app/services/media_type.py
--   Uploads/Routes, Uploads/Completion
--                  app/api/multipart_uploads.py: complete, discard, abort, with the session's step
--                  of app/services/upload_cleanup.py
--   Worker/Messages, Worker/Tasks
--                  app/worker/tasks.py: process_job_async, build_ladder_async and their helpers
--   Worker/Reaper  app/worker/reaper.py: run_once and empty_trash over the table
--   Worker/Pieces, Worker/FrameStarts
--                  app/worker/chunked.py: PieceBoard; frame_starts and the frame counts of a plan
--   Worker/EditChecks
--                  app/worker/validation.py and app/worker/operations.py: the checks of an edit
--                  against its file, and the filters of its command
--   Edits/Requests app/schemas/edit.py: the validators of a request
--   Api/Shown, Api/EditRoute, Api/RetryRoute, Api/Cleanup
--                  app/api/jobs.py and app/services/job_cleanup.py: the response for a job, the edit,
--                  retry, delete and restore routes, and the objects that a deletion tries
--   Api/HlsRoute   app/api/hls.py and app/services/popularity.py: the parts of a ladder
--   Playback/Rungs, Playback/LadderGraph
--                  app/worker/hls.py: variants_for, the filter graph and the mapped streams
--   Playback/LadderRun
--                  app/worker/hls.py: HlsLadderBuilder.build from the encode to the last upload
--   Playback/Renditions, Playback/Master
--                  app/worker/renditions.py: the plans, the ceilings and the master playlist
--   Playback/Sprite, Playback/SpriteRun
--                  app/worker/preview.py: the sheet, its index, and the run that stores them
-- The other files hold proofs, and Tests the runs and the theorems at concrete inputs.
--
-- How state is modelled. The table of jobs is a list of rows; a statement with its commit is one
-- step, and an error carries no new table, since its transaction is rolled back; only the commit of a
-- retry may raise after the database has done it (Commit). A UUID is a number, since the program
-- only compares it; times are in seconds; a float that the rules read is in millionths. A call that
-- commits in the middle is given the other calls' effect between its
-- commits as a function (Others, Gaps), so a theorem speaks of every interleaving that its
-- hypotheses on that function allow. What S3, Redis, FFmpeg and the stop flag answer is an argument.
-- A message for a user is a constructor with the numbers and names that the text shows, except in
-- Worker/Messages, which is about the text itself.
--
-- A helper's taking of a piece is two steps, its pop and its note; a sweep of the coordinator is one,
-- so no helper acts between its reads. The time of a frame is counted from a point that no frame
-- precedes, with the file's start at `origin`, since a frame may stand before it.
--
-- A ladder's filter graph is its parts and pads; the master playlist is its lines, and an FFmpeg
-- argument that only names a codec or a file is left out.
--
-- A path of a file in a ladder is text with `/` between its parts; an upload is two answers, whether
-- it raised and whether the object is stored, and a list of them that is too short is a worker that
-- died there.
--
-- Bounds. resolve_edit_roots runs for the source's MAX_EDIT_CHAIN rounds. The loops of frame_starts
-- run on fuel: the outer one has two rounds more than the time of the last frame, and each round
-- moves its mark by at least one unit; the inner one has one more than the last start; the result is
-- none if the fuel does not last. A number is printed with more fuel than it has digits. Every other
-- loop is structural recursion. The limits of the source are kept as they
-- are: 5 open uploads, 10000 parts, 3 interruptions, 500 characters of an error.
--
-- Not modelled: accounts, passwords and tokens, the HTTP layer, settings, the clients of S3, Redis
-- and AWS, and whatever runs FFmpeg, which are input and output or calls of libraries; the protocol
-- of the workers that share an encode, the run that stores an extra rendition, the object sweep of
-- the reaper, and the routes that start an upload, sign its parts or report its progress.
pub mod Prelude
pub mod Edits
pub mod Jobs
pub mod Uploads
pub mod Worker
pub mod Api
pub mod Playback
mod Tests
