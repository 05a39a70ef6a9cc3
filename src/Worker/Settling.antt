-- ===== src/Worker/Settling.antt =====
-- What a processing task makes of a queued job.
