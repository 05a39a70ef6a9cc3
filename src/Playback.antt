-- ===== src/Playback.antt =====
-- app/worker/hls.py, app/worker/renditions.py, app/worker/preview.py: what a finished video is given
-- beside its MP4.
pub mod Rungs
pub mod LadderGraph
pub mod LadderWired
pub mod Renditions
pub mod Master
pub mod RungCaps
pub mod Listing
pub mod Listed
pub mod Sprite
pub mod SpriteFits
pub mod SpriteCues
pub mod SpriteRun
pub mod SpriteKept
pub mod LadderRun
pub mod MasterLast
