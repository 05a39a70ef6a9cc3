-- ===== src/Playback/RungCaps.antt =====
-- app/worker/renditions.py: why a player starts in the extra renditions.
use media_player.Prelude.{ℕ, ◌+◌, ◌*◌, ◌<◌, ◌≤◌, ◌≡◌, true, arith, any, ◌==◌}
use media_player.Playback.Rungs.{bitrate}
use media_player.Playback.Renditions.{Kind, hdr, av1, rungs_for, ceiling}

-- Every rung of an extra rendition fits in its source, and its ceiling is below that of the rung of
-- the same height in the ladder. One of at most 360 lines, even if it peaks at a quarter above its
-- ceiling and with the 128 thousand bits of the audio, stays under the 500 thousand bits that a
-- player first assumes.
pub rungs_for-ceiling :
    (kind : Kind) (source_height r : ℕ)
    → any (λ k. k == r) (rungs_for kind source_height) ≡ true
    → (r ≤ source_height)
      × (ceiling kind r < bitrate r * 1000)
      × (r ≤ 360 → ceiling kind r * 5 + 128000 * 4 < 500000 * 4)
unfolding rungs_for ceiling bitrate
rungs_for-ceiling hdr source_height r h = ground arith
rungs_for-ceiling av1 source_height r h = ground arith
