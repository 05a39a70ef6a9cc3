-- ===== src/Playback/SpriteFits.antt =====
-- app/worker/preview.py: the cues cover the video and their rectangles lie on the sheet.
use native.Mathlib.Nat.{
  lt-div-mul-add, div-mul-le_self, mul-le-mul_right, lt_of_mul-lt-mul_right, mul_left_comm, suc-mul,
}
use media_player.Prelude.{
  ℕ, suc, ◌+◌, ◌-◌, ◌*◌, ◌<◌, ◌≤◌, ◌≡◌, sym, subst, some, arith, ◌==◌, Bool-cases, inl, inr,
}
use media_player.Playback.Rungs.{min, max}
use media_player.Edits.Rules.{scaled_width}
use media_player.Playback.Sprite.{SpriteLayout, ceil_div, plan_sprite}

-- A quotient that is rounded up: the least number of parts that hold the whole.
ceil_div-bounds : (x y : ℕ) → 0 < y → (x ≤ ceil_div x y * y) × (ceil_div x y * y < x + y)
unfolding ceil_div
ceil_div-bounds x y p =
    let up = lt-div-mul-add {a = x + (y - 1)} {b = y} p in
    let down = div-mul-le_self (x + (y - 1)) y in (omega (arith, up), omega (arith, down))

ceil_div-pos : (x y : ℕ) → 0 < x → 0 < y → 0 < ceil_div x y
ceil_div-pos x y p q = elim (Bool-cases (ceil_div x y == 0)) [
  | inl z ↦ absurd (ground (arith, ceil_div-bounds x y q))
  | inr other ↦ ground arith
]

-- No more parts than asked for, if each is long enough.
few_parts : (d part most frames : ℕ) → frames * part < d + part → d ≤ most * part → frames ≤ most
few_parts d part most frames above below =
    let less : frames * part < suc most * part =
      subst (λ n. frames * part < n) (sym (suc-mul most part)) (omega (arith, above, below)) in
    omega (arith, lt_of_mul-lt-mul_right part {m = frames} {n = suc most} less)

long_enough :
    (d most interval : ℕ)
    → 0 < most
    → ceil_div d (most * 1000000) ≤ interval
    → d ≤ most * (interval * 1000000)
long_enough d most interval p low =
    let up = (ceil_div-bounds d (most * 1000000) (omega (arith, p))).0 in
    let grown =
      mul-le-mul_right {m = ceil_div d (most * 1000000)} {n = interval} (most * 1000000) low in
    let same : interval * (most * 1000000) ≡ most * (interval * 1000000) =
      mul_left_comm interval most 1000000 in
    omega (arith, up, grown, same)

-- What `plan_sprite` promises of a layout for a duration.
pub record Fits (duration max_frames : ℕ) (l : SpriteLayout) : Type 0 where
  pub some_frame : 0 < l.frames
  pub few_frames : l.frames ≤ max_frames
  pub some_column : 0 < l.columns
  pub some_interval : 0 < l.interval_seconds
  pub covered : duration ≤ l.frames * (l.interval_seconds * 1000000)
  pub none_beyond :
      l.frames * (l.interval_seconds * 1000000) < duration + l.interval_seconds * 1000000
  pub enough_rows : l.frames ≤ l.rows * l.columns

pub plan_sprite-Fits :
    (width height duration interval_seconds tile_width columns max_frames : ℕ) {l : SpriteLayout}
    → 0 < columns
    → 0 < max_frames
    → plan_sprite width height duration interval_seconds tile_width columns max_frames ≡ some l
    → Fits duration max_frames l
unfolding plan_sprite
plan_sprite-Fits width height duration interval_seconds tile_width columns max_frames {l} c m e =
    let interval = max interval_seconds (ceil_div duration (max_frames * 1000000)) in
    let frames = ceil_div duration (interval * 1000000) in
    let positive : 0 < interval = ground arith in
    let lasts : 0 < duration = ground arith in
    let bounds = ceil_div-bounds duration (interval * 1000000) (omega (arith, positive)) in
    let many = ceil_div-pos duration (interval * 1000000) lasts (omega (arith, positive)) in
    let wide : 0 < min columns frames = ground (arith, many) in
    let layout : SpriteLayout = record {
      interval_seconds = interval;
      frames = frames;
      columns = min columns frames;
      rows = ceil_div frames (min columns frames);
      tile_width = tile_width;
      tile_height = scaled_width height tile_width width;
    } in
    let same : layout ≡ l = ground arith in
    subst (λ x. Fits duration max_frames x) same
      (record {
        some_frame = many;
        few_frames =
            few_parts duration (interval * 1000000) max_frames frames bounds.1
              (long_enough duration max_frames interval m (ground arith));
        some_column = wide;
        some_interval = positive;
        covered = bounds.0;
        none_beyond = bounds.1;
        enough_rows = (ceil_div-bounds frames (min columns frames) wide).0;
      })
