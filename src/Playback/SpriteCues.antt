-- ===== src/Playback/SpriteCues.antt =====
-- app/worker/preview.py: the cues of the index, one after the other.
use native.Mathlib.Nat.{div-lt_iff_lt-mul, mod-lt, mul-le-mul_right, mul_assoc, add-mul, suc-mul}
use media_player.Prelude.{ℕ, suc, ◌+◌, ◌*◌, ◌/◌, ◌%◌, ◌<◌, ◌≤◌, ◌≡◌, sym, subst, some, arith, ◌∙◌}
use media_player.Playback.Rungs.{min}
use media_player.Playback.Sprite.{SpriteLayout, plan_sprite, cue}
use media_player.Playback.SpriteFits.{Fits, plan_sprite-Fits}

-- A cue shows for a while and within the video, its rectangle lies on the sheet, and the next one
-- starts where it ends; the last one ends with the video.
pub record Follows (l : SpriteLayout) (duration i : ℕ) : Type 0 where
  pub shows : (cue l duration i).start < (cue l duration i).end
  pub within : (cue l duration i).end ≤ duration
  pub next : suc i < l.frames → (cue l duration i).end ≡ (cue l duration (suc i)).start
  pub last : suc i ≡ l.frames → (cue l duration i).end ≡ duration
  pub across : (cue l duration i).x + l.tile_width ≤ l.columns * l.tile_width
  pub down : (cue l duration i).y + l.tile_height ≤ l.rows * l.tile_height

-- Step `i` of `n` steps that reach the duration, and no step too many.
step-lt : (d step n i : ℕ) → n * step < d + step → i < n → i * step < d
step-lt d step n i above h =
    let grown = mul-le-mul_right {m = suc i} {n = n} step h in
    omega (arith, suc-mul i step, grown, above)

one_more-le : (a b width : ℕ) → a < b → a * width + width ≤ b * width
one_more-le a b width h =
    let grown = mul-le-mul_right {m = suc a} {n = b} width h in
    omega (arith, suc-mul a width, grown)

min-lt : (a b c : ℕ) → a < b → a < c → a < min b c
min-lt a b c h k = ground arith

min-le_right : (b c : ℕ) → min b c ≤ c
min-le_right b c = ground arith

min_left : (b c : ℕ) → b ≤ c → min b c ≡ b
min_left b c h = ground arith

min_right : (b c : ℕ) → c ≤ b → min b c ≡ c
min_right b c h = ground arith

Fits-Follows : (l : SpriteLayout) (d most i : ℕ) → Fits d most l → i < l.frames → Follows l d i
unfolding cue
Fits-Follows l d most i f h =
    let n = l.interval_seconds in
    let step = n * 1000000 in
    let start : i * n * 1000000 ≡ i * step = mul_assoc i n 1000000 in
    let end : (i * n + n) * 1000000 ≡ i * step + step =
      omega (arith, add-mul (i * n) n 1000000, start) in
    let later : suc i * n * 1000000 ≡ i * step + step =
      mul_assoc (suc i) n 1000000 ∙ suc-mul i step in
    let positive : 0 < step = omega (arith, f.some_interval) in
    let before = step-lt d step l.frames i f.none_beyond h in
    record {
      shows =
          min-lt (i * n * 1000000) ((i * n + n) * 1000000) d (omega (arith, start, end, positive))
            (omega (arith, start, before));
      within = min-le_right ((i * n + n) * 1000000) d;
      next = λ more.
          let less = step-lt d step l.frames (suc i) f.none_beyond more in
          min_left ((i * n + n) * 1000000) d (omega (arith, end, less, suc-mul i step))
          ∙ end
          ∙ sym later;
      last = λ all_shown.
          let reached : d ≤ suc i * step = subst (λ k. d ≤ k * step) (sym all_shown) f.covered in
          min_right ((i * n + n) * 1000000) d (omega (arith, end, reached, suc-mul i step));
      across =
          one_more-le (i % l.columns) l.columns l.tile_width
            (mod-lt i {m = l.columns} f.some_column);
      down = one_more-le (i / l.columns) l.rows l.tile_height (
          (div-lt_iff_lt-mul {k = l.columns} {x = i} {y = l.rows} f.some_column).1
            (omega (arith, f.enough_rows, h)));
    }

-- Whatever the size and the length of a video, if a sheet is planned for it then it has at most the
-- frames that it may have, and at least one; and the cues of the index follow each other from the
-- start of the video to its end, without a gap or an overlap, each on a rectangle of the sheet.
pub plan_sprite-Follows :
    (width height duration interval_seconds tile_width columns max_frames : ℕ) {l : SpriteLayout}
    → 0 < columns
    → 0 < max_frames
    → plan_sprite width height duration interval_seconds tile_width columns max_frames ≡ some l
    → (0 < l.frames)
      × (l.frames ≤ max_frames)
      × ((cue l duration 0).start ≡ 0)
      × ((i : ℕ) → i < l.frames → Follows l duration i)
unfolding cue
plan_sprite-Follows w h d n tw c m {l} p q e =
    let f = plan_sprite-Fits w h d n tw c m {l = l} p q e in
    (f.some_frame, f.few_frames, ground arith, λ i less. Fits-Follows l d m i f less)
