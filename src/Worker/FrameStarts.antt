-- ===== src/Worker/FrameStarts.antt =====
-- app/worker/chunked.py: where the pieces of an encode start, and how many frames each writes. A
-- time is a number of units, of which a second has `per_second`, from some point that no frame precedes;
-- the file's start, from which the source counts, is at `origin`, and a frame may stand before it. The
-- rate, where the encode lowers it, is a fraction of frames per second.
use media_player.Prelude.{
  ℕ, zero, suc, ◌+◌, ◌-◌, ◌*◌, ◌/◌, Bool, true, false, not, ◌||◌, Option, none, some, List, [], ◌∷◌,
  ltb, leb, if◌then◌else◌,
}

-- The output rate: a numerator and a denominator.
pub record Rate : Type 0 where
  pub frames : ℕ
  pub seconds : ℕ

pub record Clock : Type 0 where
  pub per_second : ℕ
  pub origin : ℕ

module _ (clock : Clock) where
  -- `math.floor(seconds * rate + Fraction(1, 2))`, counted from `origin * r.frames` output frames
  -- before the file's start, so that a frame before the start has a number too: ticks are only
  -- compared and subtracted.
  unfoldable pub output_tick : Rate → ℕ → ℕ
  output_tick r t =
      let base = clock.per_second * r.seconds in
      (t * (2 * r.frames) + base + clock.origin * (2 * r.frames) * (base - 1)) / (2 * base)

  -- `suitable`, of a frame and the one before it.
  unfoldable pub suitable : Option Rate → Option ℕ → ℕ → Bool
  suitable none before t = true
  suitable (some r) none t = true
  suitable (some r) (some b) t = ltb (output_tick r b) (output_tick r t)

  -- The first inner loop, from one frame on: the frame where it stops, with the one before it.
  unfoldable pub skip : Option Rate → ℕ → Option ℕ → List ℕ → Option (Option ℕ × List ℕ)
  skip rate mark before [] = none
  skip rate mark before (t ∷ ts) =
      elim (ltb (t * 1000000 + clock.per_second) (mark * 1000000) || not (suitable rate before t)) [
        | true ↦ skip rate mark (some t) ts
        | false ↦ some (before, t ∷ ts)
      ]

-- The second inner loop, after `mark += chunk_seconds`: on past the last start.
unfoldable pub advance : ℕ → ℕ → ℕ → ℕ → ℕ
advance chunk zero mark start = mark
advance chunk (suc fuel) mark start = elim (ltb start mark) [
  | true ↦ mark
  | false ↦ advance chunk fuel (mark + chunk) start
]

-- `not starts or times[index] > starts[-1]`
abbrev pub is_later : Option ℕ → ℕ → Bool
is_later none t = true
is_later (some s) t = ltb s t

abbrev pub latest : Option ℕ → ℕ
latest none = 0
latest (some s) = s

abbrev pub onto : ℕ → Option (List ℕ) → Option (List ℕ)
onto t none = none
onto t (some ts) = some (t ∷ ts)

module _ (clock : Clock) (rate : Option Rate) (chunk end : ℕ) where
  -- The outer loop: the starts that it still adds; `none` if the fuel did not last.
  unfoldable pub starts_from : ℕ → ℕ → Option ℕ → List ℕ → Option ℕ → Option (List ℕ)
  starts_from zero mark before rest start = none
  starts_from (suc fuel) mark before rest start = elim (ltb end mark) [
    | true ↦ some []
    | false ↦ elim (skip clock rate mark before rest) [
      | none ↦ some []
      | some (b, []) ↦ some []
      | some (b, t ∷ ts) ↦ elim (is_later start t) [
        | true ↦
            onto t (starts_from fuel (advance chunk (suc t) (mark + chunk) t) b (t ∷ ts) (some t))
        | false ↦
            let s = latest start in
            starts_from fuel (advance chunk (suc s) (mark + chunk) s) b (t ∷ ts) start
      ]
    ]
  ]

-- `sorted(frame_times)`
abbrev pub insert_time : ℕ → List ℕ → List ℕ
insert_time t [] = t ∷ []
insert_time t (u ∷ us) = let rest = insert_time t us in if leb t u then t ∷ u ∷ us else u ∷ rest

abbrev pub sorted_times : List ℕ → List ℕ
sorted_times [] = []
sorted_times (t ∷ ts) = insert_time t (sorted_times ts)

-- `times[-1]`
abbrev pub last_of : ℕ → List ℕ → ℕ
last_of t [] = t
last_of t (u ∷ us) = last_of u us

-- `starts.pop()`, where the remainder is under half a piece.
unfoldable pub joined : ℕ → ℕ → List ℕ → List ℕ
joined chunk end [] = []
joined chunk end (s ∷ []) = s ∷ []
joined chunk end (s ∷ t ∷ []) = if ltb (2 * (end - t)) chunk then s ∷ [] else s ∷ t ∷ []
joined chunk end (s ∷ t ∷ u ∷ us) = s ∷ joined chunk end (t ∷ u ∷ us)

unfoldable pub joined_starts : ℕ → ℕ → Option (List ℕ) → Option (List ℕ)
joined_starts chunk end none = none
joined_starts chunk end (some starts) = some (joined chunk end starts)

-- Of times in their order.
unfoldable pub starts_of : Clock → Option Rate → ℕ → List ℕ → Option (List ℕ)
starts_of clock rate chunk [] = some []
starts_of clock rate chunk (t ∷ ts) =
    let end = last_of t ts in
    joined_starts chunk end
      (starts_from clock rate chunk end (suc (suc end)) clock.origin none (t ∷ ts) none)

unfoldable pub frame_starts : Clock → Option Rate → ℕ → List ℕ → Option (List ℕ)
unfolding starts_of
frame_starts clock rate chunk_seconds frame_times =
    starts_of clock rate (chunk_seconds * clock.per_second) (sorted_times frame_times)

-- `frames` of the plan: 0 for the last piece, which runs to the end.
unfoldable pub piece_frames : Clock → Rate → List ℕ → List ℕ
piece_frames clock rate [] = []
piece_frames clock rate (s ∷ []) = 0 ∷ []
piece_frames clock rate (s ∷ t ∷ ts) =
    (output_tick clock rate t - output_tick clock rate s) ∷ piece_frames clock rate (t ∷ ts)
