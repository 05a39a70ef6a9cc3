-- ===== src/Edits/Offers.antt =====
-- The editor's offers and the rule agree (app/services/media_rules.py), and the numbers that the
-- rules compute: the width after a scale, the duration that a refusal shows.
use media_player.Prelude.{
  ℕ, ◌+◌, ◌*◌, ◌<◌, ◌≡◌, refl, ◌↔◌, inl, inr, ◌∙◌, Bool, true, false, ◌&&◌, ◌||◌, none, some, List,
  [], ◌∷◌, arith, ltb, ◌==◌, any, filter, Bool-cases, ap, ==_iff,
}
use media_player.Prelude.Int.{pos}
use media_player.Edits.Rules.{
  Scaling, down, up, ok, refused, too_long, Shown, minutes_seconds, hours_minutes_seconds, finite,
  scale_heights, scale_options, Options, check_scale, sorted_desc, insert_desc, format_duration,
  check_source_duration,
}

abbrev pub member : ℕ → List ℕ → Bool
member h hs = any (λ k. k == h) hs

member-insert_desc : (h n : ℕ) (ns : List ℕ) → member h (insert_desc n ns) ≡ (n == h || member h ns)
member-insert_desc h n [] = refl
member-insert_desc h n (m ∷ ms) = ground (arith, member-insert_desc h n ms)

member-sorted_desc : (h : ℕ) (ns : List ℕ) → member h (sorted_desc ns) ≡ member h ns
member-sorted_desc h [] = refl
member-sorted_desc h (n ∷ ns) =
    ground (arith, member-insert_desc h n (sorted_desc ns), member-sorted_desc h ns)

member-filter : (h : ℕ) (p : ℕ → Bool) (ns : List ℕ) → member h (filter p ns) ≡ (member h ns && p h)
member-filter h p [] = refl
member-filter h p (n ∷ ns) = elim (Bool-cases (n == h)) [
  | inl same ↦ ground (arith, ap p ((==_iff n h).0 same), member-filter h p ns)
  | inr other ↦ ground (arith, member-filter h p ns)
]

abbrev pub side : Scaling → Options → List ℕ
side down o = o.downscale
side up o = o.upscale

-- `scaling` offers the height `h` to a video `input` high.
abbrev pub offers : Scaling → ℕ → ℕ → Bool
offers scaling input h = elim (scale_options (some input)) [
  | none ↦ false
  | some o ↦ member h (side scaling o)
]

offered_down :
    (input h : ℕ)
    → member h (sorted_desc (filter (λ (k : ℕ). ltb k input) scale_heights))
      ≡ (member h scale_heights && ltb h input)
offered_down input h =
    member-sorted_desc h (filter (λ (k : ℕ). ltb k input) scale_heights)
    ∙ member-filter h (λ (k : ℕ). ltb k input) scale_heights

-- The editor offers a height for a scale of a video whose height is known exactly if the rule that
-- the API and the worker apply accepts it: never what is refused, and everything that is not.
pub offers_iff :
    (scaling : Scaling) (input h : ℕ)
    → 0 < input
    → (offers scaling input h ≡ true) ↔ (check_scale scaling (pos h) (some input) ≡ ok tt)
unfolding scale_options check_scale
offers_iff down input h p = ground (arith, offered_down input h)
offers_iff up input h p = ground (arith, member-filter h (λ (k : ℕ). ltb input k) scale_heights)

-- The seconds that a shown duration stands for.
abbrev pub seconds_of : Shown → ℕ
seconds_of (minutes_seconds m s) = m * 60 + s
seconds_of (hours_minutes_seconds h m s) = h * 3600 + m * 60 + s

-- A source that is refused as too long is shown with a duration above the limit in whole seconds,
-- so a message never names the limit itself as the length.
pub too_long_shows :
    (d limit : ℕ) {s : Shown} {l : _}
    → check_source_duration (finite (pos d)) (pos limit) ≡ refused (too_long s l)
    → (limit < seconds_of s) × (limit * 1000000 < d)
unfolding check_source_duration format_duration
too_long_shows d limit h = ground arith
