-- ===== src/Playback/LadderWired.antt =====
-- app/worker/hls.py: the command of a ladder fits together, for every ladder that is built.
use media_player.Prelude.{
  ℕ, suc, ◌≤◌, ◌≡◌, refl, subst, sym, Bool, true, false, not, ◌&&◌, ◌||◌, none, some, List, [], ◌∷◌,
  ◌++◌, map, arith, leb, ltb, ◌==◌, if◌then◌else◌, filter, any, all,
}
use media_player.Prelude.Text.{null}
use media_player.Playback.Rungs.{ladder_heights, variants_for, min, tallest}
use media_player.Playback.LadderGraph.{
  Pad, input, from_source, from_anchor, out, FilterPart, Stream, LadderCommand,
  build_ladder_command, ladder_filter,
}

abbrev pub same_pad : Pad → Pad → Bool
same_pad input input = true
same_pad (from_source h) (from_source k) = h == k
same_pad (from_anchor h) (from_anchor k) = h == k
same_pad (out i) (out k) = i == k
same_pad _ _ = false

abbrev pub count : Pad → List Pad → ℕ
count p [] = 0
count p (q ∷ qs) = let rest = count p qs in if same_pad p q then suc rest else rest

abbrev pub gives_all : List FilterPart → List Pad
gives_all [] = []
gives_all (p ∷ ps) = p.gives ++ gives_all ps

-- Every pad that a filter gives is taken once, by a filter or by a stream, and every pad that is
-- taken is given once: the source by the file, the rest by a filter.
abbrev pub is_wired : LadderCommand → Bool
is_wired c =
    let given = input ∷ gives_all c.filter_complex in
    let taken = map (λ p. p.takes) c.filter_complex ++ map (λ s. s.pad) c.streams in
    all (λ p. count p taken == 1) given && all (λ p. count p given == 1) taken

abbrev scales_to : ℕ → FilterPart → Bool
scales_to h p = elim (p.scale) [ none ↦ false | some k ↦ k == h ]

-- The part that gives the pad scales to the height.
abbrev pub is_scaled : List FilterPart → Pad → ℕ → Bool
is_scaled ps pad h = any (λ p. any (same_pad pad) p.gives && scales_to h p) ps

-- The streams, in the order of the rungs: each of the height of its rung.
abbrev pub fits_rungs : List FilterPart → List Stream → List ℕ → Bool
fits_rungs ps [] [] = true
fits_rungs ps (s ∷ ss) (h ∷ hs) = is_scaled ps s.pad h && fits_rungs ps ss hs
fits_rungs ps _ _ = false

abbrev pub is_complete : List ℕ → Bool
is_complete heights =
    let c = build_ladder_command heights in
    is_wired c && fits_rungs c.filter_complex c.streams heights

abbrev pub is_ascending : List ℕ → Bool
is_ascending [] = true
is_ascending (h ∷ []) = true
is_ascending (h ∷ k ∷ hs) = ltb h k && is_ascending (k ∷ hs)

-- A list of rungs that the source can fill.
abbrev pub is_ladder : ℕ → List ℕ → Bool
is_ladder height rungs = not (null rungs) && is_ascending rungs && all (λ r. leb r height) rungs

single : (h : ℕ) → is_complete (h ∷ []) ≡ true
unfolding build_ladder_command ladder_filter
single h = ground arith

-- The ladders, by the height that they may reach.
abbrev choose : ℕ → ℕ → List ℕ
choose height top =
    if ltb top 360
    then height ∷ []
    else if ltb top 480
    then 360 ∷ []
    else if ltb top 720
    then 360 ∷ 480 ∷ []
    else if ltb top 1080
    then 360 ∷ 720 ∷ []
    else if ltb top 1440
    then 360 ∷ 720 ∷ 1080 ∷ []
    else if ltb top 2160
    then 360 ∷ 720 ∷ 1080 ∷ 1440 ∷ []
    else 360 ∷ 720 ∷ 1080 ∷ 1440 ∷ 2160 ∷ []

abbrev rungs_up_to : ℕ → ℕ → List ℕ
rungs_up_to height top =
    let rungs = filter (λ rung. leb rung top) ladder_heights in
    if null rungs then height ∷ [] else filter (λ r. r == tallest rungs || not (r == 480)) rungs

rungs_up_to-choose : (height top : ℕ) → rungs_up_to height top ≡ choose height top
unfolding ladder_heights
rungs_up_to-choose height top = ground arith

abbrev pub Good : ℕ → List ℕ → Type 0
Good height rungs = (is_ladder height rungs ≡ true) × (is_complete rungs ≡ true)

if_Good :
    (height : ℕ) (b : Bool) (xs ys : List ℕ)
    → (b ≡ true → Good height xs)
    → (b ≡ false → Good height ys)
    → Good height (if b then xs else ys)
if_Good height true xs ys f g = f refl
if_Good height false xs ys f g = g refl

choose-Good : (height top : ℕ) → top ≤ height → Good height (choose height top)
unfolding build_ladder_command ladder_filter
choose-Good height top h =
    if_Good height (ltb top 360) _ _ (λ _. (ground arith, single height))
      λ a.
        if_Good height (ltb top 480) _ _ (λ _. (ground arith, refl))
          λ b.
            if_Good height (ltb top 720) _ _ (λ _. (ground arith, refl))
              λ c.
                if_Good height (ltb top 1080) _ _ (λ _. (ground arith, refl))
                  λ d.
                    if_Good height (ltb top 1440) _ _ (λ _. (ground arith, refl))
                      λ e.
                        if_Good height (ltb top 2160) _ _ (λ _. (ground arith, refl))
                          λ f. (ground arith, refl)

-- Whatever the height of a source and the limit of the host, the ladder has at least one rung, its
-- rungs ascend and none is taller than the source; and the command for it fits together: each pad
-- of the filter graph is given once and taken once, and there is one video stream for each rung, in
-- their order, which comes from a filter that scales to the height of its rung.
pub variants_for-Good : (height max_height : ℕ) → Good height (variants_for height max_height)
unfolding variants_for
variants_for-Good height max_height =
    subst (λ hs. Good height hs) (sym (rungs_up_to-choose height (min height max_height)))
      (choose-Good height (min height max_height) (ground arith))
