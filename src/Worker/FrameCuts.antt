-- ===== src/Worker/FrameCuts.antt =====
-- app/worker/chunked.py: what `frame_starts` gives, from frame times in any order.
use native.Mathlib.Nat.{one-le-mul}
use mathlib.Core.Option.{some-injective}
use media_player.Prelude.{
  ℕ, suc, ◌+◌, ◌*◌, ◌<◌, ◌≡◌, refl, sym, subst, Bool, true, false, ◌&&◌, Option, none, some, List,
  [], ◌∷◌, arith, ltb, leb, ◌==◌, if◌then◌else◌, all, Bool-cases, inl, inr, ==_refl, ◌-◌, ap, ◌∙◌,
}
use media_player.Prelude.Text.{null}
use media_player.Worker.FrameStarts.{
  Clock, Rate, skip, suitable, advance, onto, starts_from, insert_time, sorted_times, last_of,
  joined, joined_starts, starts_of, frame_starts, piece_frames,
}
use media_player.Worker.FrameCounts.{in_order, at_least, advance-past, step-new}
use media_player.Worker.FramePlan.{counted, loop-Adds}

insert_time-in_order :
    (before : Option ℕ) (t : ℕ) (us : List ℕ)
    → at_least before t ≡ true
    → in_order before us ≡ true
    → in_order before (insert_time t us) ≡ true
insert_time-in_order before t [] h o = ground arith
insert_time-in_order before t (u ∷ us) h o = ground (arith, insert_time-in_order (some u) t us)

sorted_times-in_order : (ts : List ℕ) → in_order none (sorted_times ts) ≡ true
sorted_times-in_order [] = refl
sorted_times-in_order (t ∷ ts) =
    insert_time-in_order none t (sorted_times ts) refl (sorted_times-in_order ts)

all-insert_time :
    (P : ℕ → Bool) (t : ℕ) (us : List ℕ) → all P (insert_time t us) ≡ (P t && all P us)
all-insert_time P t [] = refl
all-insert_time P t (u ∷ us) = ground (arith, all-insert_time P t us)

all-sorted_times : (P : ℕ → Bool) (ts : List ℕ) → all P (sorted_times ts) ≡ all P ts
all-sorted_times P [] = refl
all-sorted_times P (t ∷ ts) =
    ground (arith, all-insert_time P t (sorted_times ts), all-sorted_times P ts)

-- Every piece but the last writes frames, and the last one runs to the end.
abbrev pub is_whole : List ℕ → Bool
is_whole [] = true
is_whole (n ∷ ns) = if null ns then n == 0 else ltb 0 n && is_whole ns

piece_frames-null :
    (clock : Clock) (r : Rate) (s : ℕ) (ts : List ℕ) → null (piece_frames clock r (s ∷ ts)) ≡ false
unfolding piece_frames
piece_frames-null clock r s [] = refl
piece_frames-null clock r s (t ∷ ts) = refl

piece_frames-whole :
    (clock : Clock) (r : Rate) (s : ℕ) (ts : List ℕ)
    → counted clock r s ts ≡ true
    → is_whole (piece_frames clock r (s ∷ ts)) ≡ true
unfolding piece_frames
piece_frames-whole clock r s [] h = refl
piece_frames-whole clock r s (t ∷ ts) h =
    ground (arith, piece_frames-null clock r t ts, piece_frames-whole clock r t ts)

abbrev pub is_ascending : List ℕ → Bool
is_ascending [] = true
is_ascending (s ∷ []) = true
is_ascending (s ∷ t ∷ ts) = ltb s t && is_ascending (t ∷ ts)

abbrev pub same_first : List ℕ → List ℕ → Bool
same_first [] [] = true
same_first (t ∷ ts) (s ∷ ss) = t == s
same_first _ _ = false

all-true : (ts : List ℕ) → all (λ u. true) ts ≡ true
all-true [] = refl
all-true (t ∷ ts) = all-true ts

-- The starts of the pieces of these frames.
pub record Cuts (clock : Clock) (r : Rate) (times starts : List ℕ) : Type 0 where
  pub ascending : is_ascending starts ≡ true
  pub drawn : (P : ℕ → Bool) → all P times ≡ true → all P starts ≡ true
  pub from_first : same_first (sorted_times times) starts ≡ true
  pub whole : is_whole (piece_frames clock r starts) ≡ true

-- A remainder that joins the last piece leaves the pieces before it as they are.
joined-counted :
    (clock : Clock) (r : Rate) (chunk end s : ℕ) (ts : List ℕ)
    → counted clock r s ts ≡ true
    → (us : List ℕ) × (joined chunk end (s ∷ ts) ≡ s ∷ us)
      × (counted clock r s us ≡ true)
      × ((P : ℕ → Bool) → all P ts ≡ true → all P us ≡ true)
unfolding joined
joined-counted clock r chunk end s [] h = ([], refl, refl, λ P a. refl)
joined-counted clock r chunk end s (t ∷ []) h = elim (Bool-cases (ltb (2 * (end - t)) chunk)) [
  | inl short ↦ ([], ground arith, refl, λ P a. refl)
  | inr fine ↦ (t ∷ [], ground arith, h, λ P a. a)
]
joined-counted clock r chunk end s (t ∷ u ∷ us) h =
    let (vs, e, c, a) = joined-counted clock r chunk end t (u ∷ us) (ground arith) in
    (t ∷ vs, ap (λ l. s ∷ l) e, ground (arith, c), λ P k. ground (arith, a P))

counted-ascending :
    (clock : Clock) (r : Rate) (s : ℕ) (ts : List ℕ)
    → counted clock r s ts ≡ true
    → is_ascending (s ∷ ts) ≡ true
counted-ascending clock r s [] h = refl
counted-ascending clock r s (t ∷ ts) h = ground (arith, counted-ascending clock r t ts)

-- No frame stands before the first one.
last_of-after :
    (o t : ℕ) (ts : List ℕ)
    → leb o t ≡ true
    → in_order none (t ∷ ts) ≡ true
    → leb o (last_of t ts) ≡ true
last_of-after o t [] h k = h
last_of-after o t (u ∷ us) h k = last_of-after o u us (ground (arith, h, k)) (ground (arith, k))

module _ (clock : Clock) (r : Rate) (unit : 0 < clock.per_second) (whole : 0 < r.seconds)
    (chunk : ℕ) (long : 0 < chunk) where
  -- The loop on frames in their order: the first frame, and what it adds behind it.
  first_frame :
      (P : ℕ → Bool) (t : ℕ) (ts : List ℕ)
      → leb clock.origin t ≡ true
      → in_order none (t ∷ ts) ≡ true
      → all P (t ∷ ts) ≡ true
      → (us : List ℕ) × (starts_from clock
            (some r)
            chunk
            (last_of t ts)
            (suc (suc (last_of t ts)))
            clock.origin
            none
            (t ∷ ts)
            none
          ≡ some (t ∷ us))
        × (counted clock r t us ≡ true)
        × (all P us ≡ true)
  unfolding skip suitable
  first_frame P t ts z o p =
      let end = last_of t ts in
      let past = advance-past chunk (suc t) (clock.origin + chunk) t long (omega arith) in
      let (us, e, c, a) =
        loop-Adds clock r unit whole chunk end long P end
          (advance chunk (suc t) (clock.origin + chunk) t) none (t ∷ ts) t
          (omega (arith, past.1, long)) o (ground (arith, ==_refl t)) p in
      (
        us,
        step-new clock (some r) chunk end (suc end) clock.origin none (t ∷ ts) none
              (ground (arith, last_of-after clock.origin t ts z o)) none t ts (ground (arith, z))
              refl
            ∙ ap (λ found. onto t found) e,
        c,
        a,
      )

  -- The starts of frames in their order, before and after the last piece is joined.
  ordered_cuts :
      (t : ℕ) (ts : List ℕ)
      → leb clock.origin t ≡ true
      → in_order none (t ∷ ts) ≡ true
      → (us : List ℕ) × (starts_of clock (some r) chunk (t ∷ ts) ≡ some (t ∷ us))
        × (counted clock r t us ≡ true)
        × ((P : ℕ → Bool) → all P (t ∷ ts) ≡ true → all P (t ∷ us) ≡ true)
  unfolding starts_of joined_starts
  ordered_cuts t ts z o =
      let end = last_of t ts in
      let (us, e, c, _) = first_frame (λ u. true) t ts z o (all-true ts) in
      let (vs, j, d, kept) = joined-counted clock r chunk end t us c in
      (
        vs,
        ap (λ found. joined_starts chunk end found) e ∙ ap some j,
        d,
        λ P p.
            let (ws, e', _, a) = first_frame P t ts z o p in
            let same : t ∷ ws ≡ t ∷ us = some-injective (t ∷ ws) (t ∷ us) (sym e' ∙ e) in
            let all_us : all P (t ∷ us) ≡ true =
              subst (λ l. all P l ≡ true) same (ground (arith, p, a)) in
            ground (arith, kept P, all_us),
      )

  sorted_times-Cuts :
      (times l : List ℕ)
      → all (leb clock.origin) times ≡ true
      → sorted_times times ≡ l
      → (starts : List ℕ) × (starts_of clock (some r) chunk (sorted_times times) ≡ some starts)
        × Cuts clock r times starts
  unfolding starts_of
  sorted_times-Cuts times [] z e = (
    [],
    ap (λ l. starts_of clock (some r) chunk l) e,
    record {
      ascending = refl;
      drawn = λ P p. refl;
      from_first = ap (λ l. same_first l []) e;
      whole = unfold piece_frames in refl;
    },
  )
  sorted_times-Cuts times (t ∷ ts) z e =
      let o = subst (λ l. in_order none l ≡ true) e (sorted_times-in_order times) in
      let sorted =
        subst (λ l. all (leb clock.origin) l ≡ true) e
          (all-sorted_times (leb clock.origin) times ∙ z) in
      let first : leb clock.origin t ≡ true = ground (arith, sorted) in
      let (us, found, c, kept) = ordered_cuts t ts first o in
      (
        t ∷ us,
        ap (λ l. starts_of clock (some r) chunk l) e ∙ found,
        record {
          ascending = counted-ascending clock r t us c;
          drawn = λ P p. kept P (sym (ap (λ l. all P l) e) ∙ all-sorted_times P times ∙ p);
          from_first = ap (λ l. same_first l (t ∷ us)) e ∙ ==_refl t;
          whole = piece_frames-whole clock r t us c;
        },
      )

-- If clock and rate are not degenerate and no frame stands before the file's start, then the loops of
-- `frame_starts` end, in whatever order the frames are listed, and give starts that ascend, are times of frames, and
-- begin with the first frame; and of the pieces that they bound, each but the last has at least one
-- output frame to write, so that none but the last is taken to run to the end.
pub frame_starts-Cuts :
    (clock : Clock) (r : Rate) (chunk_seconds : ℕ) (times : List ℕ)
    → 0 < clock.per_second
    → 0 < r.seconds
    → 0 < chunk_seconds
    → all (leb clock.origin) times ≡ true
    → (starts : List ℕ) × (frame_starts clock (some r) chunk_seconds times ≡ some starts)
      × Cuts clock r times starts
unfolding frame_starts
frame_starts-Cuts clock r chunk_seconds times unit whole long z =
    sorted_times-Cuts clock r unit whole (chunk_seconds * clock.per_second)
      (one-le-mul {a = chunk_seconds} {b = clock.per_second} long unit) times (sorted_times times) z
      refl
