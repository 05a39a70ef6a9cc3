-- ===== src/Worker/FrameCounts.antt =====
-- app/worker/chunked.py: `frame_starts` ends, and cuts where every piece has a frame to write.
use native.Mathlib.Nat.{le-div_iff_mul-le, div-mul-le_self, mul-le-mul_right, one-le-mul}
use mathlib.Core.Option.{some-injective}
use media_player.Prelude.{
  ℕ, zero, suc, ◌+◌, ◌-◌, ◌*◌, ◌/◌, ◌<◌, ◌≤◌, ◌≡◌, subst, Bool, true, false, not, ◌&&◌, ◌||◌,
  Option, none, some, List, [], ◌∷◌, arith, ltb, leb, ◌==◌, all, Bool-cases, inl, inr,
}
use media_player.Worker.FrameStarts.{
  Clock, Rate, output_tick, suitable, skip, advance, is_later, latest, onto, starts_from,
}

abbrev pub at_least : Option ℕ → ℕ → Bool
at_least none t = true
at_least (some b) t = leb b t

-- In order, from the frame before on.
abbrev pub in_order : Option ℕ → List ℕ → Bool
in_order before [] = true
in_order before (t ∷ ts) = at_least before t && in_order (some t) ts

-- The place is at the start `s` or behind it.
abbrev pub heads : ℕ → List ℕ → Bool
heads s [] = false
heads s (t ∷ ts) = t == s

abbrev pub past : ℕ → Option ℕ → Bool
past s none = false
past s (some b) = leb s b

abbrev pub reached : ℕ → Option ℕ → List ℕ → Bool
reached s before rest = past s before || heads s rest

reached-on :
    (s u : ℕ) (before : Option ℕ) (us : List ℕ)
    → at_least before u ≡ true
    → reached s before (u ∷ us) ≡ true
    → reached s (some u) us ≡ true
reached-on s u none us h k = ground arith
reached-on s u (some b) us h k = ground arith

div_mono : (a b k : ℕ) → 0 < k → a ≤ b → a / k ≤ b / k
div_mono a b k p h =
    (le-div_iff_mul-le {k = k} {x = a / k} {y = b} p).1 (omega (arith, div-mul-le_self a k, h))

module _ (clock : Clock) (r : Rate) (unit : 0 < clock.per_second) (whole : 0 < r.seconds) where
  output_tick_mono : (a b : ℕ) → a ≤ b → output_tick clock r a ≤ output_tick clock r b
  unfolding output_tick
  output_tick_mono a b h =
      let base = clock.per_second * r.seconds in
      let shift = clock.origin * (2 * r.frames) * (base - 1) in
      let positive : 0 < 2 * base =
        omega (arith, one-le-mul {a = clock.per_second} {b = r.seconds} unit whole) in
      div_mono (a * (2 * r.frames) + base + shift) (b * (2 * r.frames) + base + shift) (2 * base)
        positive (omega (arith, mul-le-mul_right {m = a} {n = b} (2 * r.frames) h))

  begins_frame :
      (s : ℕ) (before : Option ℕ) (u : ℕ) (us : List ℕ)
      → in_order before (u ∷ us) ≡ true
      → reached s before (u ∷ us) ≡ true
      → suitable clock (some r) before u ≡ true
      → s < u
      → output_tick clock r s < output_tick clock r u
  unfolding suitable
  begins_frame s none u us o k f h = ground arith
  begins_frame s (some x) u us o k f h = ground (arith, output_tick_mono s x)

  -- Where `skip` stops: in order still, at the start `s` or behind it, and a frame behind it begins
  -- an output frame after that of the start.
  abbrev pub After : ℕ → Option ℕ × List ℕ → Type 0
  After s (b, []) = Unit {0}
  After s (b, t ∷ ts) =
      (in_order b (t ∷ ts) ≡ true)
      × (reached s b (t ∷ ts) ≡ true)
      × (s < t → output_tick clock r s < output_tick clock r t)

  pub skip-After :
      (mark s : ℕ) (before : Option ℕ) (rest : List ℕ) (x : Option ℕ × List ℕ)
      → in_order before rest ≡ true
      → reached s before rest ≡ true
      → skip clock (some r) mark before rest ≡ some x
      → After s x
  unfolding skip
  skip-After mark s before [] x o k e = ground arith
  skip-After mark s before (u ∷ us) x o k e =
      elim (Bool-cases (
        ltb (u * 1000000 + clock.per_second) (mark * 1000000)
        || not (suitable clock (some r) before u))) [
          | inl on ↦
              skip-After mark s (some u) us x (ground arith)
                (reached-on s u before us (ground arith) k) (ground arith)
          | inr stop ↦
              subst (λ y. After s y) (some-injective (before, u ∷ us) x (ground arith))
                (o, k, begins_frame s before u us o k (ground arith))
        ]

pub skip-all :
    (P : ℕ → Bool) (clock : Clock) (rate : Option Rate) (mark : ℕ) (before : Option ℕ)
    (rest : List ℕ) (b : Option ℕ) (l : List ℕ)
    → all P rest ≡ true
    → skip clock rate mark before rest ≡ some (b, l)
    → all P l ≡ true
unfolding skip
skip-all P clock rate mark before [] b l h e = ground arith
skip-all P clock rate mark before (u ∷ us) b l h e =
    elim (Bool-cases (
      ltb (u * 1000000 + clock.per_second) (mark * 1000000)
      || not (suitable clock rate before u))) [
        | inl on ↦ skip-all P clock rate mark (some u) us b l (ground arith) (ground arith)
        | inr stop ↦ ground arith
      ]

pub advance-past :
    (chunk fuel mark start : ℕ)
    → 0 < chunk
    → start < mark + fuel
    → (start < advance chunk fuel mark start) × (mark ≤ advance chunk fuel mark start)
unfolding advance
advance-past chunk zero mark start p h = (omega (arith, h), omega arith)
advance-past chunk (suc f) mark start p h =
    ground (arith, advance-past chunk f (mark + chunk) start p)

module _ (clock : Clock) (rate : Option Rate) (chunk end : ℕ) where
  module _ (f mark : ℕ) (before : Option ℕ) (rest : List ℕ) (start : Option ℕ)
      (more : ltb end mark ≡ false) (b : Option ℕ) (t : ℕ) (ts : List ℕ)
      (found : skip clock rate mark before rest ≡ some (b, t ∷ ts)) where
    pub step-new :
        is_later start t ≡ true
        → starts_from clock rate chunk end (suc f) mark before rest start
          ≡ onto t (
              starts_from clock rate chunk end f
                (advance chunk (suc t) (mark + chunk) t)
                b
                (t ∷ ts)
                (some t))
    unfolding starts_from
    step-new h = ground (arith, more, found, h)

    pub step-same :
        is_later start t ≡ false
        → starts_from clock rate chunk end (suc f) mark before rest start
          ≡ starts_from clock rate chunk end f
              (advance chunk (suc (latest start)) (mark + chunk) (latest start))
              b
              (t ∷ ts)
              start
    unfolding starts_from
    step-same h = ground (arith, more, found, h)
