-- ===== src/Worker/FramePlan.antt =====
-- app/worker/chunked.py: the pieces that `frame_starts` plans.
use media_player.Prelude.{
  ℕ, zero, suc, ◌+◌, ◌<◌, ◌≡◌, refl, Bool, true, ◌&&◌, Option, some, List, [], ◌∷◌, arith, ltb, all,
  Option-cases, Bool-cases, inl, inr, ==_refl, ap, ◌∙◌,
}
use media_player.Worker.FrameStarts.{
  Clock, Rate, output_tick, skip, advance, is_later, onto, starts_from,
}
use media_player.Worker.FrameCounts.{
  in_order, reached, skip-After, skip-all, advance-past, step-new, step-same,
}

-- The starts behind `s`: later, and in a later output frame, one after the other.
abbrev pub counted : Clock → Rate → ℕ → List ℕ → Bool
counted clock r s [] = true
counted clock r s (t ∷ ts) =
    ltb s t && ltb (output_tick clock r s) (output_tick clock r t) && counted clock r t ts

module _ (clock : Clock) (r : Rate) (unit : 0 < clock.per_second) (whole : 0 < r.seconds)
    (chunk end : ℕ) (long : 0 < chunk) (P : ℕ → Bool) where
  -- What the loop adds behind the start `s`.
  abbrev pub Adds : ℕ → Option (List ℕ) → Type 0
  Adds s found =
      (ts : List ℕ) × (found ≡ some ts) × (counted clock r s ts ≡ true) × (all P ts ≡ true)

  abbrev loop : ℕ → ℕ → Option ℕ → List ℕ → ℕ → Option (List ℕ)
  loop fuel mark before rest s = starts_from clock (some r) chunk end fuel mark before rest (some s)

  stops :
      (f mark : ℕ) (before : Option ℕ) (rest : List ℕ) (s : ℕ)
      → loop (suc f) mark before rest s ≡ some []
      → Adds s (loop (suc f) mark before rest s)
  stops f mark before rest s e = ([], e, refl, refl)

  pub loop-Adds :
      (f mark : ℕ) (before : Option ℕ) (rest : List ℕ) (s : ℕ)
      → end < mark + f
      → in_order before rest ≡ true
      → reached s before rest ≡ true
      → all P rest ≡ true
      → Adds s (loop (suc f) mark before rest s)
  unfolding starts_from
  loop-Adds zero mark before rest s h o k p = stops zero mark before rest s (ground arith)
  loop-Adds (suc f) mark before rest s h o k p = elim (Bool-cases (ltb end mark)) [
    | inl over ↦ stops (suc f) mark before rest s (ground arith)
    | inr more ↦ elim (Option-cases (skip clock (some r) mark before rest)) [
      | inl out ↦ stops (suc f) mark before rest s (ground arith)
      | inr ((b, []), found) ↦ stops (suc f) mark before rest s (ground arith)
      | inr ((b, t ∷ ts), found) ↦
          let after = skip-After clock r unit whole mark s before rest (b, t ∷ ts) o k found in
          let kept = skip-all P clock (some r) mark before rest b (t ∷ ts) p found in
          elim (Bool-cases (is_later (some s) t)) [
            | inl new ↦
                let past = advance-past chunk (suc t) (mark + chunk) t long (omega arith) in
                let (us, e, c, a) =
                  loop-Adds f (advance chunk (suc t) (mark + chunk) t) b (t ∷ ts) t
                    (ground (arith, past.1)) after.0 (ground (arith, ==_refl t)) kept in
                (
                  t ∷ us,
                  step-new clock (some r) chunk end (suc f) mark before rest (some s) more b t ts
                        found new
                      ∙ ap (λ found. onto t found) e,
                  ground (arith, after.2, c),
                  ground (arith, kept, a),
                )
            | inr same ↦
                let past = advance-past chunk (suc s) (mark + chunk) s long (omega arith) in
                let (us, e, c, a) =
                  loop-Adds f (advance chunk (suc s) (mark + chunk) s) b (t ∷ ts) s
                    (ground (arith, past.1)) after.0 after.1 kept in
                (
                  us,
                  step-same clock (some r) chunk end (suc f) mark before rest (some s) more b t ts
                        found same
                      ∙ e,
                  c,
                  a,
                )
          ]
    ]
  ]
