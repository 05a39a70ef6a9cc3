-- ===== src/Uploads/PartSizes.antt =====
-- What `validate_parts` makes sure of.
use media_player.Prelude.{
  ℕ, suc, ◌+◌, ◌⊎◌, subst, ◌-◌, ◌*◌, ◌/◌, ◌≤◌, ◌<◌, ◌≡◌, refl, sym, true, List, [], ◌∷◌, map, arith,
  length,
}
use native.Mathlib.Nat.{div-add-mod, mod-lt, mul_comm}
use media_player.Uploads.Session.{Part, StoredPart, Upload, part_count}
use media_player.Uploads.Parts.{
  counts_from, insert_stored, sort_stored, size_fits, parts_match, validate_parts,
  is_complete_upload, manifest_of, sort_parts,
}

-- The bytes of the stored parts.
unfoldable pub total : List StoredPart → ℕ
total [] = 0
total (s ∷ ss) = s.size + total ss

total-insert_stored :
    (s : StoredPart) (ss : List StoredPart) → total (insert_stored s ss) ≡ s.size + total ss
unfolding total insert_stored
total-insert_stored s [] = refl
total-insert_stored s (q ∷ qs) = ground (arith, total-insert_stored s qs)

total-sort_stored : (ss : List StoredPart) → total (sort_stored ss) ≡ total ss
unfolding total sort_stored
total-sort_stored [] = refl
total-sort_stored (s ∷ ss) =
    ground (arith, total-insert_stored s (sort_stored ss), total-sort_stored ss)

-- The size that part `k + 1` must have.
size_fits-suc :
    (part size k n stored : ℕ)
    → n ≡ suc k
    → size_fits part size n stored ≡ true
    → ((stored ≡ part) × (part ≤ size - k * part))
      ⊎ ((stored ≡ size - k * part) × (size - k * part < part))
unfolding size_fits
size_fits-suc part size k n stored e =
    subst
      (λ (m : ℕ).
        size_fits part size m stored ≡ true
        → ((stored ≡ part) × (part ≤ size - k * part))
          ⊎ ((stored ≡ size - k * part) × (size - k * part < part)))
      (sym e) (λ h. ground arith)

-- The parts from number `k + 1` on hold the bytes from `k * part_size` on.
total-from :
    (u : Upload) (k : ℕ) (ps : List Part) (ss : List StoredPart)
    → parts_match u ps ss ≡ true
    → counts_from (suc k) (map (λ p. p.n) ps) ≡ true
    → u.size ≤ (k + length ps) * u.part_size
    → total ss ≡ u.size - k * u.part_size
unfolding total parts_match counts_from
total-from u k [] [] m c h =
    let all_of : u.size ≤ k * u.part_size =
      subst (λ (m : ℕ). u.size ≤ m * u.part_size) {y = k} (omega arith) h in
    ground arith
total-from u k [] (s ∷ ss) m c h = ground arith
total-from u k (p ∷ ps) [] m c h = ground arith
total-from u k (p ∷ ps) (s ∷ ss) m c h =
    let fits = size_fits-suc u.part_size u.size k s.n s.size (ground arith) (ground arith) in
    let rest =
      total-from u (suc k) ps ss (ground arith) (ground arith)
        (subst (λ (m : ℕ). u.size ≤ m * u.part_size) (omega arith) h) in
    ground (arith, fits, rest)

covers : (u : Upload) → 0 < u.part_size → u.size ≤ part_count u * u.part_size
unfolding part_count
covers u p =
    let x = u.size + u.part_size - 1 in
    omega (
      arith,
      div-add-mod x u.part_size,
      mod-lt x {m = u.part_size} p,
      mul_comm (x / u.part_size) u.part_size,
    )

-- Parts that pass the comparison are as many as the upload has, and their sizes add up to the size
-- that the upload declared: a completion can neither miss bytes nor add any. The completion is one
-- that the schema admits, and part sizes are positive.
pub validate_parts-total :
    (u : Upload) (parts : List Part) (actual : List StoredPart)
    → 0 < u.part_size
    → is_complete_upload parts ≡ true
    → validate_parts u (manifest_of parts) actual ≡ true
    → (length actual ≡ part_count u) × (total actual ≡ u.size)
unfolding is_complete_upload validate_parts manifest_of
validate_parts-total u parts actual p c v =
    let enough : u.size ≤ (0 + length (sort_parts parts)) * u.part_size =
      subst (λ (m : ℕ). u.size ≤ m * u.part_size) (ground arith) (covers u p) in
    let whole : total (sort_stored actual) ≡ u.size - 0 * u.part_size =
      total-from u 0 (sort_parts parts) (sort_stored actual) (ground arith) (ground arith) enough in
    (ground arith, ground (arith, whole, total-sort_stored actual))
