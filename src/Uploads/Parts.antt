-- ===== src/Uploads/Parts.antt =====
-- The parts of an upload: what a completion may name (app/schemas/upload.py) and the comparison
-- with what the storage holds (`validate_parts` of app/api/multipart_uploads.py).
use media_player.Prelude.{
  ℕ, zero, suc, ◌+◌, ◌-◌, ◌*◌, Bool, true, false, not, ◌&&◌, ◌||◌, List, [], ◌∷◌, map, ltb, leb,
  ◌==◌, if◌then◌else◌, length, all, any,
}
use media_player.Prelude.Text.{Text, text_eq}
use media_player.Uploads.Session.{Part, StoredPart, Upload, part_count}

abbrev pub part_size_default : ℕ
part_size_default = 16777216

abbrev pub max_parts : ℕ
max_parts = 10000

-- `list(range(first, first + k))` is the list itself.
unfoldable pub counts_from : ℕ → List ℕ → Bool
counts_from first [] = true
counts_from first (n ∷ ns) = n == first && counts_from (first + 1) ns

-- `sorted(parts, key=lambda part: part.n)`, which keeps the order of equal keys.
unfoldable pub insert_part : Part → List Part → List Part
insert_part p [] = p ∷ []
insert_part p (q ∷ qs) = let rest = insert_part p qs in if leb p.n q.n then p ∷ q ∷ qs else q ∷ rest

unfoldable pub sort_parts : List Part → List Part
sort_parts [] = []
sort_parts (p ∷ ps) = insert_part p (sort_parts ps)

unfoldable pub insert_stored : StoredPart → List StoredPart → List StoredPart
insert_stored p [] = p ∷ []
insert_stored p (q ∷ qs) =
    let rest = insert_stored p qs in if leb p.n q.n then p ∷ q ∷ qs else q ∷ rest

unfoldable pub sort_stored : List StoredPart → List StoredPart
sort_stored [] = []
sort_stored (p ∷ ps) = insert_stored p (sort_stored ps)

-- `UploadedPart`
abbrev pub is_part : Part → Bool
is_part p = leb 1 p.n && leb p.n max_parts && (leb 1 (length p.etag) && leb (length p.etag) 128)

-- `CompleteUpload` and its `contiguous_parts`.
unfoldable pub is_complete_upload : List Part → Bool
is_complete_upload parts =
    all is_part parts
    && (leb 1 (length parts) && leb (length parts) max_parts)
    && counts_from 1 (map (λ p. p.n) (sort_parts parts))

-- `CompleteUpload.manifest`
unfoldable pub manifest_of : List Part → List Part
manifest_of parts = sort_parts parts

-- `size > 0`, at most `PART_SIZE * MAX_PARTS`, `Literal[30, 60]` and the length of the name.
unfoldable pub is_start_upload : ℕ → ℕ → Text → Bool
is_start_upload size max_fps filename =
    (ltb 0 size && leb size (part_size_default * max_parts))
    && (max_fps == 30 || max_fps == 60)
    && (leb 1 (length filename) && leb (length filename) 255)

unfoldable pub distinct_numbers : List ℕ → Bool
distinct_numbers [] = true
distinct_numbers (n ∷ ns) = not (any (λ k. k == n) ns) && distinct_numbers ns

-- `SignParts`
unfoldable pub is_sign_parts : List ℕ → Bool
is_sign_parts ns =
    all (λ n. leb 1 n && leb n max_parts) ns
    && (leb 1 (length ns) && leb (length ns) 100)
    && distinct_numbers ns

-- `stored["size"] == min(part_size, size - (n - 1) * part_size)`: a negative right side equals no
-- size, and for `n = 0` it is `part_size`.
unfoldable pub size_fits : ℕ → ℕ → ℕ → ℕ → Bool
size_fits part_size size zero stored = stored == part_size
size_fits part_size size (suc before) stored =
    leb (before * part_size) size
    && (if leb part_size (size - before * part_size)
        then stored == part_size
        else stored == size - before * part_size)

-- `zip(expected, sorted(actual), strict=True)`: lists of different lengths fail.
unfoldable pub parts_match : Upload → List Part → List StoredPart → Bool
unfolding size_fits
parts_match u [] [] = true
parts_match u (p ∷ ps) (s ∷ ss) =
    let rest = parts_match u ps ss in
    (p.n == s.n && text_eq p.etag s.etag && size_fits u.part_size u.size s.n s.size) && rest
parts_match u [] (s ∷ ss) = false
parts_match u (p ∷ ps) [] = false

-- `validate_parts` returns: else 422. `manifest` is the one of the request, set just before.
unfoldable pub validate_parts : Upload → List Part → List StoredPart → Bool
unfolding parts_match
validate_parts u manifest actual =
    (length actual == part_count u && length manifest == part_count u)
    && parts_match u manifest (sort_stored actual)
