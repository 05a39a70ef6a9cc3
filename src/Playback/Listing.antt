-- ===== src/Playback/Listing.antt =====
-- app/worker/renditions.py: what adding a rung does to the entries of the master playlist.
use media_player.Prelude.{
  ◌≡◌, refl, ap, ◌∙◌, Bool, true, false, not, ◌&&◌, List, [], ◌∷◌, ◌++◌, arith, filter, all,
}
use media_player.Prelude.Text.{Text, null}
use media_player.Playback.Master.{Entry, is_info, is_full, scan, entries, insert, sorted, lines_of}

-- A pair that `_entries` reads back as it was written.
abbrev pub is_good : Entry → Bool
is_good e = is_info e.info && is_full e.info && is_full e.uri

scan-listed : (ls : List Text) → (scan true ls).0 ≡ []
unfolding scan
scan-listed [] = refl
scan-listed (l ∷ []) = refl
scan-listed (l ∷ m ∷ rest) = ground (arith, scan-listed rest, scan-listed (m ∷ rest))

-- The lines before the first entry are no entries.
pub scan-head :
    (listed : Bool) (ls : List Text)
    → null (scan listed ls).1 ≡ false
    → all (λ l. not (is_info l)) (scan listed ls).0 ≡ true
unfolding scan
scan-head b [] h = refl
scan-head b (l ∷ []) h = ground arith
scan-head b (l ∷ m ∷ rest) h = ground (arith, scan-listed rest, scan-head b (m ∷ rest))

pub scan-full :
    (listed : Bool) (ls : List Text)
    → all is_full ls ≡ true
    → (all is_full (scan listed ls).0 ≡ true) × (all is_good (scan listed ls).1 ≡ true)
unfolding scan
scan-full b [] h = (refl, refl)
scan-full b (l ∷ []) h = ground arith
scan-full b (l ∷ m ∷ rest) h = ground (arith, scan-full true rest, scan-full b (m ∷ rest))

scan-lines_of :
    (listed : Bool) (es : List Entry) → all is_good es ≡ true → scan listed (lines_of es) ≡ ([], es)
unfolding scan
scan-lines_of b [] h = refl
scan-lines_of b (e ∷ es) h = ground (arith, scan-lines_of true es)

scan-skip :
    (l : Text) (ls : List Text)
    → is_info l ≡ false
    → scan false (l ∷ ls) ≡ (l ∷ (scan false ls).0, (scan false ls).1)
unfolding scan
scan-skip l [] h = refl
scan-skip l (m ∷ rest) h = ground (arith, h)

scan-printed :
    (head : List Text) (es : List Entry)
    → all (λ l. not (is_info l)) head ≡ true
    → all is_good es ≡ true
    → scan false (head ++ lines_of es) ≡ (head, es)
scan-printed [] es h g = scan-lines_of false es g
scan-printed (l ∷ head) es h g =
    ground (arith, scan-skip l (head ++ lines_of es), scan-printed head es)

filter-all : {A : Type 0} (p : A → Bool) (xs : List A) → all p xs ≡ true → filter p xs ≡ xs
filter-all p [] h = refl
filter-all p (x ∷ xs) h = ground (arith, filter-all p xs)

pub all-filter : {A : Type 0} (p : A → Bool) (xs : List A) → all p (filter p xs) ≡ true
all-filter p [] = refl
all-filter p (x ∷ xs) = ground (arith, all-filter p xs)

pub all-append :
    {A : Type 0} (p : A → Bool) (xs ys : List A) → all p (xs ++ ys) ≡ (all p xs && all p ys)
all-append p [] ys = refl
all-append p (x ∷ xs) ys = ground (arith, all-append p xs ys)

all-lines_of : (es : List Entry) → all is_good es ≡ true → all is_full (lines_of es) ≡ true
all-lines_of [] h = refl
all-lines_of (e ∷ es) h = ground (arith, all-lines_of es)

-- A playlist that is written from its head and its entries is read back as them.
pub entries-printed :
    (head : List Text) (es : List Entry)
    → all is_full head ≡ true
    → all (λ l. not (is_info l)) head ≡ true
    → all is_good es ≡ true
    → entries (head ++ lines_of es) ≡ (head, es)
unfolding entries
entries-printed head es f h g =
    ap (λ ls. scan false ls)
      (filter-all is_full (head ++ lines_of es)
        (ground (arith, all-append is_full head (lines_of es), all-lines_of es)))
    ∙ scan-printed head es h g

insert-good :
    (e : Entry) (es : List Entry) → all is_good (insert e es) ≡ (is_good e && all is_good es)
insert-good e [] = refl
insert-good e (x ∷ xs) = ground (arith, insert-good e xs)

pub sorted-good : (es : List Entry) → all is_good (sorted es) ≡ all is_good es
unfolding sorted
sorted-good [] = refl
sorted-good (e ∷ es) = ground (arith, insert-good e (sorted es), sorted-good es)
