-- ===== src/Playback/Listed.antt =====
-- app/worker/renditions.py: `add_to_master` as an insertion by rank.
use media_player.Prelude.{
  ℕ, ◌≡◌, refl, ap, subst, ◌∙◌, Bool, true, false, not, ◌&&◌, ◌||◌, List, [], ◌∷◌, ◌++◌, arith, leb,
  ◌==◌, filter, any, all, ==_refl,
}
use media_player.Prelude.Text.{Text, codes, null, is_space, is_blank-eq-all}
use media_player.Prelude.Search.{starts_with, contains, str}
use media_player.Playback.Master.{
  Entry, is_info, is_full, scan, entries, rank, Rung, new_entry, info_of, uri_of, insert, sorted,
  lines_of, add_to_master, first_video, kind_name,
}
use media_player.Playback.Listing.{
  is_good, scan-head, scan-full, all-filter, all-append, entries-printed, sorted-good,
}
use media_player.Playback.Renditions.{Kind, hdr, av1}

add-eq :
    (r : Rung) (master head : List Text) (es : List Entry)
    → entries master ≡ (head, es)
    → any (contains (uri_of r)) master ≡ false
    → add_to_master r master ≡ head ++ lines_of (sorted (es ++ (new_entry r es ∷ [])))
unfolding add_to_master
add-eq r master head es e new = rw (new, e) refl

again-eq :
    (r : Rung) (master : List Text)
    → any (contains (uri_of r)) (add_to_master r master) ≡ true
    → add_to_master r (add_to_master r master) ≡ add_to_master r master
unfolding add_to_master
again-eq r master h = listed_already r (add_to_master r master) h
  where
    listed_already :
        (r : Rung) (m : List Text) → any (contains (uri_of r)) m ≡ true → add_to_master r m ≡ m
    listed_already r m h = rw (add_to_master, h) refl

-- The entries of one rank, in their order.
abbrev pub at_rank : ℕ → List Entry → List Entry
at_rank k es = filter (λ e. rank e.uri == k) es

-- HDR before AV1 before the ladder.
abbrev pub is_ranked : List Entry → Bool
is_ranked [] = true
is_ranked (e ∷ []) = true
is_ranked (e ∷ x ∷ es) = leb (rank e.uri) (rank x.uri) && is_ranked (x ∷ es)

insert-at_rank :
    (k : ℕ) (e : Entry) (es : List Entry) → at_rank k (insert e es) ≡ at_rank k (e ∷ es)
insert-at_rank k e [] = refl
insert-at_rank k e (x ∷ xs) = ground (arith, insert-at_rank k e xs)

sorted-at_rank : (k : ℕ) (es : List Entry) → at_rank k (sorted es) ≡ at_rank k es
unfolding sorted
sorted-at_rank k [] = refl
sorted-at_rank k (e ∷ es) = insert-at_rank k e (sorted es) ∙ ground (arith, sorted-at_rank k es)

insert-is_ranked :
    (e : Entry) (es : List Entry) → is_ranked es ≡ true → is_ranked (insert e es) ≡ true
insert-is_ranked e [] h = refl
insert-is_ranked e (x ∷ []) h = ground arith
insert-is_ranked e (x ∷ y ∷ ys) h = ground (arith, insert-is_ranked e (y ∷ ys))

sorted-is_ranked : (es : List Entry) → is_ranked (sorted es) ≡ true
unfolding sorted
sorted-is_ranked [] = refl
sorted-is_ranked (e ∷ es) = insert-is_ranked e (sorted es) (sorted-is_ranked es)

starts_with-append : (p t : Text) → starts_with p (p ++ t) ≡ true
starts_with-append [] t = refl
starts_with-append (c ∷ p) t = ground (arith, ==_refl c, starts_with-append p t)

contains_self : (t : Text) → contains t t ≡ true
unfolding contains
contains_self [] = refl
contains_self (c ∷ t) = ground (arith, starts_with_self (c ∷ t))
  where
    starts_with_self : (t : Text) → starts_with t t ≡ true
    starts_with_self [] = refl
    starts_with_self (c ∷ t) = ground (arith, ==_refl c, starts_with_self t)

full_text : (c : ℕ) (t : Text) → is_space c ≡ false → is_full (c ∷ t) ≡ true
unfolding is_full
full_text c t h = ground (arith, is_blank-eq-all (c ∷ t))

info_of-good :
    (r : Rung) (first : Text)
    → (is_info (info_of r first) ≡ true) × (is_full (info_of r first) ≡ true)
unfolding info_of is_info is_space
info_of-good r first = (refl, full_text 35 _ refl)

kind_name-full : (k : Kind) (t u v : Text) → is_full (kind_name k ++ t ++ u ++ v) ≡ true
unfolding is_space
kind_name-full hdr t u v = full_text 104 _ refl
kind_name-full av1 t u v = full_text 97 _ refl

new_entry-good : (r : Rung) (es : List Entry) → is_good (new_entry r es) ≡ true
unfolding new_entry uri_of
new_entry-good r es =
    let (a, b) = info_of-good r (first_video es) in
    let c = kind_name-full r.plan.kind (codes "/") (str r.rung) (codes "/index.m3u8") in rw (a, b) c

module _ (p : Text → Bool) where
  any-insert :
      (e : Entry) (es : List Entry)
      → any p (lines_of (insert e es)) ≡ (p e.info || p e.uri || any p (lines_of es))
  any-insert e [] = ground arith
  any-insert e (x ∷ xs) = ground (arith, any-insert e xs)

  any-sorted : (es : List Entry) → any p (lines_of (sorted es)) ≡ any p (lines_of es)
  unfolding sorted
  any-sorted [] = refl
  any-sorted (e ∷ es) = ground (arith, any-insert e (sorted es), any-sorted es)

  any-last :
      (e : Entry) (es : List Entry) → p e.uri ≡ true → any p (lines_of (es ++ (e ∷ []))) ≡ true
  any-last e [] h = ground arith
  any-last e (x ∷ xs) h = ground (arith, any-last e xs h)

  any-append : (xs ys : List Text) → any p ys ≡ true → any p (xs ++ ys) ≡ true
  any-append [] ys h = h
  any-append (x ∷ xs) ys h = ground (arith, any-append xs ys h)

self : (r : Rung) (es : List Entry) → contains (uri_of r) (new_entry r es).uri ≡ true
unfolding new_entry
self r es = contains_self (uri_of r)

-- A rung that the playlist does not list yet: afterwards its entries are read as the ones before
-- and the new one, with the HDR ones first, then the AV1 ones, then the ladder, each group in the
-- order that it had; the lines before the entries stay; and adding the rung again changes nothing.
-- The playlist is taken to have an entry, as one of a finished ladder does.
pub add_to_master-entries :
    (r : Rung) (master head : List Text) (es : List Entry)
    → entries master ≡ (head, es)
    → null es ≡ false
    → any (contains (uri_of r)) master ≡ false
    → let all_entries = es ++ (new_entry r es ∷ []) in
      (entries (add_to_master r master) ≡ (head, sorted all_entries))
      × ((k : ℕ) → at_rank k (sorted all_entries) ≡ at_rank k all_entries)
      × (is_ranked (sorted all_entries) ≡ true)
      × (add_to_master r (add_to_master r master) ≡ add_to_master r master)
unfolding entries
add_to_master-entries r master head es e some_entry new =
    let full = scan-full false (filter is_full master) (all-filter is_full master) in
    let parts = scan-head false (filter is_full master) (rw e some_entry) in
    let all_entries = es ++ (new_entry r es ∷ []) in
    let listed : Text → Bool = contains (uri_of r) in
    let written = add-eq r master head es e new in
    (
      ap (λ m. scan false (filter is_full m)) written
          ∙ entries-printed head (sorted all_entries) (subst (λ x. all is_full x.0 ≡ true) e full.0)
              (subst (λ x. all (λ l. not (is_info l)) x.0 ≡ true) e parts)
              (sorted-good all_entries
                ∙ all-append is_good es (new_entry r es ∷ [])
                ∙ rw (subst (λ x. all is_good x.1 ≡ true) e full.1, new_entry-good r es) refl),
      (λ k. sorted-at_rank k all_entries),
      sorted-is_ranked all_entries,
      again-eq r master (
          rw written (
            any-append listed head (lines_of (sorted all_entries))
              (any-sorted listed all_entries ∙ any-last listed (new_entry r es) es (self r es)))),
    )
