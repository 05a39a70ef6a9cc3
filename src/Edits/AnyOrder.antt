-- ===== src/Edits/AnyOrder.antt =====
-- The order in which a request lists its operations (app/services/media_rules.py, `OPERATION_ORDER`).
use media_player.Prelude.{ℕ, ◌≡◌, refl, ◌∙◌, false, Option, List, [], ◌∷◌, arith}
use media_player.Edits.Operation.{Operation, OperationName, name_of}
use media_player.Edits.Rules.{Frame, operation_order}
use media_player.Edits.Checking.{same_name, named, in_order, ordered, check_edit_operations}
use media_player.Edits.Filters.{filter_chain}

-- Two lists of operations that differ by exchanges of neighbours with different names: any two
-- orders of a request that names no operation twice.
pub data Reordered : List Operation → List Operation → Type 0 where
  done : Reordered [] []
  keep : {xs ys : List Operation} (op : Operation) → Reordered xs ys → Reordered (op ∷ xs) (op ∷ ys)
  exchange :
      (a b : Operation) (xs : List Operation)
      → same_name (name_of a) (name_of b) ≡ false
      → Reordered (a ∷ b ∷ xs) (b ∷ a ∷ xs)
  followed : {xs ys zs : List Operation} → Reordered xs ys → Reordered ys zs → Reordered xs zs

named-Reordered :
    {xs ys : List Operation} → Reordered xs ys → (n : OperationName) → named xs n ≡ named ys n
unfolding named
named-Reordered done n = refl
named-Reordered (keep op r) n = ground (arith, named-Reordered r n)
named-Reordered (exchange a b xs differ) n = ground arith
named-Reordered (followed r s) n = named-Reordered r n ∙ named-Reordered s n

in_order-same :
    (f g : OperationName → Option Operation)
    → ((n : OperationName) → f n ≡ g n)
    → (ns : List OperationName) → in_order f ns ≡ in_order g ns
in_order-same f g same [] = refl
in_order-same f g same (n ∷ ns) = ground (arith, same n, in_order-same f g same ns)

ordered-Reordered : {xs ys : List Operation} → Reordered xs ys → ordered xs ≡ ordered ys
unfolding ordered
ordered-Reordered {xs} {ys} r =
    in_order-same (named xs) (named ys) (named-Reordered r) operation_order

-- The order in which a request lists its operations changes neither the answer of the rules nor
-- the filters: what is accepted, which error is raised and the chain that the worker runs depend
-- on the operations alone.
pub requests_any_order :
    {xs ys : List Operation} (r : Reordered xs ys) (h w : Option ℕ) (frame : Frame)
    → (check_edit_operations xs h w ≡ check_edit_operations ys h w)
      × (filter_chain xs frame ≡ filter_chain ys frame)
unfolding check_edit_operations filter_chain
requests_any_order {xs} {ys} r h w frame =
    (rw (ordered-Reordered r, named-Reordered r OperationName.convert), rw (ordered-Reordered r))
