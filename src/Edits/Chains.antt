-- ===== src/Edits/Chains.antt =====
-- The filters of an accepted request (app/worker/edit_ops) and the rules that accept it
-- (app/services/media_rules.py).
use media_player.Prelude.{
  ℕ, ◌≡◌, refl, ◌∙◌, sym, Bool, true, false, not, ◌&&◌, Option, none, some, List, [], ◌∷◌, ◌++◌,
  arith, if◌then◌else◌, any, all,
}
use media_player.Prelude.Text.{null}
use media_player.Edits.Operation.{Operation, OperationName, Axis, name_of}
use media_player.Edits.Rules.{
  Label, RuleError, not_with_mp3, Checked, ok, refused, ◌>>=◌, Frame, operation_order, check,
  changes_picture, label,
}
use media_player.Edits.Checking.{
  ordered, in_order, named, check_all, check_edit_operations, picture_labels, same_label, is_mp3,
}
use media_player.Edits.Filters.{
  build, rotate_filters, is_key_error, FilterChain, is_mapped, extend, made, after_check,
  chain_from, filter_chain,
}
use media_player.Edits.Requests.{valid_params}

-- The chain that the steps add, in their order.
unfoldable pub collect : FilterChain → List Operation → FilterChain
collect c [] = c
collect c (op ∷ ops) = collect (extend c (is_mapped (name_of op)) (build op)) ops

-- The schema admits no degrees that the dict of turns lacks.
turns :
    (degrees : ℕ)
    → valid_params (Operation.rotate degrees) ≡ true
    → is_key_error (rotate_filters degrees) ≡ false
unfolding valid_params
turns degrees v = ground (arith, v)

valid-built : (op : Operation) → valid_params op ≡ true → is_key_error (build op) ≡ false
unfolding build
valid-built (Operation.rotate degrees) v = turns degrees v
valid-built (Operation.flip Axis.horizontal) v = refl
valid-built (Operation.flip Axis.vertical) v = refl
valid-built (Operation.clip _ _) v = refl
valid-built (Operation.crop _ _ _ _) v = refl
valid-built (Operation.downscale _) v = refl
valid-built (Operation.upscale _) v = refl
valid-built (Operation.adjust _ _ _ _) v = refl
valid-built (Operation.preset _) v = refl
valid-built (Operation.speed _) v = refl
valid-built (Operation.convert _) v = refl

chain_from-collect :
    (c : FilterChain) (ops : List Operation) (f g : Frame)
    → all valid_params ops ≡ true
    → check_all ops f ≡ ok g
    → chain_from c ops f ≡ made (collect c ops)
unfolding chain_from collect check_all
chain_from-collect c [] f g v h = refl
chain_from-collect c (op ∷ ops) f g v h = ground (
  arith,
  valid-built op,
  v,
  go (check op f)
      (λ f' e.
        chain_from-collect (extend c (is_mapped (name_of op)) (build op)) ops f' g
          (ground (arith, v)) e)
      h,
)
  where
    go :
        (x : Checked Frame)
        → ((f' : Frame)
            → check_all ops f' ≡ ok g
            → chain_from (extend c (is_mapped (name_of op)) (build op)) ops f'
              ≡ made (collect (extend c (is_mapped (name_of op)) (build op)) ops))
        → (x >>= check_all ops) ≡ ok g
        → after_check x (chain_from (extend c (is_mapped (name_of op)) (build op)) ops)
          ≡ made (collect (extend c (is_mapped (name_of op)) (build op)) ops)
    go (ok f') k e = k f' e
    go (refused r) k e = ground arith

-- Putting the operations in order loses no guarantee on them.
named-valid :
    (ops : List Operation) (n : OperationName)
    → all valid_params ops ≡ true
    → elim (named ops n) [ none ↦ true | some op ↦ valid_params op ] ≡ true
unfolding named
named-valid [] n v = refl
named-valid (op ∷ ops) n v = ground (arith, v, named-valid ops n)

in_order-valid :
    (ops : List Operation) (ns : List OperationName)
    → all valid_params ops ≡ true
    → all valid_params (in_order (named ops) ns) ≡ true
in_order-valid ops [] v = refl
in_order-valid ops (n ∷ ns) v = ground (arith, named-valid ops n v, in_order-valid ops ns v)

pub ordered-valid :
    (ops : List Operation) → all valid_params ops ≡ true → all valid_params (ordered ops) ≡ true
unfolding ordered
ordered-valid ops v = in_order-valid ops operation_order v

abbrev pub no_filters : FilterChain
no_filters = record { before_tone_map = []; after_tone_map = []; audio = [] }

-- The rule that MP3 takes no picture: whatever the frame, a request that converts to MP3 is
-- accepted only if none of its operations changes the picture.
any-null : {A : Type 0} (p : A → Bool) (xs : List A) → any p xs ≡ true → null xs ≡ false
any-null p [] h = ground arith
any-null p (x ∷ xs) h = refl

null-append : {A : Type 0} (xs : List A) (x : A) → null (xs ++ (x ∷ [])) ≡ false
null-append [] x = refl
null-append (y ∷ ys) x = refl

mp3_labels :
    (labels : List Label) (ops : List Operation)
    → null (picture_labels labels ops)
      ≡ (null labels && all (λ op. not (changes_picture (name_of op))) ops)
unfolding picture_labels
mp3_labels labels [] = ground arith
mp3_labels labels (op ∷ ops) =
    let here = label (name_of op) in
    ground (
      arith,
      mp3_labels labels ops,
      mp3_labels (labels ++ (here ∷ [])) ops,
      null-append labels here,
      any-null (same_label here) labels,
    )

gate :
    (b n : Bool) (r : RuleError) (x : Checked Frame) (g : Frame)
    → (if b && not n then refused r else x) ≡ ok g
    → (x ≡ ok g) × (b ≡ true → n ≡ true)
gate b n r x g h = ground arith

-- A request whose parameters the schema takes and that the rules accept is one that the worker can
-- build: its chain is the one of its operations in the fixed order, each adding its filters; and if it converts to MP3, none of its
-- operations changes the picture.
pub accepted_request :
    (ops : List Operation) (h w : Option ℕ) (g : Frame)
    → all valid_params ops ≡ true
    → check_edit_operations ops h w ≡ ok g
    → (filter_chain ops (record { width = w; height = h })
        ≡ made (collect no_filters (ordered ops)))
      × (is_mp3 (named ops OperationName.convert) ≡ true
          → all (λ op. not (changes_picture (name_of op))) (ordered ops) ≡ true)
unfolding check_edit_operations filter_chain
accepted_request ops h w g v a =
    let frame : Frame = record { width = w; height = h } in
    let labels = picture_labels [] (ordered ops) in
    let open_gate =
      gate (is_mp3 (named ops OperationName.convert)) (null labels) (not_with_mp3 labels)
        (check_all (ordered ops) frame) g a in
    (
      chain_from-collect no_filters (ordered ops) frame g (ordered-valid ops v) open_gate.0,
      λ m. sym (mp3_labels [] (ordered ops)) ∙ open_gate.1 m,
    )
