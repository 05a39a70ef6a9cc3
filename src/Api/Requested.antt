-- ===== src/Api/Requested.antt =====
-- app/schemas/edit.py with app/services/media_rules.py: a request that the schema takes is applied as
-- it was sent.
use media_player.Prelude.{
  ℕ, ◌≡◌, refl, sym, ap, ◌∙◌, true, false, ◌&&◌, none, some, List, [], ◌∷◌, ◌++◌, arith, ◌==◌, any,
  Bool-cases, inl, inr, ==_refl, ==_iff, is_some,
}
use media_player.Edits.Operation.{Operation, OperationName, name_of}
use media_player.Edits.Checking.{same_name, named, index}
use media_player.Edits.Requests.{is_edit_request, each_once, names}
use media_player.Api.EditRoute.{operation}

unnamed : (ops : List Operation) (n : OperationName) → names n ops ≡ false → named ops n ≡ none
unfolding named
unnamed [] n h = refl
unnamed (op ∷ ops) n h = ground (arith, unnamed ops n)

names_same :
    (m n : OperationName) (ops : List Operation) → same_name m n ≡ true → names m ops ≡ names n ops
names_same m n ops h =
    ap (λ (k : ℕ). any (λ op. index (name_of op) == k) ops) ((==_iff (index m) (index n)).0 h)

first_is_last :
    (ops : List Operation) (n : OperationName)
    → each_once ops ≡ true
    → operation n ops ≡ named ops n
unfolding named operation
first_is_last [] n h = refl
first_is_last (op ∷ ops) n h = elim (Bool-cases (same_name (name_of op) n)) [
  | inl same ↦ ground (arith, names_same (name_of op) n ops same, unnamed ops n, same)
  | inr other ↦ ground (arith, first_is_last ops n, other)
]

named-kept :
    (xs : List Operation) (op : Operation) (ys : List Operation)
    → each_once (xs ++ (op ∷ ys)) ≡ true
    → named (xs ++ (op ∷ ys)) (name_of op) ≡ some op
unfolding named
named-kept [] op ys h = ground (arith, unnamed ys (name_of op), ==_refl (index (name_of op)))
named-kept (x ∷ xs) op ys h = ground (arith, named-kept xs op ys)

-- In a request that the schema takes, every operation is the one that the rules and the worker find
-- under its name, the first of a name that the API looks up is that one too, and of the two scales
-- at most one is found.
pub is_edit_request-kept :
    (operations : List Operation)
    → is_edit_request operations ≡ true
    → ((xs ys : List Operation) (op : Operation)
        → operations ≡ xs ++ (op ∷ ys)
        → named operations (name_of op) ≡ some op)
      × ((n : OperationName) → operation n operations ≡ named operations n)
      × ((is_some (named operations OperationName.downscale)
            && is_some (named operations OperationName.upscale))
          ≡ false)
unfolding is_edit_request
is_edit_request-kept operations h =
    let once : each_once operations ≡ true = ground arith in
    (
      λ xs ys op e.
          ap (λ ops. named ops (name_of op)) e ∙ named-kept xs op ys (sym (ap each_once e) ∙ once),
      λ n. first_is_last operations n once,
      ground (
        arith,
        unnamed operations OperationName.downscale,
        unnamed operations OperationName.upscale,
      ),
    )
