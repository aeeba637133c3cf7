-- ===== src/Dict.antt =====
-- Objects used as dictionaries (`Object.create(null)`, `{}`) in the client, as association lists in
-- the order of insertion: `o[k]`, `o[k] = v`, `delete o[k]` and `Object.keys(o)`.
use goclipboard.Common.{◌≡◌, refl, Option, none, some, List, [], ◌∷◌, ◌++◌, arith, if◌then◌else◌}
use goclipboard.Text.{Text, ◌===◌, ===_iff}

abbrev pub Dict {ℓ} : Type ℓ → Type ℓ
Dict V = List (Text × V)

module _ {ℓ} {V : Type ℓ} where
  unfoldable pub get : Text → Dict V → Option V
  get k [] = none
  get k ((j, v) ∷ d) = if j === k then some v else get k d

  unfoldable pub set : Text → V → Dict V → Dict V
  set k v [] = (k, v) ∷ []
  set k v ((j, w) ∷ d) = if j === k then (k, v) ∷ d else (j, w) ∷ set k v d

  pub remove : Text → Dict V → Dict V
  remove k [] = []
  remove k ((j, w) ∷ d) = if j === k then remove k d else (j, w) ∷ remove k d

  unfoldable pub keys : Dict V → List Text
  keys [] = []
  keys ((j, w) ∷ d) = j ∷ keys d

  pub get-set :
      (j k : Text) (v : V) (d : Dict V) → get j (set k v d) ≡ (if k === j then some v else get j d)
  unfolding get set
  get-set j k v [] = refl
  get-set j k v ((i, w) ∷ d) =
      ground (arith, ===_iff k j, ===_iff i k, ===_iff i j, get-set j k v d)

  pub get-remove :
      (j k : Text) (d : Dict V) → get j (remove k d) ≡ (if k === j then none else get j d)
  unfolding get remove
  get-remove j k [] = ground arith
  get-remove j k ((i, w) ∷ d) =
      ground (arith, ===_iff k j, ===_iff i k, ===_iff i j, get-remove j k d)

  pub keys-set_new :
      (k : Text) (v : V) (d : Dict V) → get k d ≡ none → keys (set k v d) ≡ keys d ++ k ∷ []
  unfolding get set keys
  keys-set_new k v [] h = refl
  keys-set_new k v ((i, w) ∷ d) h = ground (arith, keys-set_new k v d)

  pub keys-set_old :
      (k : Text) (v w : V) (d : Dict V) → get k d ≡ some w → keys (set k v d) ≡ keys d
  unfolding get set keys
  keys-set_old k v w [] h = cc
  keys-set_old k v w ((i, x) ∷ d) h = ground (arith, keys-set_old k v w d, ===_iff i k)
