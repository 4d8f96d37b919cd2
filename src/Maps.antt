-- ===== src/Maps.antt =====
-- JavaScript's `Map` with text keys: the entries in the order in which their keys were first set.
pub mod Laws
use axl_raja.Prelude.{
  String, Bool, false, ◌||◌, Option, none, some, List, [], ◌∷◌, ◌==◌, if◌then◌else◌,
}

module _ {ℓ} {V : Type ℓ} where
  -- map.has(k)
  unfoldable pub has : String → List (String × V) → Bool
  has k [] = false
  has k ((j, v) ∷ m) = j == k || has k m

  -- map.get(k)
  unfoldable pub get : String → List (String × V) → Option V
  get k [] = none
  get k ((j, v) ∷ m) = if j == k then some v else get k m

  -- map.set(k, v): a known key keeps its place, a new one goes last
  unfoldable pub set : String → V → List (String × V) → List (String × V)
  set k new [] = (k, new) ∷ []
  set k new ((j, old) ∷ rest) =
      let later = set k new rest in if j == k then (j, new) ∷ rest else (j, old) ∷ later

  -- a write to the object that `map.get(k)` returned
  unfoldable pub modify : String → (V → V) → List (String × V) → List (String × V)
  modify k f [] = []
  modify k f ((j, w) ∷ m) = if j == k then (j, f w) ∷ m else (j, w) ∷ modify k f m

  -- [...map.values()]
  unfoldable pub values : List (String × V) → List V
  values [] = []
  values ((j, v) ∷ m) = v ∷ values m

  -- map.delete(k)
  unfoldable pub delete : String → List (String × V) → List (String × V)
  delete k [] = []
  delete k ((j, v) ∷ m) = let later = delete k m in if j == k then m else (j, v) ∷ later
