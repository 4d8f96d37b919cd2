-- ===== src/Maps/Laws.antt =====
-- What a reader of a map sees after a write.
use axl_raja.Prelude.{
  String, Bool, true, false, ◌||◌, Option, none, some, List, [], ◌∷◌, ◌++◌, ◌==◌, ◌≡◌, refl,
  if◌then◌else◌, arith, eq_iff,
}
use axl_raja.Maps.{has, get, set, modify, delete}

abbrev pub defined {ℓ} : {V : Type ℓ} → Option V → Bool
defined none = false
defined (some v) = true

module _ {ℓ} {V : Type ℓ} where
  pub get-set :
      (k j : String) (v : V) (m : List (String × V))
      → get j (set k v m) ≡ (if k == j then some v else get j m)
  unfolding get set
  get-set k j v [] = refl
  get-set k j v ((i, w) ∷ m) = ground (arith, eq_iff k j, eq_iff i k, eq_iff i j, get-set k j v m)

  abbrev map_option : (V → V) → Option V → Option V
  map_option f none = none
  map_option f (some v) = some (f v)

  pub get-modify :
      (k j : String) (f : V → V) (m : List (String × V))
      → get j (modify k f m) ≡ (if k == j then map_option f (get j m) else get j m)
  unfolding get modify
  get-modify k j f [] = ground arith
  get-modify k j f ((i, w) ∷ m) =
      ground (arith, eq_iff k j, eq_iff i k, eq_iff i j, get-modify k j f m)

  pub has-get : (k : String) (m : List (String × V)) → has k m ≡ defined (get k m)
  unfolding has get
  has-get k [] = refl
  has-get k ((j, v) ∷ m) = ground (arith, has-get k m)

  pub get-none_of_has : (k : String) (m : List (String × V)) → has k m ≡ false → get k m ≡ none
  get-none_of_has k m h = ground (arith, has-get k m)

  -- A new key goes last.
  pub set-new :
      (k : String) (v : V) (m : List (String × V)) → has k m ≡ false → set k v m ≡ m ++ (k, v) ∷ []
  unfolding has set
  set-new k v [] h = refl
  set-new k v ((j, w) ∷ m) h = ground (arith, set-new k v m)

  pub modify-absent :
      (k : String) (f : V → V) (m : List (String × V)) → has k m ≡ false → modify k f m ≡ m
  unfolding has modify
  modify-absent k f [] h = refl
  modify-absent k f ((j, w) ∷ m) h = ground (arith, modify-absent k f m)

  pub has-modify :
      (k j : String) (f : V → V) (m : List (String × V)) → has j (modify k f m) ≡ has j m
  unfolding has modify
  has-modify k j f [] = refl
  has-modify k j f ((i, w) ∷ m) = ground (arith, has-modify k j f m)

  pub has-append : (k : String) (m n : List (String × V)) → has k (m ++ n) ≡ (has k m || has k n)
  unfolding has
  has-append k [] n = ground arith
  has-append k ((j, w) ∷ m) n = ground (arith, has-append k m n)

  pub has-set :
      (k j : String) (v : V) (m : List (String × V)) → has j (set k v m) ≡ (k == j || has j m)
  unfolding has set
  has-set k j v [] = refl
  has-set k j v ((i, w) ∷ m) = ground (arith, has-set k j v m, eq_iff i k, eq_iff i j, eq_iff k j)

  pub has-delete :
      (k j : String) (m : List (String × V)) → (k == j) ≡ false → has j (delete k m) ≡ has j m
  unfolding has delete
  has-delete k j [] h = refl
  has-delete k j ((i, w) ∷ m) h =
      ground (arith, has-delete k j m, eq_iff i k, eq_iff i j, eq_iff k j)
