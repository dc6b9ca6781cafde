-- ===== src/Go/Map.antt =====
-- Go maps with string keys, as association lists that hold a key at most once. An entry is replaced
-- where it stands and a new one goes to the end; Go leaves the order of iteration open.
use binboi_go.Base.{◌≤◌, ◌+◌, ◌≡◌, ◌≢◌, refl, List, [], ◌∷◌, Option, none, some, arith, ite, length}
use binboi_go.Go.Text.{Str, str_discrete}

abbrev pub Map {ℓ} : Type ℓ → Type ℓ
Map V = List (Str × V)

module _ {ℓ} {V : Type ℓ} where
  -- v, ok := m[k]
  unfoldable pub get : Map V → Str → Option V
  get [] k = none
  get ((j, v) ∷ m) k = ite (str_discrete j k) (some v) (get m k)

  -- m[k] = v
  unfoldable pub put : Map V → Str → V → Map V
  put [] k v = (k, v) ∷ []
  put ((j, w) ∷ m) k v = ite (str_discrete j k) ((k, v) ∷ m) ((j, w) ∷ put m k v)

  -- delete(m, k)
  unfoldable pub delete : Map V → Str → Map V
  delete [] k = []
  delete ((j, w) ∷ m) k = let rest = delete m k in ite (str_discrete j k) rest ((j, w) ∷ rest)

  -- The map with no entry.
  abbrev pub empty : Map V
  empty = []

  pub get-put :
      (m : Map V) (k : Str) (v : V) (j : Str)
      → get (put m k v) j ≡ ite (str_discrete k j) (some v) (get m j)
  unfolding get put
  get-put [] k v j = refl
  get-put ((i, w) ∷ m) k v j = ground (arith, get-put m k v j)

  pub get-delete :
      (m : Map V) (k j : Str) → get (delete m k) j ≡ ite (str_discrete k j) none (get m j)
  unfolding get delete
  get-delete [] k j = ground arith
  get-delete ((i, w) ∷ m) k j = ground (arith, get-delete m k j)

  pub get-put_self : (m : Map V) (k : Str) (v : V) → get (put m k v) k ≡ some v
  get-put_self m k v = ground (arith, get-put m k v k)

  pub get-put_ne : (m : Map V) (k : Str) (v : V) (j : Str) → k ≢ j → get (put m k v) j ≡ get m j
  get-put_ne m k v j h = ground (arith, get-put m k v j)

  -- `put` on a key that is not there adds one entry, on one that is there none.
  pub length-put_new :
      (m : Map V) (k : Str) (v : V) → get m k ≡ none → length (put m k v) ≡ length m + 1
  unfolding get put
  length-put_new [] k v h = omega arith
  length-put_new ((i, w) ∷ m) k v h = ground (arith, length-put_new m k v)

  pub length-put_old :
      (m : Map V) (k : Str) (v w : V) → get m k ≡ some w → length (put m k v) ≡ length m
  unfolding get put
  length-put_old [] k v w h = ground arith
  length-put_old ((i, u) ∷ m) k v w h = ground (arith, length-put_old m k v w)

  pub length-put-le : (m : Map V) (k : Str) (v : V) → length (put m k v) ≤ length m + 1
  unfolding put
  length-put-le [] k v = omega arith
  length-put-le ((i, w) ∷ m) k v = ground (arith, length-put-le m k v)

  pub length-delete-le : (m : Map V) (k : Str) → length (delete m k) ≤ length m
  unfolding delete
  length-delete-le [] k = omega arith
  length-delete-le ((i, w) ∷ m) k = ground (arith, length-delete-le m k)

pub ruleset map_laws = (get-put, get-delete)
