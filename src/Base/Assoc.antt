-- ===== src/Base/Assoc.antt =====
-- A map as an association list over keys with decidable equality. `get`, `insert`, `remove`
-- stand for the operations of a hash map that the sources use.
use mathlib.Core.List.{List, [], ◌∷◌}
use mathlib.Core.Logic.{◌≢◌, ite}
use mathlib.Core.Option.{Option, none, some}
use mathlib.Core.Path.{◌≡◌, refl}
use native.Mathlib.Omega.{arith}
use zima_scope.Base.Lists.{All}

module _ {ℓ} {K V : Type ℓ} (dec : Discrete K) where
  unfoldable pub get : K → List (K × V) → Option V
  get k [] = none
  get k ((j, v) ∷ m) = ite (dec j k) (some v) (get k m)

  unfoldable pub insert : K → V → List (K × V) → List (K × V)
  insert k v [] = (k, v) ∷ []
  insert k v ((j, w) ∷ m) = ite (dec j k) ((k, v) ∷ m) ((j, w) ∷ insert k v m)

  unfoldable pub remove : K → List (K × V) → List (K × V)
  remove k [] = []
  remove k ((j, w) ∷ m) = ite (dec j k) (remove k m) ((j, w) ∷ remove k m)

  pub get-insert_self : (k : K) (v : V) (m : List (K × V)) → get k (insert k v m) ≡ some v
  unfolding get insert
  get-insert_self k v [] = ground arith
  get-insert_self k v ((j, w) ∷ m) = ground (arith, get-insert_self k v m)

  pub get-insert_ne : (k q : K) (v : V) (m : List (K × V)) → q ≢ k → get q (insert k v m) ≡ get q m
  unfolding get insert
  get-insert_ne k q v [] h = ground arith
  get-insert_ne k q v ((j, w) ∷ m) h = ground (arith, get-insert_ne k q v m)

  pub get-remove_self : (k : K) (m : List (K × V)) → get k (remove k m) ≡ none
  unfolding get remove
  get-remove_self k [] = refl
  get-remove_self k ((j, w) ∷ m) = ground (arith, get-remove_self k m)

  pub get-remove_ne : (k q : K) (m : List (K × V)) → q ≢ k → get q (remove k m) ≡ get q m
  unfolding get remove
  get-remove_ne k q [] h = refl
  get-remove_ne k q ((j, w) ∷ m) h = ground (arith, get-remove_ne k q m)

  module _ {κ} (P : K × V → Type κ) where
    pub All-insert : (k : K) (v : V) (m : List (K × V)) → P (k, v) → All P m → All P (insert k v m)
    unfolding insert
    All-insert k v [] p all = (p, tt)
    All-insert k v ((j, w) ∷ m) p all = ground (arith, All-insert k v m p all.1)

    pub All-remove : (k : K) (m : List (K × V)) → All P m → All P (remove k m)
    unfolding remove
    All-remove k [] all = tt
    All-remove k ((j, w) ∷ m) all = ground (arith, All-remove k m all.1)

    pub All-get : (k : K) (v : V) (m : List (K × V)) → All P m → get k m ≡ some v → P (k, v)
    unfolding get
    All-get k v [] all found = cc
    All-get k v ((j, w) ∷ m) all found = ground (arith, All-get k v m all.1)

  pub remove_of_none : (k : K) (m : List (K × V)) → get k m ≡ none → remove k m ≡ m
  unfolding get remove
  remove_of_none k [] absent = refl
  remove_of_none k ((j, w) ∷ m) absent = ground (arith, remove_of_none k m)

  pub get-remove_absent : (k q : K) (m : List (K × V)) → get q m ≡ none → get q (remove k m) ≡ none
  unfolding get remove
  get-remove_absent k q [] absent = refl
  get-remove_absent k q ((j, w) ∷ m) absent = ground (arith, get-remove_absent k q m)

  pub nil_of_get : (m : List (K × V)) → ((k : K) → get k m ≡ none) → m ≡ []
  unfolding get
  nil_of_get [] absent = refl
  nil_of_get ((j, w) ∷ m) absent = ground (arith, absent j)
