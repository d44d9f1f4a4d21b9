-- ===== src/Base/Dict.antt =====
-- A map with text keys: `std::collections::HashMap` and `dashmap::DashMap`, which have the same
-- operations. The order of the entries is that of their insertion; the program relies on none.
use Prim.Native.String.{String}
use mathlib.Core.Path.{◌≡◌, refl}
use mathlib.Core.Bool.{Bool, true, false}
use mathlib.Core.Option
use mathlib.Core.Option.{Option, none, some}
use mathlib.Core.List.{List, [], ◌∷◌}
use native.Mathlib.Omega.{arith}
use text.Mathlib.Text.{◌==◌ as str_eq}
use text.Mathlib.TextEquality.{eq_iff}
use rtain.Base.Tests.{if◌then◌else◌}

abbrev pub Dict {ℓ} : Type ℓ → Type ℓ
Dict V = List (String × V)

module _ {ℓ} {V : Type ℓ} where
  unfoldable pub get : String → Dict V → Option V
  get k [] = none
  get k ((j, v) ∷ d) = if str_eq j k then some v else get k d

  unfoldable pub insert : String → V → Dict V → Dict V
  insert k v [] = (k, v) ∷ []
  insert k v ((j, w) ∷ d) = if str_eq j k then (k, v) ∷ d else (j, w) ∷ insert k v d

  unfoldable pub remove : String → Dict V → Dict V
  remove k [] = []
  remove k ((j, w) ∷ d) = let rest = remove k d in if str_eq j k then rest else (j, w) ∷ rest

  -- `get_mut` and a change of what it points to.
  unfoldable pub update : String → (V → V) → Dict V → Dict V
  update k f [] = []
  update k f ((j, w) ∷ d) = if str_eq j k then (j, f w) ∷ d else (j, w) ∷ update k f d

  unfoldable pub values : Dict V → List V
  values [] = []
  values ((k, v) ∷ d) = v ∷ values d

  unfoldable pub contains_key : String → Dict V → Bool
  unfolding get
  contains_key k d = elim (get k d) [ none ↦ false | some v ↦ true ]

  pub get-insert :
      (k j : String) (v : V) (d : Dict V)
      → get j (insert k v d) ≡ (if str_eq k j then some v else get j d)
  unfolding get insert
  get-insert k j v [] = refl
  get-insert k j v ((i, w) ∷ d) =
      ground (arith, get-insert k j v d, eq_iff i k, eq_iff i j, eq_iff k j)

  pub get-remove :
      (k j : String) (d : Dict V) → get j (remove k d) ≡ (if str_eq k j then none else get j d)
  unfolding get remove
  get-remove k j [] = ground arith
  get-remove k j ((i, w) ∷ d) = ground (arith, get-remove k j d, eq_iff i k, eq_iff i j, eq_iff k j)

  pub get-update :
      (k j : String) (f : V → V) (d : Dict V)
      → get j (update k f d) ≡ (if str_eq k j then Option.map f (get j d) else get j d)
  unfolding get update
  get-update k j f [] = ground arith
  get-update k j f ((i, w) ∷ d) =
      ground (arith, get-update k j f d, eq_iff i k, eq_iff i j, eq_iff k j)

pub get-nil {ℓ} : {V : Type ℓ} (k : String) → get {V = V} k [] ≡ none
unfolding get
get-nil k = refl

pub ruleset dict_laws = (get-nil, get-insert, get-remove, get-update)
