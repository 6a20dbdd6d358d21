-- ===== src/BTreeMap/Defs.antt =====
-- `std::collections::BTreeMap` with text keys, as its entries in ascending order of the keys.
use Prim.Native.Nat.{Ordering}
use Prim.Native.String.{compare}
use wasm_vault.Prelude.{String, ◌≡◌, Option, none, some, List, [], ◌∷◌, str_eq, if◌then◌else◌, All}

abbrev pub BTreeMap {ℓ} : Type ℓ → Type ℓ
BTreeMap V = List (String × V)

module _ {ℓ} {V : Type ℓ} where
  unfoldable pub get : String → BTreeMap V → Option V
  get k [] = none
  get k ((j, v) ∷ m) = if str_eq k j then some v else get k m

  unfoldable pub insert : String → V → BTreeMap V → BTreeMap V
  insert k v [] = (k, v) ∷ []
  insert k v ((j, w) ∷ m) = elim (compare k j) [
    | Ordering.lt ↦ (k, v) ∷ (j, w) ∷ m
    | Ordering.eq ↦ (k, v) ∷ m
    | Ordering.gt ↦ (j, w) ∷ insert k v m
  ]

  unfoldable pub remove : String → BTreeMap V → BTreeMap V
  remove k [] = []
  remove k ((j, v) ∷ m) = if str_eq k j then m else (j, v) ∷ remove k m

  -- Every key comes before all the later ones.
  abbrev pub IsAscending : BTreeMap V → Type 0
  IsAscending [] = Unit
  IsAscending ((k, v) ∷ m) = All (λ (e : String × V). compare k e.0 ≡ Ordering.lt) m × IsAscending m
