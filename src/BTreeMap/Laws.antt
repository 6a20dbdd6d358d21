-- ===== src/BTreeMap/Laws.antt =====
-- Lookups, sums, predicates and the order of the keys under `insert` and `remove`.
use Prim.Native.Nat.{Ordering}
use Prim.Native.String.{compare}
use text.Mathlib.TextPositions.{compare_refl}
use text.Mathlib.TextEquality.{path_by_compare}
use wasm_vault.BTreeMap.Order.{compare_trans, compare_flip}
use wasm_vault.BTreeMap.Defs.{BTreeMap, get, insert, remove, IsAscending}
use wasm_vault.Prelude.{
  ℕ, ◌+◌, String, ◌≡◌, refl, false, none, some, [], ◌∷◌, str_eq, eq_iff, if◌then◌else◌, All,
  All-map, All-IsIn, IsIn, inl, inr, length, sum_of, arith,
}

module _ {ℓ} {V : Type ℓ} where
  pub get-insert :
      (k q : String) (v : V) (m : BTreeMap V)
      → get q (insert k v m) ≡ (if str_eq q k then some v else get q m)
  unfolding get insert
  get-insert k q v [] = refl
  get-insert k q v ((j, w) ∷ m) =
      ground (arith, eq_iff q j, eq_iff k j, eq_iff q k, get-insert k q v m)

  pub get-remove_ne :
      (k q : String) (m : BTreeMap V) → str_eq q k ≡ false → get q (remove k m) ≡ get q m
  unfolding get remove
  get-remove_ne k q [] h = refl
  get-remove_ne k q ((j, w) ∷ m) h =
      ground (arith, eq_iff q j, eq_iff k j, eq_iff q k, get-remove_ne k q m)

  pub get-remove_none : (k q : String) (m : BTreeMap V) → get q m ≡ none → get q (remove k m) ≡ none
  unfolding get remove
  get-remove_none k q [] h = refl
  get-remove_none k q ((j, w) ∷ m) h = ground (arith, get-remove_none k q m)

  pub remove-insert :
      (k : String) (v : V) (m : BTreeMap V) → get k m ≡ none → remove k (insert k v m) ≡ m
  unfolding get insert remove
  remove-insert k v [] h = ground (arith, compare_refl k)
  remove-insert k v ((j, w) ∷ m) h = ground (arith, compare_refl k, remove-insert k v m)

  -- A key below every other is not among them.
  pub get_below :
      (k : String) (m : BTreeMap V)
      → All (λ (e : String × V). compare k e.0 ≡ Ordering.lt) m
      → get k m ≡ none
  unfolding get
  get_below k [] h = refl
  get_below k ((j, w) ∷ m) h = ground (arith, get_below k m h.1)

  pub get-remove_self : (k : String) (m : BTreeMap V) → IsAscending m → get k (remove k m) ≡ none
  unfolding get remove
  get-remove_self k [] h = refl
  get-remove_self k ((j, w) ∷ m) h =
      ground (arith, path_by_compare k j, get_below k m, get_below j m h.0, get-remove_self k m h.1)

  pub length-insert :
      (k : String) (v : V) (m : BTreeMap V) → get k m ≡ none → length (insert k v m) ≡ length m + 1
  unfolding get insert
  length-insert k v [] h = refl
  length-insert k v ((j, w) ∷ m) h = ground (arith, length-insert k v m)

  pub length-remove :
      (k : String) (v : V) (m : BTreeMap V) → get k m ≡ some v → length (remove k m) + 1 ≡ length m
  unfolding get remove
  length-remove k v [] h = ground arith
  length-remove k v ((j, w) ∷ m) h = ground (arith, length-remove k v m)

  pub All-insert {κ} :
      (P : String × V → Type κ) (k : String) (v : V) (m : BTreeMap V)
      → P (k, v)
      → All P m
      → All P (insert k v m)
  unfolding insert
  All-insert P k v [] p h = (p, tt)
  All-insert P k v ((j, w) ∷ m) p h = ground (arith, All-insert P k v m p h.1)

  pub All-remove {κ} :
      (P : String × V → Type κ) (k : String) (m : BTreeMap V) → All P m → All P (remove k m)
  unfolding remove
  All-remove P k [] h = tt
  All-remove P k ((j, w) ∷ m) h = ground (arith, All-remove P k m h.1)

  pub All-get {κ} :
      (P : V → Type κ) (k : String) (v : V) (m : BTreeMap V)
      → All (λ (e : String × V). P e.1) m
      → get k m ≡ some v
      → P v
  unfolding get
  All-get P k v [] h e = absurd (ground arith)
  All-get P k v ((j, w) ∷ m) h e = ground (arith, All-get P k v m h.1)

  pub sum_of-insert :
      (f : String × V → ℕ) (k : String) (v : V) (m : BTreeMap V)
      → get k m ≡ none
      → sum_of f (insert k v m) ≡ sum_of f m + f (k, v)
  unfolding get insert
  sum_of-insert f k v [] h = omega arith
  sum_of-insert f k v ((j, w) ∷ m) h = ground (arith, sum_of-insert f k v m)

  pub sum_of-remove :
      (f : V → ℕ) (k : String) (v : V) (m : BTreeMap V)
      → get k m ≡ some v
      → sum_of (λ e. f e.1) (remove k m) + f v ≡ sum_of (λ (e : String × V). f e.1) m
  unfolding get remove
  sum_of-remove f k v [] h = ground arith
  sum_of-remove f k v ((j, w) ∷ m) h = ground (arith, sum_of-remove f k v m)

  below_trans :
      (k j : String) (m : BTreeMap V)
      → compare k j ≡ Ordering.lt
      → All (λ (e : String × V). compare j e.0 ≡ Ordering.lt) m
      → All (λ (e : String × V). compare k e.0 ≡ Ordering.lt) m
  below_trans k j m p = All-map (λ e. compare_trans k j e.0 p) m

  pub insert-IsAscending :
      (k : String) (v : V) (m : BTreeMap V) → IsAscending m → IsAscending (insert k v m)
  unfolding insert
  insert-IsAscending k v [] h = (tt, tt)
  insert-IsAscending k v ((j, w) ∷ m) h = ground (
    arith,
    compare_flip k j,
    path_by_compare k j,
    insert-IsAscending k v m h.1,
    All-insert (λ (e : String × V). compare j e.0 ≡ Ordering.lt) k v m,
    λ (p : compare k j ≡ Ordering.lt). below_trans k j m p h.0,
  )

  pub remove-IsAscending : (k : String) (m : BTreeMap V) → IsAscending m → IsAscending (remove k m)
  unfolding remove
  remove-IsAscending k [] h = tt
  remove-IsAscending k ((j, w) ∷ m) h = ground (
    arith,
    remove-IsAscending k m h.1,
    All-remove (λ (e : String × V). compare j e.0 ≡ Ordering.lt) k m h.0,
  )

-- An entry of an ascending map is what its key finds.
pub get_of_IsIn :
    {V : Type 0} (k : String) (v : V) (m : BTreeMap V)
    → IsAscending m
    → IsIn (k, v) m
    → get k m ≡ some v
unfolding get
get_of_IsIn k v [] h i = absurd i
get_of_IsIn k v ((j, w) ∷ m) h (inl e) = ground (arith, compare_refl k)
get_of_IsIn k v ((j, w) ∷ m) h (inr i) =
    let below : compare j k ≡ Ordering.lt =
      All-IsIn (λ e. compare j e.0 ≡ Ordering.lt) (k, v) m h.0 i in
    ground (arith, path_by_compare k j, compare_refl j, compare_refl k, get_of_IsIn k v m h.1 i)
