-- ===== src/Query/Sorting.antt =====
-- The order of the counter offers in the answer of src/contract/query.rs.
use Prim.Native.Nat.{Ordering}
use Prim.Native.String.{compare}
use mathlib.Core.List.{Perm}
use mathlib.Core.List.Perm
use wasm_vault.Prelude.{
  ℕ, ◌<◌, ◌≡◌, ◌≢◌, ◌⊎◌, inl, inr, String, none, some, List, [], ◌∷◌, map, arith, eq_iff, All,
  All-map, sym, subst, if◌then◌else◌, is_empty,
}
use wasm_vault.Types.{CounterOffer, InfoResponse}
use wasm_vault.Errors.{ok}
use wasm_vault.BTreeMap.Order.{compare_flip, compare_trans}
use wasm_vault.Storage.{OfferMap, Storage}
use wasm_vault.Query.{compare_offers, insert_sorted, sort_offers, collect_info, to_counter_offer}

abbrev amount_of : CounterOffer → ℕ
amount_of offer = offer.open_interest.liquidity_coin.amount

-- More liquidity, or the same and an address that is not greater.
abbrev pub IsBefore : CounterOffer → CounterOffer → Type 0
IsBefore a b =
    (amount_of b < amount_of a)
    ⊎ ((amount_of a ≡ amount_of b) × (compare a.proposer b.proposer ≢ Ordering.gt))

-- Each offer is before every later one.
abbrev pub IsRanked : List CounterOffer → Type 0
IsRanked [] = Unit
IsRanked (x ∷ xs) = All (IsBefore x) xs × IsRanked xs

compare_offers-IsBefore : (a b : CounterOffer) → compare_offers a b ≢ Ordering.gt → IsBefore a b
unfolding compare_offers
compare_offers-IsBefore a b h = ground arith

compare_offers-IsAfter : (a b : CounterOffer) → compare_offers a b ≡ Ordering.gt → IsBefore b a
unfolding compare_offers
compare_offers-IsAfter a b h = ground (arith, compare_flip a.proposer b.proposer)

compare-ne-gt_trans :
    (r s t : String)
    → compare r s ≢ Ordering.gt
    → compare s t ≢ Ordering.gt
    → compare r t ≢ Ordering.gt
compare-ne-gt_trans r s t p q = ground (arith, compare_trans r s t, eq_iff r s, eq_iff s t)

IsBefore-trans : (a b c : CounterOffer) → IsBefore a b → IsBefore b c → IsBefore a c
IsBefore-trans a b c p q = ground (arith, compare-ne-gt_trans a.proposer b.proposer c.proposer)

insert_sorted-cases :
    (x y : CounterOffer) (ys : List CounterOffer)
    → ((insert_sorted x (y ∷ ys) ≡ x ∷ y ∷ ys) × IsBefore x y)
      ⊎ ((insert_sorted x (y ∷ ys) ≡ y ∷ insert_sorted x ys) × IsBefore y x)
unfolding insert_sorted
insert_sorted-cases x y ys = ground (arith, compare_offers-IsBefore x y, compare_offers-IsAfter x y)

insert_sorted-All :
    (P : CounterOffer → Type 0) (x : CounterOffer) (xs : List CounterOffer)
    → P x
    → All P xs
    → All P (insert_sorted x xs)
unfolding insert_sorted
insert_sorted-All P x [] px h = (px, tt)
insert_sorted-All P x (y ∷ ys) px h = ground (arith, insert_sorted-All P x ys px h.1)

insert_sorted-IsRanked :
    (x : CounterOffer) (xs : List CounterOffer) → IsRanked xs → IsRanked (insert_sorted x xs)
unfolding insert_sorted
insert_sorted-IsRanked x [] h = (tt, tt)
insert_sorted-IsRanked x (y ∷ ys) h = elim (insert_sorted-cases x y ys) [
  | inl (front, before) ↦
      subst IsRanked (sym front)
        ((before, All-map (λ c q. IsBefore-trans x y c before q) ys h.0), h)
  | inr (behind, after) ↦
      subst IsRanked (sym behind)
        (insert_sorted-All (IsBefore y) x ys after h.0, insert_sorted-IsRanked x ys h.1)
]

sort_offers-IsRanked : (xs : List CounterOffer) → IsRanked (sort_offers xs)
unfolding sort_offers
sort_offers-IsRanked [] = tt
sort_offers-IsRanked (x ∷ xs) = insert_sorted-IsRanked x (sort_offers xs) (sort_offers-IsRanked xs)

insert_sorted-Perm :
    (x : CounterOffer) (xs : List CounterOffer) → Perm (insert_sorted x xs) (x ∷ xs)
unfolding insert_sorted
insert_sorted-Perm x [] = Perm.rfl
insert_sorted-Perm x (y ∷ ys) = elim (insert_sorted-cases x y ys) [
  | inl (front, _) ↦ subst (λ zs. Perm zs (x ∷ y ∷ ys)) (sym front) Perm.rfl
  | inr (behind, _) ↦
      subst (λ zs. Perm zs (x ∷ y ∷ ys)) (sym behind)
        (Perm.trans (Perm.cons y (insert_sorted-Perm x ys)) (Perm.swap x y ys))
]

sort_offers-Perm : (xs : List CounterOffer) → Perm (sort_offers xs) xs
unfolding sort_offers
sort_offers-Perm [] = Perm.rfl
sort_offers-Perm (x ∷ xs) =
    Perm.trans (insert_sorted-Perm x (sort_offers xs)) (Perm.cons x (sort_offers-Perm xs))

module _ {M : Type 0} ⦃offer_map : OfferMap M⦄ where
  -- The offers in an answer are ranked, by more liquidity first and then by the address, and are a
  -- permutation of the offers that the vault holds; an empty list of them is given as `none`. The
  -- owner, the lender and the open interest are those that the vault stores.
  pub collect_info-IsRanked :
      (s : Storage M) (response : InfoResponse)
      → collect_info s ≡ ok response
      → ((offers : List CounterOffer) × IsRanked offers
          × Perm offers (map to_counter_offer (offer_map.range s.counter_offers))
          × (response.counter_offers ≡ (if is_empty offers then none else some offers)))
        × (s.owner ≡ some response.owner)
        × (s.lender ≡ some response.lender)
        × (s.open_interest ≡ some response.open_interest)
  unfolding collect_info
  collect_info-IsRanked s response h =
      let held = map to_counter_offer (offer_map.range s.counter_offers) in
      (
        (sort_offers held, sort_offers-IsRanked held, sort_offers-Perm held, ground arith),
        ground arith,
        ground arith,
        ground arith,
      )
