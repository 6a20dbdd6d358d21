-- ===== src/Invariant/Escrow.antt =====
-- The outstanding debt of a request, and the escrow of its counter offers.
use wasm_vault.Prelude.{
  ℕ, ◌<◌, ◌≡◌, ◌≢◌, refl, String, Option, none, some, List, [], ◌∷◌, All, arith,
}
use wasm_vault.BTreeMap
use wasm_vault.BTreeMap.{BTreeMap, get, insert, remove}
use wasm_vault.Types.{Coin, OpenInterest}
use wasm_vault.Errors.{ok}
use wasm_vault.Uint.{checked_add, checked_sub}
use wasm_vault.CounterOffer.Helpers.{Offer, liquidity, added_debt, released_debt}
use wasm_vault.Invariant.Defs.{IsOfferFor, IsEscrow, total_liquidity}

-- The amount of an offer, by its terms alone.
abbrev pub offered : OpenInterest → ℕ
offered terms = terms.liquidity_coin.amount

module _ (active : OpenInterest) where
  abbrev pub AreOffers : List Offer → Type 0
  AreOffers = All (λ (o : Offer). IsOfferFor active o.1)

  -- Offers are never empty, so a total of zero is no offer at all.
  pub total_liquidity_pos :
      (offers : List Offer) → AreOffers offers → offers ≢ [] → 0 < total_liquidity offers
  total_liquidity_pos [] all some_offer = absurd (some_offer refl)
  total_liquidity_pos (o ∷ offers) all some_offer = ground arith

  pub total-nil : (offers : List Offer) → offers ≡ [] → total_liquidity offers ≡ 0
  total-nil [] h = refl
  total-nil (o ∷ offers) h = absurd (ground arith)

  pub insert-ne-nil :
      (k : String) (v : OpenInterest) (m : BTreeMap OpenInterest) → insert k v m ≢ []
  unfolding insert
  insert-ne-nil k v [] h = ground arith
  insert-ne-nil k v ((j, w) ∷ m) h = ground arith

  -- Taking an offer out and releasing its amount keeps the escrow.
  pub released_debt-IsEscrow :
      (k : String) (v : OpenInterest) (debt debt' : Option Coin) (m : BTreeMap OpenInterest)
      → AreOffers m
      → IsEscrow active debt m
      → get k m ≡ some v
      → released_debt debt v.liquidity_coin ≡ ok debt'
      → IsEscrow active debt' (remove k m)
  unfolding released_debt checked_sub
  released_debt-IsEscrow k v none debt' m all escrow found h = ground arith
  released_debt-IsEscrow k v (some debt) debt' m all escrow found h = ground (
    arith,
    BTreeMap.sum_of-remove offered k v m,
    total_liquidity_pos (remove k m)
        (BTreeMap.All-remove (λ (o : Offer). IsOfferFor active o.1) k m all),
    total-nil (remove k m),
  )

  -- Putting an offer in and adding its amount keeps the escrow.
  pub added_debt-IsEscrow :
      (k : String) (v : OpenInterest) (debt debt' : Option Coin) (m : BTreeMap OpenInterest)
      → v.liquidity_coin.denom ≡ active.liquidity_coin.denom
      → IsEscrow active debt m
      → get k m ≡ none
      → added_debt debt v.liquidity_coin ≡ ok debt'
      → IsEscrow active debt' (insert k v m)
  unfolding added_debt checked_add
  added_debt-IsEscrow k v none debt' m denom escrow absent h =
      ground (arith, insert-ne-nil k v m, BTreeMap.sum_of-insert liquidity k v m)
  added_debt-IsEscrow k v (some debt) debt' m denom escrow absent h =
      ground (arith, insert-ne-nil k v m, BTreeMap.sum_of-insert liquidity k v m)
