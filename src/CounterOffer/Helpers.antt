-- ===== src/CounterOffer/Helpers.antt =====
-- src/contract/counter_offer/helpers.rs: the checks of an offer, the escrow, the eviction.
pub mod Eviction
use wasm_vault.Prelude.{
  ℕ, ◌+◌, String, Bool, not, ◌||◌, Option, none, some, List, [], ◌∷◌, str_eq, ◌==◌, ltb, leb,
  if◌then◌else◌, flatten,
}
use wasm_vault.BTreeMap.{BTreeMap}
use wasm_vault.Types.{Addr, Coin, OpenInterest, coin_eq, MessageInfo, max_counter_offers}
use wasm_vault.Errors.{
  Result, ok, err, std, msg, invalid_coin_amount, counter_offer_terms_mismatch,
  counter_offer_not_smaller, counter_offer_escrow_mismatch, counter_offer_not_competitive, ◌>>=◌,
  ◌>>◌, fail_if, ok_or,
}
use wasm_vault.Uint.{checked_add, checked_sub, increment_u8}
use wasm_vault.Storage.{OfferMap, Storage}
use wasm_vault.OpenInterest.Lending.{received_funds}

unfoldable pub validate_counter_offer : OpenInterest → OpenInterest → Result (Unit {0})
validate_counter_offer active proposed = do
  fail_if
      (not (str_eq proposed.liquidity_coin.denom active.liquidity_coin.denom)
        || not (coin_eq proposed.interest_coin active.interest_coin)
        || not (coin_eq proposed.collateral active.collateral)
        || not (proposed.expiry_duration == active.expiry_duration))
      counter_offer_terms_mismatch
  fail_if (proposed.liquidity_coin.amount == 0) (invalid_coin_amount "liquidity_coin")
  fail_if (leb active.liquidity_coin.amount proposed.liquidity_coin.amount)
      counter_offer_not_smaller

unfoldable pub validate_counter_offer_escrow : MessageInfo → OpenInterest → Result (Unit {0})
validate_counter_offer_escrow info proposed = do
  let denom = proposed.liquidity_coin.denom
  let expected = proposed.liquidity_coin.amount
  received ← received_funds info denom
  fail_if (not (received == expected)) (counter_offer_escrow_mismatch denom expected received)

-- What the outstanding debt becomes.
unfoldable pub added_debt : Option Coin → Coin → Result (Option Coin)
added_debt none coin = ok (some coin)
added_debt (some debt) coin = do
  fail_if (not (str_eq debt.denom coin.denom)) (std (msg "Outstanding debt denom mismatch"))
  amount ← checked_add debt.amount coin.amount
  ok (some (record debt { amount = amount }))

unfoldable pub released_debt : Option Coin → Coin → Result (Option Coin)
released_debt current coin = do
  debt ← ok_or current (std (msg "No outstanding debt to release"))
  fail_if (not (str_eq debt.denom coin.denom)) (std (msg "Outstanding debt denom mismatch"))
  amount ← checked_sub debt.amount coin.amount
  ok (if amount == 0 then none else some (record debt { amount = amount }))

module _ {M : Type 0} where
  unfoldable pub add_outstanding_debt : Storage M → Coin → Result (Storage M)
  add_outstanding_debt s coin = do
    updated ← added_debt (flatten s.outstanding_debt) coin
    ok (record s { outstanding_debt = some updated })

  unfoldable pub release_outstanding_debt : Storage M → Coin → Result (Storage M)
  release_outstanding_debt s coin = do
    updated ← released_debt (flatten s.outstanding_debt) coin
    ok (record s { outstanding_debt = some updated })

abbrev pub Offer : Type 0
Offer = Addr × OpenInterest

-- The amount that an offer holds in escrow.
abbrev pub liquidity : Offer → ℕ
liquidity (addr, offer) = offer.liquidity_coin.amount

-- The loop of `snapshot_counter_offer_capacity`: the count so far and the worst offer so far.
unfoldable pub worst_offer : ℕ → Offer → List Offer → Result (ℕ × Offer)
worst_offer count worst [] = ok (count, worst)
worst_offer count worst (entry ∷ entries) = do
  count' ← increment_u8 count
  worst_offer count' (if ltb (liquidity entry) (liquidity worst) then entry else worst) entries

unfoldable pub snapshot_counter_offer_capacity : List Offer → Result (Option (ℕ × Offer))
snapshot_counter_offer_capacity [] = ok none
snapshot_counter_offer_capacity (first ∷ entries) = do
  counted ← worst_offer 1 first entries
  ok (some counted)

-- The decision on a full or a free table.
unfoldable pub evict_from : OpenInterest → Option (ℕ × Offer) → Result (Option Offer)
evict_from proposed none = ok none
evict_from proposed (some (count, worst)) =
    if ltb count max_counter_offers
    then ok none
    else if leb proposed.liquidity_coin.amount (liquidity worst)
    then err (counter_offer_not_competitive (liquidity worst) proposed.liquidity_coin.denom)
    else ok (some worst)

unfoldable pub determine_eviction_candidate : List Offer → OpenInterest → Result (Option Offer)
determine_eviction_candidate entries proposed = do
  snapshot ← snapshot_counter_offer_capacity entries
  evict_from proposed snapshot
