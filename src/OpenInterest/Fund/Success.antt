-- ===== src/OpenInterest/Fund/Success.antt =====
-- When a funding succeeds, src/contract/open_interest/fund.rs.
use wasm_vault.Prelude.{
  ℕ, ◌+◌, ◌^◌, ◌<◌, ◌≡◌, String, some, none, List, [], ◌∷◌, str_eq, Bool-cases, inl, inr, filter_by,
  map, arith,
}
use wasm_vault.Types.{Coin, OpenInterest, Env, MessageInfo}
use wasm_vault.Types.Equality.{open_interest_eq_refl}
use wasm_vault.Errors.{ok}
use wasm_vault.Uint.{add_u256, fits}
use wasm_vault.Host.{Host}
use wasm_vault.Storage.{OfferMap, Storage}
use wasm_vault.OpenInterest.Lending.{
  refund, add_amounts, received_funds, validate_liquidity_funding,
}
use wasm_vault.OpenInterest.Fund.{fund, fund_response}
use wasm_vault.Escrow.Counting.{amount_in}

add_amounts_of_lt :
    (denom : String) (acc : ℕ) (coins : List Coin)
    → acc + amount_in denom coins < 2 ^ 256
    → add_amounts acc (filter_by (λ (coin : Coin). str_eq coin.denom denom) coins)
      ≡ ok (acc + amount_in denom coins)
unfolding add_amounts add_u256 fits
add_amounts_of_lt denom acc [] h = ground arith
add_amounts_of_lt denom acc (c ∷ coins) h = elim (Bool-cases (str_eq c.denom denom)) [
  | inl same ↦ ground (arith, same, add_amounts_of_lt denom (acc + c.amount) coins)
  | inr other ↦ ground (arith, other, add_amounts_of_lt denom acc coins)
]

module _ {M : Type 0} ⦃offer_map : OfferMap M⦄ (host : Host) (env : Env) (info : MessageInfo)
    (terms : OpenInterest) (s : Storage M) where
  -- Anyone who names the terms of a request without a lender, and attaches exactly its liquidity
  -- (any other denoms aside), funds it, where the expiry is a time that the chain can hold: the
  -- sender is the lender until that expiry, all offers are refunded, and no offers and no debt are
  -- left.
  pub fund_of_exact :
      (expiry : ℕ)
      → s.open_interest ≡ some (some terms)
      → s.lender ≡ some none
      → amount_in terms.liquidity_coin.denom info.funds ≡ terms.liquidity_coin.amount
      → terms.liquidity_coin.amount < 2 ^ 256
      → host.plus_seconds env.time terms.expiry_duration ≡ ok expiry
      → fund host env info terms s
        ≡ ok (
          fund_response info.sender terms (map refund (offer_map.range s.counter_offers)),
          record s {
            lender = some (some info.sender);
            open_interest_expiry = some (some expiry);
            counter_offers = offer_map.clear s.counter_offers;
            outstanding_debt = some none;
          },
        )
  unfolding fund validate_liquidity_funding received_funds
  fund_of_exact expiry requested unfunded exact fit expires = ground (
    arith,
    open_interest_eq_refl terms,
    add_amounts_of_lt terms.liquidity_coin.denom 0 info.funds,
  )
