-- ===== src/OpenInterest/Lending.antt =====
-- src/contract/open_interest/helpers.rs: the escrow of a funding, the refunds, the active lender.
use wasm_vault.Prelude.{ℕ, String, not, none, some, List, [], ◌∷◌, map, str_eq, ◌==◌, filter_by}
use wasm_vault.Types.{Addr, Coin, OpenInterest, MessageInfo, CosmosMsg, bank_send}
use wasm_vault.Errors.{Result, ok, open_interest_funding_mismatch, ◌>>=◌, fail_if}
use wasm_vault.Uint.{add_u256}
use wasm_vault.Storage.{OfferMap, Storage}

-- `fold(Uint256::zero(), |acc, coin| acc + coin.amount)`
unfoldable pub add_amounts : ℕ → List Coin → Result ℕ
add_amounts acc [] = ok acc
add_amounts acc (coin ∷ coins) = do acc' ← add_u256 acc coin.amount; add_amounts acc' coins

-- What the caller attached in `denom`.
unfoldable pub received_funds : MessageInfo → String → Result ℕ
received_funds info denom =
    add_amounts 0 (filter_by (λ (coin : Coin). str_eq coin.denom denom) info.funds)

unfoldable pub validate_liquidity_funding : MessageInfo → Coin → Result (Unit {0})
validate_liquidity_funding info liquidity_coin = do
  let denom = liquidity_coin.denom
  let expected = liquidity_coin.amount
  received ← received_funds info denom
  fail_if (not (received == expected)) (open_interest_funding_mismatch denom expected received)

-- The refund of one counter offer.
abbrev pub refund : Addr × OpenInterest → CosmosMsg
refund (addr, offer) = bank_send addr (offer.liquidity_coin ∷ [])

module _ {M : Type 0} where
  unfoldable pub set_active_lender : Storage M → Addr → ℕ → Storage M
  set_active_lender s lender expiry = record s {
    lender = some (some lender);
    open_interest_expiry = some (some expiry);
  }

  unfoldable pub clear_active_lender : Storage M → Storage M
  clear_active_lender s = record s {
    lender = some none;
    open_interest_expiry = some none;
    last_liquidation_unbonding = some none;
  }

module _ {M : Type 0} ⦃offer_map : OfferMap M⦄ where
  unfoldable pub refund_counter_offer_escrow : Storage M → List CosmosMsg × Storage M
  refund_counter_offer_escrow s = (
    map refund (offer_map.range s.counter_offers),
    record s { counter_offers = offer_map.clear s.counter_offers; outstanding_debt = some none },
  )
