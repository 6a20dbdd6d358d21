-- ===== src/Bounds/Requests.antt =====
-- The handlers of requests and of counter offers, within the bounds.
use wasm_vault.Prelude.{
  ℕ, ◌+◌, ◌<◌, ◌≤◌, ◌^◌, ◌≡◌, ◌≢◌, inl, inr, String, Option, none, some, List, [], ◌∷◌, flatten,
  is_some, arith, str_eq, Option-cases, sum_of, filter_by, length,
}
use wasm_vault.BTreeMap.{BTreeMap}
use wasm_vault.Types.{Coin, Addr, OpenInterest, Env, MessageInfo}
use wasm_vault.Errors.{
  panic, bind-panic, fail_if, fail_if-ne-panic, ok_or-ne-panic, ok_or, lender_already_set,
  no_open_interest, counter_offer_already_exists,
}
use wasm_vault.Uint.{try_u128, add_u256, checked_add, checked_sub, fits}
use wasm_vault.Host.{Host, try-ne-panic, Reply-cases}
use wasm_vault.Storage.{OfferMap, Storage, load}
use wasm_vault.Helpers.{require_owner}
use wasm_vault.Helpers.Lock.{minimum_collateral_lock-ne-panic}
use wasm_vault.OpenInterest.Terms.{
  validate_coin, query_available_balance, cover_by_stake, uint256_to_uint128,
  ensure_collateral_available, accumulate_repayment_requirement, repayment_requirements,
  convert_requirements, build_repayment_amounts, validate_open_interest,
}
use wasm_vault.OpenInterest.Lending.{add_amounts, received_funds, validate_liquidity_funding}
use wasm_vault.OpenInterest.Execute as Opening
use wasm_vault.OpenInterest.Fund.{fund}
use wasm_vault.OpenInterest.Close.{close}
use wasm_vault.CounterOffer.Helpers.{
  validate_counter_offer, validate_counter_offer_escrow, added_debt, released_debt,
  add_outstanding_debt, release_outstanding_debt, determine_eviction_candidate, Offer,
}
use wasm_vault.CounterOffer.Helpers.Eviction.{determine_eviction_candidate-ne-panic}
use wasm_vault.CounterOffer.Propose.{propose, evict}
use wasm_vault.CounterOffer.Accept.{accept}
use wasm_vault.CounterOffer.Cancel.{cancel}
use wasm_vault.Bounds.{attached}
use wasm_vault.Bounds.Assets.{require_owner-ne-panic, load-ne-panic}

module _ (terms : OpenInterest) where
  accumulate-ne-panic :
      (m : BTreeMap ℕ) (coin : Coin) → accumulate_repayment_requirement m coin ≢ panic
  unfolding accumulate_repayment_requirement checked_add
  accumulate-ne-panic m coin h = ground arith

  convert_requirements-ne-panic : (m : BTreeMap ℕ) → convert_requirements m ≢ panic
  unfolding convert_requirements
  convert_requirements-ne-panic [] h = ground arith
  convert_requirements-ne-panic ((denom, amount) ∷ m) h =
      ground (arith, convert_requirements-ne-panic m)

  repayment_requirements-ne-panic : repayment_requirements terms ≢ panic
  unfolding repayment_requirements
  repayment_requirements-ne-panic h =
      bind-panic (accumulate_repayment_requirement [] terms.liquidity_coin) _ h
        (accumulate-ne-panic [] terms.liquidity_coin)
        λ m _ h1. accumulate-ne-panic m terms.interest_coin h1

  pub build_repayment_amounts-ne-panic : build_repayment_amounts terms ≢ panic
  unfolding build_repayment_amounts
  build_repayment_amounts-ne-panic h =
      bind-panic (repayment_requirements terms) _ h repayment_requirements-ne-panic
        λ m _ h1. convert_requirements-ne-panic m h1

module _ (host : Host) (env : Env) (terms : OpenInterest) where
  ensure_collateral-ne-panic :
      terms.collateral.amount < 2 ^ 128 → ensure_collateral_available host env terms ≢ panic
  unfolding ensure_collateral_available query_available_balance cover_by_stake uint256_to_uint128
      checked_add try_u128 fits
  ensure_collateral-ne-panic small h = ground (
    arith,
    minimum_collateral_lock-ne-panic host env terms.collateral.denom (some terms),
    try-ne-panic (host.query_balance env.contract_address terms.collateral.denom),
  )

  validate_open_interest-ne-panic :
      terms.collateral.amount < 2 ^ 128 → validate_open_interest host env terms ≢ panic
  unfolding validate_open_interest validate_coin
  validate_open_interest-ne-panic small h =
      ground (arith, build_repayment_amounts-ne-panic terms, ensure_collateral-ne-panic small)

add_amounts-ne-panic :
    (acc : ℕ) (denom : String) (coins : List Coin)
    → acc + sum_of (λ (coin : Coin). coin.amount) coins < 2 ^ 256
    → add_amounts acc (filter_by (λ (coin : Coin). str_eq coin.denom denom) coins) ≢ panic
unfolding add_amounts add_u256 fits
add_amounts-ne-panic acc denom [] fit h = ground arith
add_amounts-ne-panic acc denom (coin ∷ coins) fit h = ground (
  arith,
  add_amounts-ne-panic (acc + coin.amount) denom coins,
  add_amounts-ne-panic acc denom coins,
)

received_funds-ne-panic :
    (info : MessageInfo) (denom : String)
    → attached info < 2 ^ 256
    → received_funds info denom ≢ panic
unfolding received_funds
received_funds-ne-panic info denom fit h = add_amounts-ne-panic 0 denom info.funds (omega arith) h

module _ {M : Type 0} ⦃offer_map : OfferMap M⦄ (host : Host) (env : Env) (info : MessageInfo)
    (s : Storage M) where
  pub open-ne-panic :
      (terms : OpenInterest)
      → terms.collateral.amount < 2 ^ 128
      → Opening.execute host env info terms s ≢ panic
  unfolding Opening.execute
  open-ne-panic terms small h = ground (
    arith,
    require_owner-ne-panic host env info s,
    validate_open_interest-ne-panic host env terms small,
  )

  pub close-ne-panic : close info s ≢ panic
  unfolding close
  close-ne-panic h = ground (arith, require_owner-ne-panic host env info s)

  pub cancel-ne-panic : cancel env info s ≢ panic
  unfolding cancel release_outstanding_debt released_debt checked_sub
  cancel-ne-panic h = ground arith

  evict-ne-panic : (candidate : Option Offer) → evict candidate s ≢ panic
  unfolding evict release_outstanding_debt released_debt checked_sub
  evict-ne-panic none h = ground arith
  evict-ne-panic (some (k, offer)) h = ground arith

  add_debt-ne-panic : (middle : Storage M) (coin : Coin) → add_outstanding_debt middle coin ≢ panic
  unfolding add_outstanding_debt added_debt checked_add
  add_debt-ne-panic middle coin h = ground arith

  validate_counter_offer-ne-panic :
      (active terms : OpenInterest) → validate_counter_offer active terms ≢ panic
  unfolding validate_counter_offer
  validate_counter_offer-ne-panic active terms h = ground arith

  counter_offer_escrow-ne-panic :
      (terms : OpenInterest)
      → attached info < 2 ^ 256
      → validate_counter_offer_escrow info terms ≢ panic
  unfolding validate_counter_offer_escrow
  counter_offer_escrow-ne-panic terms fit h =
      ground (arith, received_funds-ne-panic info terms.liquidity_coin.denom fit)

  pub fund-ne-panic :
      (terms : OpenInterest)
      → attached info < 2 ^ 256
      → ((active : OpenInterest)
          → flatten s.open_interest ≡ some active
          → host.plus_seconds env.time active.expiry_duration ≢ panic)
      → fund host env info terms s ≢ panic
  unfolding fund validate_liquidity_funding
  fund-ne-panic terms fit time h = elim (Option-cases (flatten s.open_interest)) [
    | inl missing ↦ ground arith
    | inr (active, found) ↦
        ground
          (arith, time active found, received_funds-ne-panic info active.liquidity_coin.denom fit)
  ]

  pub propose-ne-panic :
      (terms : OpenInterest)
      → attached info < 2 ^ 256
      → length (offer_map.range s.counter_offers) ≤ 255
      → propose env info terms s ≢ panic
  unfolding propose
  propose-ne-panic terms fit room h =
      bind-panic (load s.open_interest) _ h (load-ne-panic s.open_interest) λ stored _ h1.
        bind-panic (ok_or stored no_open_interest) _ h1 (ok_or-ne-panic stored no_open_interest)
          λ active _ h2. bind-panic (load s.lender) _ h2 (load-ne-panic s.lender) λ present _ h3.
            bind-panic (fail_if (is_some present) lender_already_set) _ h3 (fail_if-ne-panic _ _)
              λ _ _ h4.
                bind-panic (validate_counter_offer active terms) _ h4
                  (validate_counter_offer-ne-panic active terms)
                  λ _ _ h5.
                    bind-panic (validate_counter_offer_escrow info terms) _ h5
                      (counter_offer_escrow-ne-panic terms fit)
                      λ _ _ h6.
                        bind-panic
                          (fail_if (is_some (offer_map.may_load s.counter_offers info.sender))
                            counter_offer_already_exists)
                          _ h6 (fail_if-ne-panic _ _)
                          λ _ _ h7.
                            bind-panic
                              (determine_eviction_candidate (offer_map.range s.counter_offers)
                                terms)
                              _ h7
                              (determine_eviction_candidate-ne-panic
                                (offer_map.range s.counter_offers) terms room)
                              λ candidate _ h8.
                                bind-panic (evict candidate s) _ h8 (evict-ne-panic candidate)
                                  λ middle _ h9.
                                    bind-panic (add_outstanding_debt middle terms.liquidity_coin) _
                                      h9 (add_debt-ne-panic middle terms.liquidity_coin)
                                      λ added _ h10. ground arith

  pub accept-ne-panic :
      (proposer : String) (terms : OpenInterest)
      → ((k : Addr) (offer : OpenInterest)
          → offer_map.may_load s.counter_offers k ≡ some offer
          → host.plus_seconds env.time offer.expiry_duration ≢ panic)
      → accept host env info proposer terms s ≢ panic
  unfolding accept
  accept-ne-panic proposer terms time h =
      bind-panic (require_owner s info) _ h (require_owner-ne-panic host env info s) λ owner _ h1.
        elim (Reply-cases (host.addr_validate proposer)) [
          | inl (k, valid) ↦ elim (Option-cases (offer_map.may_load s.counter_offers k)) [
            | inl missing ↦ ground arith
            | inr (offer, found) ↦ ground (arith, time k offer found)
          ]
          | inr (x, failed) ↦ ground arith
        ]
