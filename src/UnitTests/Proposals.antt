-- ===== src/UnitTests/Proposals.antt =====
-- The tests of src/contract/counter_offer/propose.rs that need no full table.
use wasm_vault.Prelude.{ℕ, ◌+◌, ◌-◌, ◌≡◌, refl, Option, none, some, [], ◌∷◌, flatten}
use wasm_vault.BTreeMap.{get, insert}
use wasm_vault.Types.{Addr, Coin, OpenInterest}
use wasm_vault.Errors.{
  Result, ok, err, no_open_interest, lender_already_set, counter_offer_terms_mismatch,
  counter_offer_not_smaller, counter_offer_escrow_mismatch, counter_offer_already_exists, ◌>>=◌,
}
use wasm_vault.Uint.{add_u256, checked_add, increment_u8, fits}
use wasm_vault.OpenInterest.Lending.{received_funds, add_amounts}
use wasm_vault.CounterOffer.Helpers.{
  validate_counter_offer, validate_counter_offer_escrow, determine_eviction_candidate,
  snapshot_counter_offer_capacity, worst_offer, evict_from, add_outstanding_debt, added_debt,
}
use wasm_vault.CounterOffer.Propose.{propose, evict}
use wasm_vault.Tests.Fixtures.{listed, Vault}
use wasm_vault.UnitTests.Mock.{
  Outcome, mock_env, message_info, sample_coin, build_open_interest, active, setup_open_interest,
  storage,
}

abbrev pub ready : Vault
ready = setup_open_interest storage "owner"

-- The active terms with that much less liquidity.
abbrev pub lowered : ℕ → OpenInterest
lowered less = record active {
  liquidity_coin = record active.liquidity_coin { amount = active.liquidity_coin.amount - less };
}

abbrev pub funded : Addr → OpenInterest → Vault → Outcome
funded proposer offer s =
    propose mock_env (message_info proposer (offer.liquidity_coin ∷ [])) offer s

abbrev rejects_without_active_open_interest : Outcome
rejects_without_active_open_interest =
    propose mock_env (message_info "proposer" [])
      (build_open_interest (sample_coin 900 "uusd") (sample_coin 50 "ujuno") 86_400
        (sample_coin 2000 "uatom"))
      (record storage { open_interest = some none })

rejects_without_active_open_interest_passes :
    rejects_without_active_open_interest ≡ err no_open_interest
unfolding propose
rejects_without_active_open_interest_passes = refl

abbrev rejects_when_lender_present : Outcome
rejects_when_lender_present =
    propose mock_env (message_info "proposer" []) (lowered 10)
      (record ready { lender = some (some "lender") })

rejects_when_lender_present_passes : rejects_when_lender_present ≡ err lender_already_set
unfolding propose
rejects_when_lender_present_passes = refl

abbrev rejects_mismatched_terms : Outcome
rejects_mismatched_terms =
    propose mock_env (message_info "proposer" [])
      (build_open_interest (sample_coin 900 "uusd") (sample_coin 55 "ujuno") active.expiry_duration
        active.collateral)
      ready

rejects_mismatched_terms_passes : rejects_mismatched_terms ≡ err counter_offer_terms_mismatch
unfolding propose validate_counter_offer
rejects_mismatched_terms_passes = refl

abbrev rejects_non_lower_amounts : Outcome
rejects_non_lower_amounts = propose mock_env (message_info "proposer" []) active ready

rejects_non_lower_amounts_passes : rejects_non_lower_amounts ≡ err counter_offer_not_smaller
unfolding propose validate_counter_offer
rejects_non_lower_amounts_passes = refl

abbrev rejects_missing_escrow_deposit : Outcome
rejects_missing_escrow_deposit = propose mock_env (message_info "proposer" []) (lowered 10) ready

rejects_missing_escrow_deposit_passes :
    rejects_missing_escrow_deposit ≡ err (counter_offer_escrow_mismatch "uusd" 990 0)
unfolding propose validate_counter_offer validate_counter_offer_escrow received_funds add_amounts
    add_u256 fits
rejects_missing_escrow_deposit_passes = refl

abbrev rejects_incorrect_escrow_amount : Outcome
rejects_incorrect_escrow_amount =
    propose mock_env (message_info "proposer" ((lowered 11).liquidity_coin ∷ [])) (lowered 10) ready

rejects_incorrect_escrow_amount_passes :
    rejects_incorrect_escrow_amount ≡ err (counter_offer_escrow_mismatch "uusd" 990 989)
unfolding propose validate_counter_offer validate_counter_offer_escrow received_funds add_amounts
    add_u256 fits
rejects_incorrect_escrow_amount_passes = refl

abbrev rejects_duplicate_counter_offers_from_same_proposer : Outcome
rejects_duplicate_counter_offers_from_same_proposer =
    funded "proposer" (lowered 25) ready >>= λ first. funded "proposer" (lowered 25) first.1

rejects_duplicate_counter_offers_from_same_proposer_passes :
    rejects_duplicate_counter_offers_from_same_proposer ≡ err counter_offer_already_exists
unfolding propose evict validate_counter_offer validate_counter_offer_escrow received_funds
    add_amounts add_u256 fits determine_eviction_candidate snapshot_counter_offer_capacity
    worst_offer increment_u8 evict_from add_outstanding_debt added_debt checked_add get insert
rejects_duplicate_counter_offers_from_same_proposer_passes = refl

-- The debt after the first offer and after the second.
abbrev accrues_outstanding_debt_for_each_offer : Result (Option Coin × Option Coin)
accrues_outstanding_debt_for_each_offer = funded "proposer-a" (lowered 10) ready >>= λ first.
    funded "proposer-b" (lowered 25) first.1 >>= λ second.
    ok (flatten first.1.outstanding_debt, flatten second.1.outstanding_debt)

accrues_outstanding_debt_for_each_offer_passes :
    accrues_outstanding_debt_for_each_offer
    ≡ ok (some (lowered 10).liquidity_coin, some (sample_coin (990 + 975) "uusd"))
unfolding propose evict validate_counter_offer validate_counter_offer_escrow received_funds
    add_amounts add_u256 fits determine_eviction_candidate snapshot_counter_offer_capacity
    worst_offer increment_u8 evict_from add_outstanding_debt added_debt checked_add get insert
accrues_outstanding_debt_for_each_offer_passes = refl
