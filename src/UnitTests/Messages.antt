-- ===== src/UnitTests/Messages.antt =====
-- The tests of src/contract/execute.rs.
use wasm_vault.Prelude.{◌≡◌, refl, Option, none, some, [], ◌∷◌}
use wasm_vault.BTreeMap.{get, insert}
use wasm_vault.Types.{OpenInterest, ExecuteMsg, respond}
use wasm_vault.Errors.{
  Result, ok, err, validator_not_found, delegation_not_found, insufficient_balance, no_delegations,
  ownership_unchanged, invalid_coin_amount, no_open_interest, ◌>>=◌,
}
use wasm_vault.Uint.{add_u256, checked_add, try_u128, increment_u8, fits}
use wasm_vault.Helpers.{require_owner, require_owner_or_lender, minimum_collateral_lock_for_denom}
use wasm_vault.Staking.Delegate
use wasm_vault.Staking.Delegate.{reserved_debt_for_denom}
use wasm_vault.Staking.Undelegate
use wasm_vault.Staking.Redelegate
use wasm_vault.Staking.Redelegate.{refuse_while_lent}
use wasm_vault.Staking.Claim
use wasm_vault.Withdraw
use wasm_vault.Withdraw.{available_to_withdraw}
use wasm_vault.Transfer
use wasm_vault.OpenInterest.Execute as Opening
use wasm_vault.OpenInterest.Terms.{validate_open_interest, validate_coin}
use wasm_vault.OpenInterest.Lending.{
  received_funds, add_amounts, clear_active_lender, refund_counter_offer_escrow,
}
use wasm_vault.OpenInterest.Close.{close}
use wasm_vault.OpenInterest.Liquidation.{load_liquidation_state}
use wasm_vault.OpenInterest.Liquidate.{liquidate}
use wasm_vault.CounterOffer.Helpers.{
  validate_counter_offer, validate_counter_offer_escrow, determine_eviction_candidate,
  snapshot_counter_offer_capacity, worst_offer, evict_from, add_outstanding_debt, added_debt,
}
use wasm_vault.CounterOffer.Propose.{propose, evict}
use wasm_vault.Execute.{execute}
use wasm_vault.Tests.Fixtures.{listed, Vault}
use wasm_vault.UnitTests.Mock.{
  Outcome, Mock, mock_dependencies, querier, mock_env, message_info, sample_coin,
  build_open_interest, active, storage,
}

abbrev owned : Vault
owned = record storage { owner = some "owner" }

abbrev without_interest : Vault
without_interest = record owned { outstanding_debt = some none; open_interest = some none }

abbrev by_owner : Mock → ExecuteMsg → Vault → Outcome
by_owner mock msg s = execute (querier mock) mock_env (message_info "owner" []) msg s

abbrev execute_returns_empty_response : Outcome
execute_returns_empty_response =
    execute (querier mock_dependencies) mock_env (message_info "caller" []) ExecuteMsg.noop storage

execute_returns_empty_response_passes : execute_returns_empty_response ≡ ok (respond [] [], storage)
unfolding execute
execute_returns_empty_response_passes = refl

abbrev execute_delegate_flows_through_module : Outcome
execute_delegate_flows_through_module =
    by_owner (record mock_dependencies { bank = sample_coin 100 "ucosm" ∷ [] })
      (ExecuteMsg.delegate "validator" 50) without_interest

execute_delegate_flows_through_module_passes :
    execute_delegate_flows_through_module ≡ err (validator_not_found "validator")
unfolding execute Delegate.execute require_owner reserved_debt_for_denom
execute_delegate_flows_through_module_passes = refl

abbrev execute_undelegate_flows_through_module : Outcome
execute_undelegate_flows_through_module =
    by_owner mock_dependencies (ExecuteMsg.undelegate "validator" 50) without_interest

execute_undelegate_flows_through_module_passes :
    execute_undelegate_flows_through_module ≡ err (delegation_not_found "validator")
unfolding execute Undelegate.execute require_owner
execute_undelegate_flows_through_module_passes = refl

abbrev execute_redelegate_flows_through_module : Outcome
execute_redelegate_flows_through_module =
    by_owner mock_dependencies (ExecuteMsg.redelegate "validator" "validator-two" 50)
      without_interest

execute_redelegate_flows_through_module_passes :
    execute_redelegate_flows_through_module ≡ err (delegation_not_found "validator")
unfolding execute Redelegate.execute require_owner refuse_while_lent
execute_redelegate_flows_through_module_passes = refl

abbrev execute_withdraw_flows_through_module : Outcome
execute_withdraw_flows_through_module =
    by_owner mock_dependencies (ExecuteMsg.withdraw "ucosm" 50 none) without_interest

execute_withdraw_flows_through_module_passes :
    execute_withdraw_flows_through_module ≡ err (insufficient_balance "ucosm" 0 50)
unfolding execute Withdraw.execute require_owner available_to_withdraw
    minimum_collateral_lock_for_denom try_u128 fits
execute_withdraw_flows_through_module_passes = refl

abbrev execute_claim_rewards_flows_through_module : Outcome
execute_claim_rewards_flows_through_module =
    by_owner mock_dependencies ExecuteMsg.claim_delegator_rewards owned

execute_claim_rewards_flows_through_module_passes :
    execute_claim_rewards_flows_through_module ≡ err no_delegations
unfolding execute Claim.execute require_owner
execute_claim_rewards_flows_through_module_passes = refl

abbrev execute_transfer_ownership_flows_through_module : Outcome
execute_transfer_ownership_flows_through_module =
    by_owner mock_dependencies (ExecuteMsg.transfer_ownership "owner") owned

execute_transfer_ownership_flows_through_module_passes :
    execute_transfer_ownership_flows_through_module ≡ err ownership_unchanged
unfolding execute Transfer.execute require_owner
execute_transfer_ownership_flows_through_module_passes = refl

abbrev execute_open_interest_flows_through_module : Outcome
execute_open_interest_flows_through_module =
    by_owner mock_dependencies
      (ExecuteMsg.open_interest (
        build_open_interest (sample_coin 0 "uusd") (sample_coin 5 "ujuno") 86_400
          (sample_coin 200 "uatom")))
      (record owned { open_interest = some none })

execute_open_interest_flows_through_module_passes :
    execute_open_interest_flows_through_module ≡ err (invalid_coin_amount "liquidity_coin")
unfolding execute Opening.execute require_owner validate_open_interest validate_coin
execute_open_interest_flows_through_module_passes = refl

abbrev execute_close_open_interest_flows_through_module : Result (Option (Option OpenInterest))
execute_close_open_interest_flows_through_module =
    by_owner mock_dependencies ExecuteMsg.close_open_interest (record owned {
      lender = some none;
      open_interest = some (
          some (
            build_open_interest (sample_coin 1 "uusd") (sample_coin 1 "ujuno") 100
              (sample_coin 2 "uatom")));
    })
    >>= λ closed. ok closed.1.open_interest

execute_close_open_interest_flows_through_module_passes :
    execute_close_open_interest_flows_through_module ≡ ok (some none)
unfolding execute close require_owner clear_active_lender refund_counter_offer_escrow
execute_close_open_interest_flows_through_module_passes = refl

abbrev execute_liquidate_requires_active_open_interest : Outcome
execute_liquidate_requires_active_open_interest =
    by_owner mock_dependencies ExecuteMsg.liquidate_open_interest owned

execute_liquidate_requires_active_open_interest_passes :
    execute_liquidate_requires_active_open_interest ≡ err no_open_interest
unfolding execute liquidate load_liquidation_state require_owner_or_lender
execute_liquidate_requires_active_open_interest_passes = refl

-- The offer of 950 on the active terms.
abbrev offer : OpenInterest
offer = record active { liquidity_coin = sample_coin 950 "uusd" }

abbrev execute_counter_offer_flows_through_module : Result (Option OpenInterest)
execute_counter_offer_flows_through_module =
    execute (querier mock_dependencies) mock_env
      (message_info "proposer" (offer.liquidity_coin ∷ [])) (ExecuteMsg.propose_counter_offer offer)
      (record owned { lender = some none; open_interest = some (some active) })
    >>= λ proposed. ok (get "proposer" proposed.1.counter_offers)

execute_counter_offer_flows_through_module_passes :
    execute_counter_offer_flows_through_module ≡ ok (some offer)
unfolding execute propose evict validate_counter_offer validate_counter_offer_escrow received_funds
    add_amounts add_u256 fits determine_eviction_candidate snapshot_counter_offer_capacity
    worst_offer increment_u8 evict_from add_outstanding_debt added_debt checked_add get insert
execute_counter_offer_flows_through_module_passes = refl
