-- ===== src/UnitTests/Liquidations.antt =====
-- The tests of src/contract/open_interest/liquidate.rs.
use wasm_vault.Prelude.{ℕ, ◌≡◌, ◌++◌, refl, String, none, some, [], ◌∷◌}
use wasm_vault.Types.{
  Addr, OpenInterest, Env, Response, respond, bank_send, staking_undelegate, attr, text, num,
}
use wasm_vault.Errors.{ok, err, unauthorized, open_interest_not_expired, insufficient_balance}
use wasm_vault.Uint.{add_u256, try_u128, fits}
use wasm_vault.Helpers.{require_owner_or_lender, query_staking_rewards, checked_sum}
use wasm_vault.OpenInterest.Terms.{open_interest_attributes}
use wasm_vault.OpenInterest.Lending.{clear_active_lender}
use wasm_vault.OpenInterest.Liquidation.{
  load_liquidation_state, get_outstanding_amount, convert_amount, collect_funds, claim_rewards,
  payout_message, liquidation_can_schedule_undelegations, schedule_undelegations, undelegate_from,
  record_liquidation_undelegation_time, finalize_state,
}
use wasm_vault.OpenInterest.Liquidate.{liquidate, undelegate_if_allowed}
use wasm_vault.Tests.Fixtures.{Vault}
use wasm_vault.UnitTests.Mock.{
  Outcome, Mock, mock_dependencies, querier, mock_env, message_info, sample_coin,
  build_open_interest, setup, setup_active_open_interest, storage,
}

abbrev new_open_interest : String → OpenInterest
new_open_interest collateral =
    build_open_interest (sample_coin 5 "uluna") (sample_coin 2 "uinterest") 86_400
      (sample_coin 10 collateral)

abbrev lent : String → Vault
lent collateral = setup_active_open_interest storage "owner" "lender" (new_open_interest collateral)

abbrev owing : ℕ → String → Vault
owing amount denom = record (lent denom) {
  outstanding_debt = some (some (sample_coin amount denom));
}

abbrev liquidates : Mock → Env → Addr → Vault → Outcome
liquidates mock env sender s = liquidate (querier mock) env (message_info sender []) s

abbrev liquidate_rejects_non_owner_or_lender : Outcome
liquidate_rejects_non_owner_or_lender =
    liquidates mock_dependencies mock_env "intruder" (lent "uatom")

liquidate_rejects_non_owner_or_lender_passes :
    liquidate_rejects_non_owner_or_lender ≡ err unauthorized
unfolding liquidate load_liquidation_state require_owner_or_lender
liquidate_rejects_non_owner_or_lender_passes = refl

abbrev liquidate_rejects_before_expiry : Outcome
liquidate_rejects_before_expiry =
    liquidates mock_dependencies (record mock_env { time = 0 }) "owner"
      (record (lent "uatom") { open_interest_expiry = some (some 1_000_000_000_000) })

liquidate_rejects_before_expiry_passes :
    liquidate_rejects_before_expiry ≡ err open_interest_not_expired
unfolding liquidate load_liquidation_state require_owner_or_lender
liquidate_rejects_before_expiry_passes = refl

-- The whole debt of 25 is there.
abbrev paid : Response
paid = respond (bank_send "lender" (sample_coin 25 "uusd" ∷ []) ∷ []) (
    open_interest_attributes "liquidate_open_interest" (new_open_interest "uusd")
    ++ attr "lender" (text "lender")
      ∷ attr "liquidator" (text "owner")
      ∷ attr "requested_amount" (num 25)
      ∷ attr "available_balance" (num 25)
      ∷ attr "payout_amount" (num 25)
      ∷ [])

abbrev cleared : Vault
cleared = record (setup storage "owner") { last_liquidation_unbonding = some none }

abbrev liquidate_pays_lender_and_clears_state : Outcome
liquidate_pays_lender_and_clears_state =
    liquidates (record mock_dependencies { bank = sample_coin 25 "uusd" ∷ [] }) mock_env "owner"
      (owing 25 "uusd")

liquidate_pays_lender_and_clears_state_passes :
    liquidate_pays_lender_and_clears_state ≡ ok (paid, cleared)
unfolding liquidate load_liquidation_state require_owner_or_lender get_outstanding_amount
    convert_amount collect_funds claim_rewards query_staking_rewards checked_sum
    undelegate_if_allowed payout_message liquidation_can_schedule_undelegations
    schedule_undelegations undelegate_from add_u256 try_u128 fits
    record_liquidation_undelegation_time finalize_state clear_active_lender
liquidate_pays_lender_and_clears_state_passes = refl

abbrev liquidate_rejects_insufficient_balance : Outcome
liquidate_rejects_insufficient_balance =
    liquidates mock_dependencies mock_env "owner" (owing 20 "uusd")

liquidate_rejects_insufficient_balance_passes :
    liquidate_rejects_insufficient_balance ≡ err (insufficient_balance "uusd" 0 20)
unfolding liquidate load_liquidation_state require_owner_or_lender get_outstanding_amount
    convert_amount collect_funds claim_rewards query_staking_rewards checked_sum
    undelegate_if_allowed payout_message liquidation_can_schedule_undelegations
    schedule_undelegations undelegate_from add_u256 try_u128 fits
    record_liquidation_undelegation_time finalize_state clear_active_lender
liquidate_rejects_insufficient_balance_passes = refl

-- The stake of 100 is undelegated, and all of it stays owed.
abbrev pending : Response
pending = respond (staking_undelegate "validator" (sample_coin 100 "uatom") ∷ []) (
    open_interest_attributes "liquidate_open_interest" (new_open_interest "uatom")
    ++ attr "lender" (text "lender")
      ∷ attr "liquidator" (text "owner")
      ∷ attr "requested_amount" (num 100)
      ∷ attr "undelegated_amount" (num 100)
      ∷ attr "outstanding_debt" (num 100)
      ∷ [])

abbrev liquidate_preserves_state_during_pending_undelegation : Outcome
liquidate_preserves_state_during_pending_undelegation =
    liquidates
      (record mock_dependencies {
        bonded_denom = "uatom";
        validators = "validator" ∷ [];
        delegations = record { validator = "validator"; amount = sample_coin 100 "uatom" } ∷ [];
      })
      mock_env "owner" (owing 100 "uatom")

liquidate_preserves_state_during_pending_undelegation_passes :
    liquidate_preserves_state_during_pending_undelegation
    ≡ ok (
      pending,
      record (owing 100 "uatom") { last_liquidation_unbonding = some (some mock_env.time) },
    )
unfolding liquidate load_liquidation_state require_owner_or_lender get_outstanding_amount
    convert_amount collect_funds claim_rewards query_staking_rewards checked_sum
    undelegate_if_allowed payout_message liquidation_can_schedule_undelegations
    schedule_undelegations undelegate_from add_u256 try_u128 fits
    record_liquidation_undelegation_time finalize_state clear_active_lender
liquidate_preserves_state_during_pending_undelegation_passes = refl
