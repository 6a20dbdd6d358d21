-- ===== src/UnitTests/Repayments.antt =====
-- The tests of src/contract/open_interest/repay.rs.
use wasm_vault.Prelude.{◌≡◌, refl, none, some, List, [], ◌∷◌}
use wasm_vault.BTreeMap.{get, insert}
use wasm_vault.Types.{Addr, Coin, OpenInterest}
use wasm_vault.Errors.{
  ok, err, no_open_interest, no_lender, unauthorized, insufficient_balance, outstanding_debt,
}
use wasm_vault.Uint.{checked_add, try_u128, fits}
use wasm_vault.Helpers.{require_owner}
use wasm_vault.OpenInterest.Terms.{
  build_repayment_amounts, repayment_requirements, accumulate_repayment_requirement,
  convert_requirements,
}
use wasm_vault.OpenInterest.Lending.{clear_active_lender}
use wasm_vault.OpenInterest.Repay.{repay, repay_response, collect_repayment}
use wasm_vault.Tests.Fixtures.{Vault}
use wasm_vault.UnitTests.Mock.{
  Outcome, mock_dependencies, querier, mock_env, message_info, sample_coin, build_open_interest,
  setup, setup_active_open_interest, storage,
}

abbrev ready : Vault
ready = setup storage "owner"

abbrev interest : OpenInterest
interest =
    build_open_interest (sample_coin 100 "uusd") (sample_coin 15 "uinterest") 86_400
      (sample_coin 200 "uatom")

abbrev lent : Vault
lent = setup_active_open_interest storage "owner" "lender" interest

abbrev repays : List Coin → Addr → Vault → Outcome
repays bank sender s =
    repay (querier (record mock_dependencies { bank = bank })) mock_env (message_info sender []) s

abbrev repay_rejects_without_active_open_interest : Outcome
repay_rejects_without_active_open_interest = repays [] "owner" ready

repay_rejects_without_active_open_interest_passes :
    repay_rejects_without_active_open_interest ≡ err no_open_interest
unfolding repay require_owner
repay_rejects_without_active_open_interest_passes = refl

abbrev repay_rejects_without_lender : Outcome
repay_rejects_without_lender =
    repays [] "owner" (record ready { open_interest = some (some interest) })

repay_rejects_without_lender_passes : repay_rejects_without_lender ≡ err no_lender
unfolding repay require_owner
repay_rejects_without_lender_passes = refl

abbrev repay_rejects_non_owner_senders : Outcome
repay_rejects_non_owner_senders = repays [] "intruder" lent

repay_rejects_non_owner_senders_passes : repay_rejects_non_owner_senders ≡ err unauthorized
unfolding repay require_owner
repay_rejects_non_owner_senders_passes = refl

abbrev repay_rejects_insufficient_liquidity : Outcome
repay_rejects_insufficient_liquidity = repays (interest.interest_coin ∷ []) "owner" lent

repay_rejects_insufficient_liquidity_passes :
    repay_rejects_insufficient_liquidity ≡ err (insufficient_balance "uusd" 0 100)
unfolding repay require_owner collect_repayment build_repayment_amounts repayment_requirements
    accumulate_repayment_requirement convert_requirements clear_active_lender checked_add try_u128
    fits get insert
repay_rejects_insufficient_liquidity_passes = refl

abbrev repay_rejects_insufficient_interest : Outcome
repay_rejects_insufficient_interest = repays (interest.liquidity_coin ∷ []) "owner" lent

repay_rejects_insufficient_interest_passes :
    repay_rejects_insufficient_interest ≡ err (insufficient_balance "uinterest" 0 15)
unfolding repay require_owner collect_repayment build_repayment_amounts repayment_requirements
    accumulate_repayment_requirement convert_requirements clear_active_lender checked_add try_u128
    fits get insert
repay_rejects_insufficient_interest_passes = refl

abbrev repay_rejects_with_outstanding_debt : Outcome
repay_rejects_with_outstanding_debt =
    repays [] "owner" (record lent { outstanding_debt = some (some interest.liquidity_coin) })

repay_rejects_with_outstanding_debt_passes :
    repay_rejects_with_outstanding_debt ≡ err (outstanding_debt interest.liquidity_coin)
unfolding repay require_owner
repay_rejects_with_outstanding_debt_passes = refl

abbrev repay_succeeds_and_clears_state : Outcome
repay_succeeds_and_clears_state =
    repays (interest.liquidity_coin ∷ interest.interest_coin ∷ []) "owner" lent

repay_succeeds_and_clears_state_passes :
    repay_succeeds_and_clears_state
    ≡ ok (
      repay_response "lender" interest (interest.interest_coin ∷ interest.liquidity_coin ∷ []),
      record ready { last_liquidation_unbonding = some none },
    )
unfolding repay require_owner collect_repayment build_repayment_amounts repayment_requirements
    accumulate_repayment_requirement convert_requirements clear_active_lender checked_add try_u128
    fits get insert
repay_succeeds_and_clears_state_passes = refl
