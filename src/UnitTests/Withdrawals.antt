-- ===== src/UnitTests/Withdrawals.antt =====
-- The tests of src/contract/withdraw.rs.
use wasm_vault.Prelude.{ℕ, ◌*◌, ◌^◌, ◌≡◌, refl, String, none, some, [], ◌∷◌}
use wasm_vault.Types.{Addr}
use wasm_vault.Errors.{ok, err, unauthorized, invalid_withdrawal_amount, insufficient_balance}
use wasm_vault.Uint.{checked_add, try_u128, fits}
use wasm_vault.Host.{Delegation, DecCoin}
use wasm_vault.Helpers.{
  require_owner, minimum_collateral_lock_for_denom, uncovered_collateral, query_staking_rewards,
  query_staked_balance, checked_sum,
}
use wasm_vault.Withdraw.{execute, available_to_withdraw, withdraw_response}
use wasm_vault.Tests.Fixtures.{Vault}
use wasm_vault.UnitTests.Mock.{
  Outcome, Mock, mock_dependencies, querier, mock_env, message_info, sample_coin,
  build_open_interest, storage,
}

abbrev setup_owner_and_zero_debt : Vault → Addr → Vault
setup_owner_and_zero_debt s owner = record s {
  owner = some owner;
  outstanding_debt = some none;
  open_interest = some none;
}

abbrev ready : Vault
ready = setup_owner_and_zero_debt storage "owner"

abbrev owing : ℕ → Vault
owing amount = record ready { outstanding_debt = some (some (sample_coin amount "ucosm")) }

abbrev banked : ℕ → String → Mock
banked amount denom = record mock_dependencies { bank = sample_coin amount denom ∷ [] }

abbrev fails_for_unauthorized_sender : Outcome
fails_for_unauthorized_sender =
    execute (querier mock_dependencies) mock_env (message_info "intruder" []) "ucosm" 50 none ready

fails_for_unauthorized_sender_passes : fails_for_unauthorized_sender ≡ err unauthorized
unfolding execute require_owner
fails_for_unauthorized_sender_passes = refl

abbrev fails_for_zero_amount : Outcome
fails_for_zero_amount =
    execute (querier mock_dependencies) mock_env (message_info "owner" []) "ucosm" 0 none ready

fails_for_zero_amount_passes : fails_for_zero_amount ≡ err invalid_withdrawal_amount
unfolding execute require_owner
fails_for_zero_amount_passes = refl

abbrev fails_for_outstanding_debt_on_matching_denom : Outcome
fails_for_outstanding_debt_on_matching_denom =
    execute (querier (banked 200 "ucosm")) mock_env (message_info "owner" []) "ucosm" 10 none
      (owing 250)

fails_for_outstanding_debt_on_matching_denom_passes :
    fails_for_outstanding_debt_on_matching_denom ≡ err (insufficient_balance "ucosm" 0 10)
unfolding execute require_owner available_to_withdraw minimum_collateral_lock_for_denom try_u128
    fits
fails_for_outstanding_debt_on_matching_denom_passes = refl

abbrev allows_withdraw_when_balance_exceeds_outstanding_debt : Outcome
allows_withdraw_when_balance_exceeds_outstanding_debt =
    execute (querier (banked 600 "ucosm")) mock_env (message_info "owner" []) "ucosm" 200 none
      (owing 250)

allows_withdraw_when_balance_exceeds_outstanding_debt_passes :
    allows_withdraw_when_balance_exceeds_outstanding_debt
    ≡ ok (withdraw_response "ucosm" 200 "owner", owing 250)
unfolding execute require_owner available_to_withdraw minimum_collateral_lock_for_denom
allows_withdraw_when_balance_exceeds_outstanding_debt_passes = refl

abbrev fails_for_insufficient_balance : Outcome
fails_for_insufficient_balance =
    execute (querier mock_dependencies) mock_env (message_info "owner" []) "ucosm" 100 none ready

fails_for_insufficient_balance_passes :
    fails_for_insufficient_balance ≡ err (insufficient_balance "ucosm" 0 100)
unfolding execute require_owner available_to_withdraw minimum_collateral_lock_for_denom try_u128
    fits
fails_for_insufficient_balance_passes = refl

abbrev sends_funds_to_owner_when_no_recipient_provided : Outcome
sends_funds_to_owner_when_no_recipient_provided =
    execute (querier (banked 400 "ucosm")) mock_env (message_info "owner" []) "ucosm" 150 none ready

sends_funds_to_owner_when_no_recipient_provided_passes :
    sends_funds_to_owner_when_no_recipient_provided
    ≡ ok (withdraw_response "ucosm" 150 "owner", ready)
unfolding execute require_owner available_to_withdraw minimum_collateral_lock_for_denom
sends_funds_to_owner_when_no_recipient_provided_passes = refl

abbrev sends_funds_to_custom_recipient : Outcome
sends_funds_to_custom_recipient =
    execute (querier (banked 500 "ucosm")) mock_env (message_info "owner" []) "ucosm" 200
      (some "friend") ready

sends_funds_to_custom_recipient_passes :
    sends_funds_to_custom_recipient ≡ ok (withdraw_response "ucosm" 200 "friend", ready)
unfolding execute require_owner available_to_withdraw minimum_collateral_lock_for_denom
sends_funds_to_custom_recipient_passes = refl

abbrev allows_withdrawal_when_denom_differs_from_debt : Outcome
allows_withdrawal_when_denom_differs_from_debt =
    execute (querier (banked 600 "uother")) mock_env (message_info "owner" []) "uother" 250 none
      (owing 999)

allows_withdrawal_when_denom_differs_from_debt_passes :
    allows_withdrawal_when_denom_differs_from_debt
    ≡ ok (withdraw_response "uother" 250 "owner", owing 999)
unfolding execute require_owner available_to_withdraw minimum_collateral_lock_for_denom
allows_withdrawal_when_denom_differs_from_debt_passes = refl

-- A request of 100 uusd on a collateral of 200.
abbrev on_collateral : String → Vault
on_collateral denom = record ready {
  open_interest = some (
      some (
        build_open_interest (sample_coin 100 "uusd") (sample_coin 5 "ujuno") 86_400
          (sample_coin 200 denom)));
}

abbrev blocks_withdrawal_below_unfunded_nonbonded_collateral : Outcome
blocks_withdrawal_below_unfunded_nonbonded_collateral =
    execute (querier (record (banked 200 "uother") { bonded_denom = "uosm" })) mock_env
      (message_info "owner" []) "uother" 10 none (on_collateral "uother")

blocks_withdrawal_below_unfunded_nonbonded_collateral_passes :
    blocks_withdrawal_below_unfunded_nonbonded_collateral ≡ err (insufficient_balance "uother" 0 10)
unfolding execute require_owner available_to_withdraw minimum_collateral_lock_for_denom try_u128
    fits
blocks_withdrawal_below_unfunded_nonbonded_collateral_passes = refl

abbrev staking_delegation : ℕ → String → Delegation
staking_delegation amount denom = record {
  validator = "validator";
  amount = sample_coin amount denom;
}

abbrev reward_coin : ℕ → String → DecCoin
reward_coin amount denom = record { denom = denom; amount = amount * 10 ^ 18 }

abbrev blocks_withdrawal_below_unfunded_staked_collateral : Outcome
blocks_withdrawal_below_unfunded_staked_collateral =
    execute
      (querier (record (banked 120 "ucosm") {
        validators = "validator" ∷ [];
        delegations = staking_delegation 100 "ucosm" ∷ [];
        rewards = reward_coin 30 "ucosm" ∷ [];
      }))
      mock_env (message_info "owner" []) "ucosm" 100 none (on_collateral "ucosm")

blocks_withdrawal_below_unfunded_staked_collateral_passes :
    blocks_withdrawal_below_unfunded_staked_collateral ≡ err (insufficient_balance "ucosm" 50 100)
unfolding execute require_owner available_to_withdraw minimum_collateral_lock_for_denom
    uncovered_collateral query_staking_rewards query_staked_balance checked_sum checked_add try_u128
    fits
blocks_withdrawal_below_unfunded_staked_collateral_passes = refl
