-- ===== src/UnitTests/Openings.antt =====
-- The tests of src/contract/open_interest/execute.rs and helpers.rs.
use wasm_vault.Prelude.{ℕ, ◌+◌, ◌-◌, ◌*◌, ◌^◌, ◌≡◌, refl, Bool, true, false, String, some, [], ◌∷◌}
use wasm_vault.BTreeMap.{get, insert}
use wasm_vault.Types.{Addr, Coin, OpenInterest, respond, default_liquidation_unbonding_seconds}
use wasm_vault.Errors.{
  Result, ok, err, unauthorized, open_interest_already_exists, invalid_coin_amount,
  invalid_coin_denom, invalid_expiry_duration, repayment_amount_overflow, insufficient_balance,
  ◌>>=◌,
}
use wasm_vault.Uint.{checked_add, try_u128, fits}
use wasm_vault.Host.{Delegation, DecCoin}
use wasm_vault.Helpers.{
  require_owner, minimum_collateral_lock_for_denom, uncovered_collateral, query_staking_rewards,
  query_staked_balance, checked_sum,
}
use wasm_vault.OpenInterest.Terms.{
  validate_open_interest, validate_coin, build_repayment_amounts, repayment_requirements,
  accumulate_repayment_requirement, convert_requirements, ensure_collateral_available,
  query_available_balance, cover_by_stake, uint256_to_uint128, open_interest_attributes,
}
use wasm_vault.OpenInterest.Liquidation.{liquidation_can_schedule_undelegations}
use wasm_vault.OpenInterest.Execute.{execute}
use wasm_vault.Tests.Fixtures.{listed, Vault}
use wasm_vault.UnitTests.Mock.{
  Outcome, Mock, mock_dependencies, querier, mock_env, message_info, sample_coin,
  build_open_interest, setup, storage,
}

abbrev ready : Vault
ready = setup storage "owner"

-- The request of the tests, in a liquidity and a duration.
abbrev request : Coin → ℕ → OpenInterest
request liquidity duration =
    build_open_interest liquidity (sample_coin 5 "ujuno") duration (sample_coin 200 "uatom")

abbrev usual : OpenInterest
usual = request (sample_coin 100 "uusd") 86_400

abbrev opens : Mock → Addr → OpenInterest → Vault → Outcome
opens mock sender terms s = execute (querier mock) mock_env (message_info sender []) terms s

abbrev rejects_non_owner_senders : Outcome
rejects_non_owner_senders = opens mock_dependencies "intruder" usual ready

rejects_non_owner_senders_passes : rejects_non_owner_senders ≡ err unauthorized
unfolding execute require_owner
rejects_non_owner_senders_passes = refl

abbrev rejects_when_interest_already_open : Outcome
rejects_when_interest_already_open =
    opens mock_dependencies "owner" usual (record ready { open_interest = some (some usual) })

rejects_when_interest_already_open_passes :
    rejects_when_interest_already_open ≡ err open_interest_already_exists
unfolding execute require_owner
rejects_when_interest_already_open_passes = refl

abbrev rejects_zero_coin_amounts : Outcome
rejects_zero_coin_amounts =
    opens mock_dependencies "owner" (request (sample_coin 0 "uusd") 86_400) ready

rejects_zero_coin_amounts_passes :
    rejects_zero_coin_amounts ≡ err (invalid_coin_amount "liquidity_coin")
unfolding execute require_owner validate_open_interest validate_coin build_repayment_amounts
    repayment_requirements accumulate_repayment_requirement convert_requirements
    ensure_collateral_available query_available_balance cover_by_stake uint256_to_uint128
    minimum_collateral_lock_for_denom uncovered_collateral query_staking_rewards
    query_staked_balance checked_sum checked_add try_u128 fits get insert
rejects_zero_coin_amounts_passes = refl

abbrev rejects_empty_denoms : Outcome
rejects_empty_denoms = opens mock_dependencies "owner" (request (sample_coin 100 "") 86_400) ready

rejects_empty_denoms_passes : rejects_empty_denoms ≡ err (invalid_coin_denom "liquidity_coin")
unfolding execute require_owner validate_open_interest validate_coin build_repayment_amounts
    repayment_requirements accumulate_repayment_requirement convert_requirements
    ensure_collateral_available query_available_balance cover_by_stake uint256_to_uint128
    minimum_collateral_lock_for_denom uncovered_collateral query_staking_rewards
    query_staked_balance checked_sum checked_add try_u128 fits get insert
rejects_empty_denoms_passes = refl

abbrev rejects_zero_expiry_duration : Outcome
rejects_zero_expiry_duration =
    opens mock_dependencies "owner" (request (sample_coin 100 "uusd") 0) ready

rejects_zero_expiry_duration_passes : rejects_zero_expiry_duration ≡ err invalid_expiry_duration
unfolding execute require_owner validate_open_interest validate_coin build_repayment_amounts
    repayment_requirements accumulate_repayment_requirement convert_requirements
    ensure_collateral_available query_available_balance cover_by_stake uint256_to_uint128
    minimum_collateral_lock_for_denom uncovered_collateral query_staking_rewards
    query_staked_balance checked_sum checked_add try_u128 fits get insert
rejects_zero_expiry_duration_passes = refl

abbrev rejects_repayment_overflow : Outcome
rejects_repayment_overflow =
    opens mock_dependencies "owner"
      (build_open_interest (sample_coin (2 ^ 128 - 1) "uusd") (sample_coin 1 "uusd") 86_400
        (sample_coin 200 "uatom"))
      ready

rejects_repayment_overflow_passes :
    rejects_repayment_overflow ≡ err (repayment_amount_overflow "uusd" (2 ^ 128))
unfolding execute require_owner validate_open_interest validate_coin build_repayment_amounts
    repayment_requirements accumulate_repayment_requirement convert_requirements
    ensure_collateral_available query_available_balance cover_by_stake uint256_to_uint128
    minimum_collateral_lock_for_denom uncovered_collateral query_staking_rewards
    query_staked_balance checked_sum checked_add try_u128 fits get insert
rejects_repayment_overflow_passes = refl

abbrev stores_open_interest_when_inputs_valid : Outcome
stores_open_interest_when_inputs_valid =
    opens (record mock_dependencies { bank = sample_coin 200 "uatom" ∷ [] }) "owner" usual ready

stores_open_interest_when_inputs_valid_passes :
    stores_open_interest_when_inputs_valid
    ≡ ok (
      respond [] (open_interest_attributes "open_interest" usual),
      record ready { open_interest = some (some usual) },
    )
unfolding execute require_owner validate_open_interest validate_coin build_repayment_amounts
    repayment_requirements accumulate_repayment_requirement convert_requirements
    ensure_collateral_available query_available_balance cover_by_stake uint256_to_uint128
    minimum_collateral_lock_for_denom uncovered_collateral query_staking_rewards
    query_staked_balance checked_sum checked_add try_u128 fits get insert
stores_open_interest_when_inputs_valid_passes = refl

abbrev test_open_interest : Coin → OpenInterest
test_open_interest collateral =
    build_open_interest (sample_coin 100 "uusd") (sample_coin 5 "ujuno") 86_400 collateral

abbrev reward_coin : ℕ → String → DecCoin
reward_coin amount denom = record { denom = denom; amount = amount * 10 ^ 18 }

abbrev staking_delegation : ℕ → Delegation
staking_delegation amount = record { validator = "validator"; amount = sample_coin amount "ucosm" }

-- 50 ucosm, a stake of 100 and rewards.
abbrev staking : ℕ → Mock
staking rewards = record mock_dependencies {
  bank = sample_coin 50 "ucosm" ∷ [];
  validators = "validator" ∷ [];
  delegations = staking_delegation 100 ∷ [];
  rewards = reward_coin rewards "ucosm" ∷ [];
}

abbrev rejects_non_staking_collateral_if_balance_missing : Result (Unit {0})
rejects_non_staking_collateral_if_balance_missing =
    validate_open_interest
      (querier (record mock_dependencies { bank = sample_coin 150 "uatom" ∷ [] })) mock_env
      (test_open_interest (sample_coin 200 "uatom"))

rejects_non_staking_collateral_if_balance_missing_passes :
    rejects_non_staking_collateral_if_balance_missing ≡ err (insufficient_balance "uatom" 150 200)
unfolding validate_open_interest validate_coin build_repayment_amounts repayment_requirements
    accumulate_repayment_requirement convert_requirements ensure_collateral_available
    query_available_balance cover_by_stake uint256_to_uint128 minimum_collateral_lock_for_denom
    uncovered_collateral query_staking_rewards query_staked_balance checked_sum checked_add try_u128
    fits get insert
rejects_non_staking_collateral_if_balance_missing_passes = refl

abbrev accepts_staking_collateral_with_rewards_and_staked_balance : Result (Unit {0})
accepts_staking_collateral_with_rewards_and_staked_balance =
    validate_open_interest (querier (staking 80)) mock_env
      (test_open_interest (sample_coin 200 "ucosm"))

accepts_staking_collateral_with_rewards_and_staked_balance_passes :
    accepts_staking_collateral_with_rewards_and_staked_balance ≡ ok tt
unfolding validate_open_interest validate_coin build_repayment_amounts repayment_requirements
    accumulate_repayment_requirement convert_requirements ensure_collateral_available
    query_available_balance cover_by_stake uint256_to_uint128 minimum_collateral_lock_for_denom
    uncovered_collateral query_staking_rewards query_staked_balance checked_sum checked_add try_u128
    fits get insert
accepts_staking_collateral_with_rewards_and_staked_balance_passes = refl

abbrev rejects_staking_collateral_when_combined_balance_is_insufficient : Result (Unit {0})
rejects_staking_collateral_when_combined_balance_is_insufficient =
    validate_open_interest (querier (staking 20)) mock_env
      (test_open_interest (sample_coin 200 "ucosm"))

rejects_staking_collateral_when_combined_balance_is_insufficient_passes :
    rejects_staking_collateral_when_combined_balance_is_insufficient
    ≡ err (insufficient_balance "ucosm" 170 200)
unfolding validate_open_interest validate_coin build_repayment_amounts repayment_requirements
    accumulate_repayment_requirement convert_requirements ensure_collateral_available
    query_available_balance cover_by_stake uint256_to_uint128 minimum_collateral_lock_for_denom
    uncovered_collateral query_staking_rewards query_staked_balance checked_sum checked_add try_u128
    fits get insert
rejects_staking_collateral_when_combined_balance_is_insufficient_passes = refl

-- At the time of the last unbonding, and after the delay.
abbrev unbonded : Vault
unbonded = record storage { last_liquidation_unbonding = some (some mock_env.time) }

abbrev deferred_undelegation_respects_unbonding_delay : Result (Bool × Bool)
deferred_undelegation_respects_unbonding_delay =
    liquidation_can_schedule_undelegations (querier mock_dependencies) mock_env unbonded >>= λ now.
    liquidation_can_schedule_undelegations (querier mock_dependencies)
      (record mock_env {
        time = mock_env.time + default_liquidation_unbonding_seconds * 1_000_000_000;
      })
      unbonded
    >>= λ later. ok (now, later)

deferred_undelegation_respects_unbonding_delay_passes :
    deferred_undelegation_respects_unbonding_delay ≡ ok (false, true)
unfolding liquidation_can_schedule_undelegations
deferred_undelegation_respects_unbonding_delay_passes = refl
