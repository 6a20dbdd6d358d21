-- ===== src/UnitTests/Redelegations.antt =====
-- The tests of src/contract/staking/redelegate.rs.
use wasm_vault.Prelude.{ℕ, ◌≡◌, refl, String, none, some, List, [], ◌∷◌}
use wasm_vault.Types.{Addr, Coin, Response, staking_redelegate, respond, attr, text, num}
use wasm_vault.Errors.{
  ok, err, unauthorized, invalid_redelegation_amount, outstanding_debt,
  redelegate_to_same_validator, delegation_not_found, insufficient_delegated_balance,
  validator_not_found,
}
use wasm_vault.Helpers.{require_owner}
use wasm_vault.Staking.Redelegate.{execute, refuse_while_lent}
use wasm_vault.Tests.Fixtures.{Vault}
use wasm_vault.UnitTests.Mock.{
  Outcome, Mock, mock_dependencies, querier, mock_env, message_info, sample_coin, storage,
}

abbrev setup_owner_and_zero_debt : Vault → Addr → Vault
setup_owner_and_zero_debt s owner = record s {
  owner = some owner;
  lender = some none;
  outstanding_debt = some none;
}

abbrev ready : Vault
ready = setup_owner_and_zero_debt storage "owner"

abbrev owing : Coin → Vault
owing debt = record ready { outstanding_debt = some (some debt) }

-- A stake with the source validator, and the validators that the chain knows.
abbrev staked : ℕ → List String → Mock
staked amount validators = record mock_dependencies {
  validators = validators;
  delegations = record { validator = "validator"; amount = sample_coin amount "ucosm" } ∷ [];
}

abbrev both : List String
both = "validator" ∷ "validator-two" ∷ []

abbrev redelegate : Mock → Addr → String → ℕ → Vault → Outcome
redelegate mock sender dst amount s =
    execute (querier mock) mock_env (message_info sender []) "validator" dst amount s

-- What a redelegation that succeeds returns.
abbrev moved : ℕ → Response
moved amount =
    respond (staking_redelegate "validator" "validator-two" (sample_coin amount "ucosm") ∷ []) (
      attr "action" (text "redelegate")
      ∷ attr "src_validator" (text "validator")
      ∷ attr "dst_validator" (text "validator-two")
      ∷ attr "denom" (text "ucosm")
      ∷ attr "amount" (num amount)
      ∷ [])

abbrev fails_for_unauthorized_sender : Outcome
fails_for_unauthorized_sender = redelegate mock_dependencies "intruder" "validator-two" 10 ready

fails_for_unauthorized_sender_passes : fails_for_unauthorized_sender ≡ err unauthorized
unfolding execute require_owner refuse_while_lent
fails_for_unauthorized_sender_passes = refl

abbrev fails_for_zero_amount : Outcome
fails_for_zero_amount = redelegate mock_dependencies "owner" "validator-two" 0 ready

fails_for_zero_amount_passes : fails_for_zero_amount ≡ err invalid_redelegation_amount
unfolding execute require_owner refuse_while_lent
fails_for_zero_amount_passes = refl

abbrev fails_when_outstanding_debt_matches_bonded_denom : Outcome
fails_when_outstanding_debt_matches_bonded_denom =
    redelegate mock_dependencies "owner" "validator-two" 10
      (record (owing (sample_coin 250 "ucosm")) { lender = some (some "lender") })

fails_when_outstanding_debt_matches_bonded_denom_passes :
    fails_when_outstanding_debt_matches_bonded_denom
    ≡ err (outstanding_debt (sample_coin 250 "ucosm"))
unfolding execute require_owner refuse_while_lent
fails_when_outstanding_debt_matches_bonded_denom_passes = refl

abbrev allows_redelegation_when_outstanding_debt_matches_bonded_denom_without_lender : Outcome
allows_redelegation_when_outstanding_debt_matches_bonded_denom_without_lender =
    redelegate (staked 300 both) "owner" "validator-two" 50 (owing (sample_coin 250 "ucosm"))

allows_redelegation_when_outstanding_debt_matches_bonded_denom_without_lender_passes :
    allows_redelegation_when_outstanding_debt_matches_bonded_denom_without_lender
    ≡ ok (moved 50, owing (sample_coin 250 "ucosm"))
unfolding execute require_owner refuse_while_lent
allows_redelegation_when_outstanding_debt_matches_bonded_denom_without_lender_passes = refl

abbrev allows_redelegation_when_outstanding_debt_is_other_denom : Outcome
allows_redelegation_when_outstanding_debt_is_other_denom =
    redelegate (staked 300 both) "owner" "validator-two" 50 (owing (sample_coin 250 "ucosm_alt"))

allows_redelegation_when_outstanding_debt_is_other_denom_passes :
    allows_redelegation_when_outstanding_debt_is_other_denom
    ≡ ok (moved 50, owing (sample_coin 250 "ucosm_alt"))
unfolding execute require_owner refuse_while_lent
allows_redelegation_when_outstanding_debt_is_other_denom_passes = refl

abbrev fails_when_same_validator_used : Outcome
fails_when_same_validator_used = redelegate mock_dependencies "owner" "validator" 10 ready

fails_when_same_validator_used_passes :
    fails_when_same_validator_used ≡ err redelegate_to_same_validator
unfolding execute require_owner refuse_while_lent
fails_when_same_validator_used_passes = refl

abbrev fails_when_delegation_missing : Outcome
fails_when_delegation_missing = redelegate mock_dependencies "owner" "validator-two" 10 ready

fails_when_delegation_missing_passes :
    fails_when_delegation_missing ≡ err (delegation_not_found "validator")
unfolding execute require_owner refuse_while_lent
fails_when_delegation_missing_passes = refl

abbrev fails_when_delegated_balance_insufficient : Outcome
fails_when_delegated_balance_insufficient =
    redelegate (staked 40 ("validator" ∷ [])) "owner" "validator-two" 100 ready

fails_when_delegated_balance_insufficient_passes :
    fails_when_delegated_balance_insufficient
    ≡ err (insufficient_delegated_balance "validator" 40 100)
unfolding execute require_owner refuse_while_lent
fails_when_delegated_balance_insufficient_passes = refl

abbrev fails_when_destination_validator_missing : Outcome
fails_when_destination_validator_missing =
    redelegate (staked 120 ("validator" ∷ [])) "owner" "validator-two" 50 ready

fails_when_destination_validator_missing_passes :
    fails_when_destination_validator_missing ≡ err (validator_not_found "validator-two")
unfolding execute require_owner refuse_while_lent
fails_when_destination_validator_missing_passes = refl

abbrev creates_redelegate_message : Outcome
creates_redelegate_message = redelegate (staked 300 both) "owner" "validator-two" 150 ready

creates_redelegate_message_passes : creates_redelegate_message ≡ ok (moved 150, ready)
unfolding execute require_owner refuse_while_lent
creates_redelegate_message_passes = refl
