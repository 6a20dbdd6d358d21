-- ===== src/UnitTests/Undelegations.antt =====
-- The tests of src/contract/staking/undelegate.rs and claim.rs.
use wasm_vault.Prelude.{ℕ, ◌≡◌, refl, String, none, some, [], ◌∷◌}
use wasm_vault.Types.{
  Addr, Response, staking_undelegate, withdraw_delegator_reward, respond, attr, text, num,
}
use wasm_vault.Errors.{
  ok, err, unauthorized, invalid_undelegation_amount, delegation_not_found,
  insufficient_delegated_balance, no_delegations,
}
use wasm_vault.Host.{Delegation}
use wasm_vault.Helpers.{require_owner}
use wasm_vault.Staking.Undelegate
use wasm_vault.Staking.Claim
use wasm_vault.Tests.Fixtures.{Vault}
use wasm_vault.UnitTests.Mock.{
  Outcome, Mock, mock_dependencies, querier, mock_env, message_info, sample_coin, storage,
}

abbrev setup_owner_and_zero_debt : Vault → Addr → Vault
setup_owner_and_zero_debt s owner = record s { owner = some owner; outstanding_debt = some none }

abbrev ready : Vault
ready = setup_owner_and_zero_debt storage "owner"

abbrev delegation : String → ℕ → Delegation
delegation validator amount = record { validator = validator; amount = sample_coin amount "ucosm" }

abbrev staked : ℕ → Mock
staked amount = record mock_dependencies {
  validators = "validator" ∷ [];
  delegations = delegation "validator" amount ∷ [];
}

abbrev undelegate : Mock → Addr → ℕ → Vault → Outcome
undelegate mock sender amount s =
    Undelegate.execute (querier mock) mock_env (message_info sender []) "validator" amount s

-- What an undelegation that succeeds returns.
abbrev unstaked : ℕ → Response
unstaked amount = respond (staking_undelegate "validator" (sample_coin amount "ucosm") ∷ []) (
    attr "action" (text "undelegate")
    ∷ attr "validator" (text "validator")
    ∷ attr "denom" (text "ucosm")
    ∷ attr "amount" (num amount)
    ∷ [])

abbrev fails_for_unauthorized_sender : Outcome
fails_for_unauthorized_sender = undelegate mock_dependencies "intruder" 10 ready

fails_for_unauthorized_sender_passes : fails_for_unauthorized_sender ≡ err unauthorized
unfolding Undelegate.execute require_owner
fails_for_unauthorized_sender_passes = refl

abbrev fails_for_zero_amount : Outcome
fails_for_zero_amount = undelegate mock_dependencies "owner" 0 ready

fails_for_zero_amount_passes : fails_for_zero_amount ≡ err invalid_undelegation_amount
unfolding Undelegate.execute require_owner
fails_for_zero_amount_passes = refl

abbrev fails_when_delegation_missing : Outcome
fails_when_delegation_missing = undelegate mock_dependencies "owner" 10 ready

fails_when_delegation_missing_passes :
    fails_when_delegation_missing ≡ err (delegation_not_found "validator")
unfolding Undelegate.execute require_owner
fails_when_delegation_missing_passes = refl

abbrev fails_when_delegated_balance_insufficient : Outcome
fails_when_delegated_balance_insufficient = undelegate (staked 75) "owner" 100 ready

fails_when_delegated_balance_insufficient_passes :
    fails_when_delegated_balance_insufficient
    ≡ err (insufficient_delegated_balance "validator" 75 100)
unfolding Undelegate.execute require_owner
fails_when_delegated_balance_insufficient_passes = refl

abbrev creates_undelegate_message : Outcome
creates_undelegate_message = undelegate (staked 300) "owner" 150 ready

creates_undelegate_message_passes : creates_undelegate_message ≡ ok (unstaked 150, ready)
unfolding Undelegate.execute require_owner
creates_undelegate_message_passes = refl

-- A debt in the bonded denom.
abbrev owing : Vault
owing = record ready { outstanding_debt = some (some (sample_coin 750 "ucosm")) }

abbrev allows_undelegation_even_with_outstanding_debt : Outcome
allows_undelegation_even_with_outstanding_debt = undelegate (staked 400) "owner" 200 owing

allows_undelegation_even_with_outstanding_debt_passes :
    allows_undelegation_even_with_outstanding_debt ≡ ok (unstaked 200, owing)
unfolding Undelegate.execute require_owner
allows_undelegation_even_with_outstanding_debt_passes = refl

abbrev setup_owner : Vault → Addr → Vault
setup_owner s owner = record s { owner = some owner }

abbrev claim : Mock → Addr → Vault → Outcome
claim mock sender s = Claim.execute (querier mock) mock_env (message_info sender []) s

abbrev claim_fails_for_unauthorized_sender : Outcome
claim_fails_for_unauthorized_sender =
    claim mock_dependencies "intruder" (setup_owner storage "owner")

claim_fails_for_unauthorized_sender_passes : claim_fails_for_unauthorized_sender ≡ err unauthorized
unfolding Claim.execute require_owner
claim_fails_for_unauthorized_sender_passes = refl

abbrev fails_when_no_delegations_exist : Outcome
fails_when_no_delegations_exist = claim mock_dependencies "owner" (setup_owner storage "owner")

fails_when_no_delegations_exist_passes : fails_when_no_delegations_exist ≡ err no_delegations
unfolding Claim.execute require_owner
fails_when_no_delegations_exist_passes = refl

abbrev creates_withdraw_messages_for_each_validator : Outcome
creates_withdraw_messages_for_each_validator =
    claim
      (record mock_dependencies {
        validators = "validator" ∷ "validator-two" ∷ [];
        delegations = delegation "validator" 300 ∷ delegation "validator-two" 200 ∷ [];
      })
      "owner" ready

creates_withdraw_messages_for_each_validator_passes :
    creates_withdraw_messages_for_each_validator
    ≡ ok (
      respond
          (withdraw_delegator_reward "validator" ∷ withdraw_delegator_reward "validator-two" ∷ [])
          (attr "action" (text "claim_delegator_rewards") ∷ attr "validator_count" (num 2) ∷ []),
      ready,
    )
unfolding Claim.execute require_owner
creates_withdraw_messages_for_each_validator_passes = refl
