-- ===== src/UnitTests/Delegations.antt =====
-- The tests of src/contract/staking/delegate.rs.
use wasm_vault.Prelude.{ℕ, ◌≡◌, refl, String, none, some, [], ◌∷◌}
use wasm_vault.Types.{Addr, Response, staking_delegate, respond, attr, text, num}
use wasm_vault.Errors.{
  ok, err, unauthorized, invalid_delegation_amount, insufficient_balance, validator_not_found,
  outstanding_debt,
}
use wasm_vault.Uint.{try_u128, fits}
use wasm_vault.Helpers.{require_owner}
use wasm_vault.Staking.Delegate.{execute, reserved_debt_for_denom}
use wasm_vault.Tests.Fixtures.{Vault}
use wasm_vault.UnitTests.Mock.{
  Outcome, Mock, mock_dependencies, querier, mock_env, message_info, sample_coin,
  build_open_interest, storage,
}

abbrev setup_owner_and_zero_debt : Vault → Addr → Vault
setup_owner_and_zero_debt s owner = record s {
  owner = some owner;
  outstanding_debt = some none;
  lender = some none;
  open_interest = some none;
}

abbrev ready : Vault
ready = setup_owner_and_zero_debt storage "owner"

abbrev owing : ℕ → String → Vault
owing amount denom = record ready { outstanding_debt = some (some (sample_coin amount denom)) }

-- A request of 400 ucosm whose offers hold that much.
abbrev escrowing : ℕ → Vault
escrowing amount = record (owing amount "ucosm") {
  open_interest = some (
      some (
        build_open_interest (sample_coin 400 "ucosm") (sample_coin 20 "ujuno") 86_400
          (sample_coin 200 "uatom")));
}

abbrev banked : ℕ → Mock
banked amount = record mock_dependencies { bank = sample_coin amount "ucosm" ∷ [] }

-- The chain also knows the validator.
abbrev validated : ℕ → Mock
validated amount = record (banked amount) { validators = "validator" ∷ [] }

abbrev delegate : Mock → Addr → ℕ → Vault → Outcome
delegate mock sender amount s =
    execute (querier mock) mock_env (message_info sender []) "validator" amount s

-- What a delegation that succeeds returns.
abbrev staked : ℕ → Response
staked amount = respond (staking_delegate "validator" (sample_coin amount "ucosm") ∷ []) (
    attr "action" (text "delegate")
    ∷ attr "validator" (text "validator")
    ∷ attr "denom" (text "ucosm")
    ∷ attr "amount" (num amount)
    ∷ [])

abbrev fails_for_unauthorized_sender : Outcome
fails_for_unauthorized_sender = delegate mock_dependencies "intruder" 10 ready

fails_for_unauthorized_sender_passes : fails_for_unauthorized_sender ≡ err unauthorized
unfolding execute require_owner
fails_for_unauthorized_sender_passes = refl

abbrev fails_for_zero_amount : Outcome
fails_for_zero_amount = delegate mock_dependencies "owner" 0 ready

fails_for_zero_amount_passes : fails_for_zero_amount ≡ err invalid_delegation_amount
unfolding execute require_owner
fails_for_zero_amount_passes = refl

abbrev fails_for_insufficient_balance : Outcome
fails_for_insufficient_balance = delegate (banked 50) "owner" 100 ready

fails_for_insufficient_balance_passes :
    fails_for_insufficient_balance ≡ err (insufficient_balance "ucosm" 50 100)
unfolding execute require_owner reserved_debt_for_denom try_u128 fits
fails_for_insufficient_balance_passes = refl

abbrev fails_for_missing_validator : Outcome
fails_for_missing_validator = delegate (banked 100) "owner" 50 ready

fails_for_missing_validator_passes :
    fails_for_missing_validator ≡ err (validator_not_found "validator")
unfolding execute require_owner reserved_debt_for_denom
fails_for_missing_validator_passes = refl

abbrev fails_when_outstanding_debt_exists_for_denom : Outcome
fails_when_outstanding_debt_exists_for_denom =
    delegate mock_dependencies "owner" 50 (owing 500 "ucosm")

fails_when_outstanding_debt_exists_for_denom_passes :
    fails_when_outstanding_debt_exists_for_denom ≡ err (outstanding_debt (sample_coin 500 "ucosm"))
unfolding execute require_owner reserved_debt_for_denom
fails_when_outstanding_debt_exists_for_denom_passes = refl

abbrev allows_delegation_when_outstanding_debt_is_other_denom : Outcome
allows_delegation_when_outstanding_debt_is_other_denom =
    delegate (validated 300) "owner" 200 (owing 750 "uatom")

allows_delegation_when_outstanding_debt_is_other_denom_passes :
    allows_delegation_when_outstanding_debt_is_other_denom ≡ ok (staked 200, owing 750 "uatom")
unfolding execute require_owner reserved_debt_for_denom
allows_delegation_when_outstanding_debt_is_other_denom_passes = refl

abbrev allows_delegation_with_counter_offer_outstanding_debt : Outcome
allows_delegation_with_counter_offer_outstanding_debt =
    delegate (validated 600) "owner" 200 (escrowing 150)

allows_delegation_with_counter_offer_outstanding_debt_passes :
    allows_delegation_with_counter_offer_outstanding_debt ≡ ok (staked 200, escrowing 150)
unfolding execute require_owner reserved_debt_for_denom
allows_delegation_with_counter_offer_outstanding_debt_passes = refl

abbrev fails_when_reserved_debt_blocks_delegation : Outcome
fails_when_reserved_debt_blocks_delegation = delegate (validated 500) "owner" 100 (escrowing 450)

fails_when_reserved_debt_blocks_delegation_passes :
    fails_when_reserved_debt_blocks_delegation ≡ err (insufficient_balance "ucosm" 50 100)
unfolding execute require_owner reserved_debt_for_denom try_u128 fits
fails_when_reserved_debt_blocks_delegation_passes = refl

abbrev creates_delegate_message : Outcome
creates_delegate_message = delegate (validated 200) "owner" 150 ready

creates_delegate_message_passes : creates_delegate_message ≡ ok (staked 150, ready)
unfolding execute require_owner reserved_debt_for_denom
creates_delegate_message_passes = refl
