-- ===== src/UnitTests/Ownership.antt =====
-- The tests of src/contract/instantiate.rs and transfer.rs.
use wasm_vault.Prelude.{ℕ, ◌+◌, ◌≡◌, refl, String, Option, none, some, [], ◌∷◌}
use wasm_vault.Types.{
  Addr, Response, respond, attr, text, default_liquidation_unbonding_seconds,
  max_liquidation_unbonding_seconds,
}
use wasm_vault.Errors.{
  ok, err, unauthorized, ownership_unchanged, liquidation_unbonding_duration_too_long,
}
use wasm_vault.Helpers.{require_owner}
use wasm_vault.OpenInterest.Lending.{clear_active_lender}
use wasm_vault.Instantiate.{instantiate}
use wasm_vault.Transfer
use wasm_vault.Tests.Fixtures.{Vault}
use wasm_vault.UnitTests.Mock.{Outcome, mock_dependencies, querier, mock_env, message_info, storage}

abbrev instantiates : Option String → Option ℕ → Addr → Outcome
instantiates owner duration sender =
    instantiate (querier mock_dependencies) mock_env (message_info sender [])
      (record { owner = owner; liquidation_unbonding_duration = duration }) storage

-- The storage of a new vault.
abbrev instantiated : Addr → ℕ → Vault
instantiated owner duration = record storage {
  contract_version = some ("crates.io:wasm_vault", "0.1.0");
  owner = some owner;
  lender = some none;
  outstanding_debt = some none;
  open_interest = some none;
  open_interest_expiry = some none;
  liquidation_unbonding_duration = some duration;
  last_liquidation_unbonding = some none;
}

abbrev created : Addr → Response
created owner = respond [] (attr "method" (text "instantiate") ∷ attr "owner" (text owner) ∷ [])

abbrev instantiate_respects_explicit_owner : Outcome
instantiate_respects_explicit_owner = instantiates (some "owner") none "sender"

instantiate_respects_explicit_owner_passes :
    instantiate_respects_explicit_owner
    ≡ ok (created "owner", instantiated "owner" default_liquidation_unbonding_seconds)
unfolding instantiate clear_active_lender
instantiate_respects_explicit_owner_passes = refl

abbrev instantiate_defaults_to_sender : Outcome
instantiate_defaults_to_sender = instantiates none none "creator"

instantiate_defaults_to_sender_passes :
    instantiate_defaults_to_sender
    ≡ ok (created "creator", instantiated "creator" default_liquidation_unbonding_seconds)
unfolding instantiate clear_active_lender
instantiate_defaults_to_sender_passes = refl

abbrev instantiate_can_override_unbonding_duration : Outcome
instantiate_can_override_unbonding_duration = instantiates (some "owner") (some 3600) "sender"

instantiate_can_override_unbonding_duration_passes :
    instantiate_can_override_unbonding_duration ≡ ok (created "owner", instantiated "owner" 3600)
unfolding instantiate clear_active_lender
instantiate_can_override_unbonding_duration_passes = refl

abbrev instantiate_rejects_excessive_unbonding_duration : Outcome
instantiate_rejects_excessive_unbonding_duration =
    instantiates (some "owner") (some (max_liquidation_unbonding_seconds + 1)) "sender"

instantiate_rejects_excessive_unbonding_duration_passes :
    instantiate_rejects_excessive_unbonding_duration
    ≡ err (liquidation_unbonding_duration_too_long max_liquidation_unbonding_seconds)
unfolding instantiate clear_active_lender
instantiate_rejects_excessive_unbonding_duration_passes = refl

abbrev owned : Addr → Vault
owned owner = record storage { owner = some owner }

abbrev transfers : Addr → String → Outcome
transfers sender new_owner =
    Transfer.execute (querier mock_dependencies) (message_info sender []) new_owner (owned "owner")

abbrev fails_for_unauthorized_sender : Outcome
fails_for_unauthorized_sender = transfers "intruder" "new_owner"

fails_for_unauthorized_sender_passes : fails_for_unauthorized_sender ≡ err unauthorized
unfolding Transfer.execute require_owner
fails_for_unauthorized_sender_passes = refl

abbrev fails_for_same_owner : Outcome
fails_for_same_owner = transfers "owner" "owner"

fails_for_same_owner_passes : fails_for_same_owner ≡ err ownership_unchanged
unfolding Transfer.execute require_owner
fails_for_same_owner_passes = refl

abbrev updates_owner_and_emits_attributes : Outcome
updates_owner_and_emits_attributes = transfers "owner" "new_owner"

updates_owner_and_emits_attributes_passes :
    updates_owner_and_emits_attributes
    ≡ ok (
      respond [] (
          attr "action" (text "transfer_ownership")
          ∷ attr "previous_owner" (text "owner")
          ∷ attr "new_owner" (text "new_owner")
          ∷ []),
      owned "new_owner",
    )
unfolding Transfer.execute require_owner
updates_owner_and_emits_attributes_passes = refl
