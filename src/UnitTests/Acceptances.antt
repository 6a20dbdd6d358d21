-- ===== src/UnitTests/Acceptances.antt =====
-- The tests of src/contract/counter_offer/accept.rs.
use wasm_vault.Prelude.{◌≡◌, refl, none, some, [], ◌∷◌}
use wasm_vault.BTreeMap.{get, insert}
use wasm_vault.Types.{Addr, OpenInterest}
use wasm_vault.Errors.{
  ok, err, unauthorized, no_open_interest, lender_already_set, counter_offer_not_found,
  counter_offer_mismatch, ◌>>=◌,
}
use wasm_vault.Uint.{add_u256, checked_add, increment_u8, fits}
use wasm_vault.Helpers.{require_owner}
use wasm_vault.OpenInterest.Lending.{received_funds, add_amounts, set_active_lender}
use wasm_vault.CounterOffer.Helpers.{
  validate_counter_offer, validate_counter_offer_escrow, determine_eviction_candidate,
  snapshot_counter_offer_capacity, worst_offer, evict_from, add_outstanding_debt, added_debt,
}
use wasm_vault.CounterOffer.Propose.{propose, evict}
use wasm_vault.CounterOffer.Accept.{accept, accept_response}
use wasm_vault.Tests.Fixtures.{listed, Vault}
use wasm_vault.UnitTests.Mock.{
  Outcome, mock_dependencies, querier, mock_env, message_info, setup_open_interest, storage,
}
use wasm_vault.UnitTests.Proposals.{lowered, funded}

abbrev ready : Vault
ready = setup_open_interest storage "owner"

-- The owner, or whoever calls, accepts.
abbrev accepts : Addr → Addr → OpenInterest → Vault → Outcome
accepts sender proposer terms s =
    accept (querier mock_dependencies) mock_env (message_info sender []) proposer terms s

-- The storage when "accepted" lends on the terms, a day after the time of `mock_env`.
abbrev lent_by_accepted : OpenInterest → Vault
lent_by_accepted terms = record ready {
  open_interest = some (some terms);
  lender = some (some "accepted");
  open_interest_expiry = some (some 1_571_883_819_879_305_533);
}

abbrev owner_can_accept_counter_offer : Outcome
owner_can_accept_counter_offer = funded "accepted" (lowered 50) ready >>= λ first.
    funded "rival" (lowered 100) first.1 >>= λ second.
    accepts "owner" "accepted" (lowered 50) second.1

owner_can_accept_counter_offer_passes :
    owner_can_accept_counter_offer
    ≡ ok (
      accept_response "accepted" (lowered 50) (("rival", lowered 100) ∷ []),
      lent_by_accepted (lowered 50),
    )
unfolding accept require_owner set_active_lender propose evict validate_counter_offer
    validate_counter_offer_escrow received_funds add_amounts add_u256 fits
    determine_eviction_candidate snapshot_counter_offer_capacity worst_offer increment_u8 evict_from
    add_outstanding_debt added_debt checked_add get insert
owner_can_accept_counter_offer_passes = refl

abbrev accepting_solo_offer_clears_debt_without_refunds : Outcome
accepting_solo_offer_clears_debt_without_refunds = funded "accepted" (lowered 10) ready >>= λ first.
    accepts "owner" "accepted" (lowered 10) first.1

accepting_solo_offer_clears_debt_without_refunds_passes :
    accepting_solo_offer_clears_debt_without_refunds
    ≡ ok (accept_response "accepted" (lowered 10) [], lent_by_accepted (lowered 10))
unfolding accept require_owner set_active_lender propose evict validate_counter_offer
    validate_counter_offer_escrow received_funds add_amounts add_u256 fits
    determine_eviction_candidate snapshot_counter_offer_capacity worst_offer increment_u8 evict_from
    add_outstanding_debt added_debt checked_add get insert
accepting_solo_offer_clears_debt_without_refunds_passes = refl

abbrev accept_requires_owner : Outcome
accept_requires_owner = funded "proposer" (lowered 25) ready >>= λ first.
    accepts "intruder" "proposer" (lowered 25) first.1

accept_requires_owner_passes : accept_requires_owner ≡ err unauthorized
unfolding accept require_owner set_active_lender propose evict validate_counter_offer
    validate_counter_offer_escrow received_funds add_amounts add_u256 fits
    determine_eviction_candidate snapshot_counter_offer_capacity worst_offer increment_u8 evict_from
    add_outstanding_debt added_debt checked_add get insert
accept_requires_owner_passes = refl

abbrev accept_rejects_when_offer_missing : Outcome
accept_rejects_when_offer_missing =
    funded "proposer" (lowered 10) ready >>= λ first. accepts "owner" "missing" (lowered 10) first.1

accept_rejects_when_offer_missing_passes :
    accept_rejects_when_offer_missing ≡ err (counter_offer_not_found "missing")
unfolding accept require_owner set_active_lender propose evict validate_counter_offer
    validate_counter_offer_escrow received_funds add_amounts add_u256 fits
    determine_eviction_candidate snapshot_counter_offer_capacity worst_offer increment_u8 evict_from
    add_outstanding_debt added_debt checked_add get insert
accept_rejects_when_offer_missing_passes = refl

abbrev accept_rejects_without_open_interest : Outcome
accept_rejects_without_open_interest = funded "proposer" (lowered 100) ready >>= λ first.
    accepts "owner" "proposer" (lowered 100) (record first.1 { open_interest = some none })

accept_rejects_without_open_interest_passes :
    accept_rejects_without_open_interest ≡ err no_open_interest
unfolding accept require_owner set_active_lender propose evict validate_counter_offer
    validate_counter_offer_escrow received_funds add_amounts add_u256 fits
    determine_eviction_candidate snapshot_counter_offer_capacity worst_offer increment_u8 evict_from
    add_outstanding_debt added_debt checked_add get insert
accept_rejects_without_open_interest_passes = refl

abbrev accept_rejects_when_lender_already_set : Outcome
accept_rejects_when_lender_already_set = funded "proposer" (lowered 15) ready >>= λ first.
    accepts "owner" "proposer" (lowered 15) (record first.1 { lender = some (some "proposer") })

accept_rejects_when_lender_already_set_passes :
    accept_rejects_when_lender_already_set ≡ err lender_already_set
unfolding accept require_owner set_active_lender propose evict validate_counter_offer
    validate_counter_offer_escrow received_funds add_amounts add_u256 fits
    determine_eviction_candidate snapshot_counter_offer_capacity worst_offer increment_u8 evict_from
    add_outstanding_debt added_debt checked_add get insert
accept_rejects_when_lender_already_set_passes = refl

abbrev accept_rejects_mismatched_payload : Outcome
accept_rejects_mismatched_payload = funded "proposer" (lowered 20) ready >>= λ first.
    accepts "owner" "proposer" (lowered 21) first.1

accept_rejects_mismatched_payload_passes :
    accept_rejects_mismatched_payload ≡ err (counter_offer_mismatch "proposer")
unfolding accept require_owner set_active_lender propose evict validate_counter_offer
    validate_counter_offer_escrow received_funds add_amounts add_u256 fits
    determine_eviction_candidate snapshot_counter_offer_capacity worst_offer increment_u8 evict_from
    add_outstanding_debt added_debt checked_add get insert
accept_rejects_mismatched_payload_passes = refl
