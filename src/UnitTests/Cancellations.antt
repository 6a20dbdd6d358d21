-- ===== src/UnitTests/Cancellations.antt =====
-- The tests of src/contract/counter_offer/cancel.rs.
use wasm_vault.Prelude.{◌≡◌, refl, none, some, []}
use wasm_vault.BTreeMap.{get, insert, remove}
use wasm_vault.Types.{Addr}
use wasm_vault.Errors.{ok, err, no_open_interest, counter_offer_not_found, ◌>>=◌}
use wasm_vault.Uint.{add_u256, checked_add, checked_sub, increment_u8, fits}
use wasm_vault.OpenInterest.Lending.{received_funds, add_amounts}
use wasm_vault.CounterOffer.Helpers.{
  validate_counter_offer, validate_counter_offer_escrow, determine_eviction_candidate,
  snapshot_counter_offer_capacity, worst_offer, evict_from, add_outstanding_debt, added_debt,
  release_outstanding_debt, released_debt,
}
use wasm_vault.CounterOffer.Propose.{propose, evict}
use wasm_vault.CounterOffer.Cancel.{cancel, cancel_response}
use wasm_vault.Tests.Fixtures.{listed, Vault}
use wasm_vault.UnitTests.Mock.{Outcome, mock_env, message_info, setup_open_interest, storage}
use wasm_vault.UnitTests.Proposals.{lowered, funded}

abbrev ready : Vault
ready = setup_open_interest storage "owner"

abbrev cancels : Addr → Vault → Outcome
cancels proposer s = cancel mock_env (message_info proposer []) s

abbrev proposer_can_cancel_counter_offer : Outcome
proposer_can_cancel_counter_offer =
    funded "proposer" (lowered 25) ready >>= λ proposed. cancels "proposer" proposed.1

proposer_can_cancel_counter_offer_passes :
    proposer_can_cancel_counter_offer ≡ ok (cancel_response "proposer" (lowered 25), ready)
unfolding cancel propose evict validate_counter_offer validate_counter_offer_escrow received_funds
    add_amounts add_u256 fits determine_eviction_candidate snapshot_counter_offer_capacity
    worst_offer increment_u8 evict_from add_outstanding_debt added_debt release_outstanding_debt
    released_debt checked_add checked_sub get insert remove
proposer_can_cancel_counter_offer_passes = refl

abbrev cancel_rejects_missing_offer : Outcome
cancel_rejects_missing_offer = cancels "missing" ready

cancel_rejects_missing_offer_passes :
    cancel_rejects_missing_offer ≡ err (counter_offer_not_found "missing")
unfolding cancel get
cancel_rejects_missing_offer_passes = refl

abbrev cancel_rejects_without_open_interest : Outcome
cancel_rejects_without_open_interest = funded "proposer" (lowered 5) ready >>= λ proposed.
    cancels "proposer" (record proposed.1 { open_interest = some none })

cancel_rejects_without_open_interest_passes :
    cancel_rejects_without_open_interest ≡ err no_open_interest
unfolding cancel propose evict validate_counter_offer validate_counter_offer_escrow received_funds
    add_amounts add_u256 fits determine_eviction_candidate snapshot_counter_offer_capacity
    worst_offer increment_u8 evict_from add_outstanding_debt added_debt release_outstanding_debt
    released_debt checked_add checked_sub get insert remove
cancel_rejects_without_open_interest_passes = refl
