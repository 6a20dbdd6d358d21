-- ===== src/UnitTests/Closings.antt =====
-- The tests of src/contract/open_interest/close.rs.
use wasm_vault.Prelude.{ℕ, ◌≡◌, refl, none, some, [], ◌∷◌}
use wasm_vault.BTreeMap.{get, insert}
use wasm_vault.Types.{OpenInterest, respond}
use wasm_vault.Errors.{ok, err, unauthorized, no_open_interest, lender_already_set, ◌>>=◌}
use wasm_vault.Uint.{checked_add, try_u128, fits}
use wasm_vault.Helpers.{require_owner}
use wasm_vault.OpenInterest.Terms.{
  validate_open_interest, validate_coin, build_repayment_amounts, repayment_requirements,
  accumulate_repayment_requirement, convert_requirements, ensure_collateral_available,
  query_available_balance, open_interest_attributes,
}
use wasm_vault.OpenInterest.Lending.{refund, clear_active_lender, refund_counter_offer_escrow}
use wasm_vault.OpenInterest.Execute.{execute}
use wasm_vault.OpenInterest.Close.{close}
use wasm_vault.Tests.Fixtures.{listed, Vault}
use wasm_vault.UnitTests.Mock.{
  Outcome, Mock, mock_dependencies, querier, mock_env, message_info, sample_coin,
  build_open_interest, setup, storage,
}

abbrev ready : Vault
ready = setup storage "owner"

-- The terms of the tests, with their liquidity, interest, duration and collateral.
abbrev terms : ℕ → ℕ → ℕ → ℕ → OpenInterest
terms liquidity interest duration collateral =
    build_open_interest (sample_coin liquidity "uusd") (sample_coin interest "ujuno") duration
      (sample_coin collateral "uatom")

abbrev request : OpenInterest
request = terms 100 5 86_400 200

abbrev asking : Vault
asking = record ready { open_interest = some (some request) }

abbrev owner_closes : Vault → Outcome
owner_closes s = close (message_info "owner" []) s

abbrev banked : ℕ → Mock
banked amount = record mock_dependencies { bank = sample_coin amount "uatom" ∷ [] }

abbrev close_rejects_non_owner_senders : Outcome
close_rejects_non_owner_senders = close (message_info "intruder" []) ready

close_rejects_non_owner_senders_passes : close_rejects_non_owner_senders ≡ err unauthorized
unfolding close require_owner clear_active_lender refund_counter_offer_escrow
close_rejects_non_owner_senders_passes = refl

abbrev close_requires_active_open_interest : Outcome
close_requires_active_open_interest = owner_closes ready

close_requires_active_open_interest_passes :
    close_requires_active_open_interest ≡ err no_open_interest
unfolding close require_owner clear_active_lender refund_counter_offer_escrow
close_requires_active_open_interest_passes = refl

abbrev close_rejects_when_lender_present : Outcome
close_rejects_when_lender_present = owner_closes (record asking { lender = some (some "lender") })

close_rejects_when_lender_present_passes :
    close_rejects_when_lender_present ≡ err lender_already_set
unfolding close require_owner clear_active_lender refund_counter_offer_escrow
close_rejects_when_lender_present_passes = refl

abbrev close_clears_open_interest_and_emits_attributes : Outcome
close_clears_open_interest_and_emits_attributes = owner_closes asking

close_clears_open_interest_and_emits_attributes_passes :
    close_clears_open_interest_and_emits_attributes
    ≡ ok (
      respond [] (open_interest_attributes "close_open_interest" request),
      record ready { last_liquidation_unbonding = some none },
    )
unfolding close require_owner clear_active_lender refund_counter_offer_escrow
close_clears_open_interest_and_emits_attributes_passes = refl

abbrev close_clears_counter_offers : Outcome
close_clears_counter_offers = owner_closes (record asking {
  outstanding_debt = some (some request.liquidity_coin);
  counter_offers = ("proposer", request) ∷ [];
})

close_clears_counter_offers_passes :
    close_clears_counter_offers
    ≡ ok (
      respond
          (refund ("proposer", request) ∷ [])
          (open_interest_attributes "close_open_interest" request),
      record ready { last_liquidation_unbonding = some none },
    )
unfolding close require_owner clear_active_lender refund_counter_offer_escrow
close_clears_counter_offers_passes = refl

-- The request of the first opening.
abbrev first_opening : Outcome
first_opening = execute (querier (banked 200)) mock_env (message_info "owner" []) request ready

abbrev stale : OpenInterest
stale = terms 90 5 86_400 200

abbrev reopened : OpenInterest
reopened = terms 200 10 172_800 300

abbrev owner_can_reopen_interest_after_closing_offers : Outcome
owner_can_reopen_interest_after_closing_offers = first_opening >>= λ opened.
    owner_closes (record opened.1 {
      counter_offers = ("stale", stale) ∷ [];
      outstanding_debt = some (some stale.liquidity_coin);
    })
    >>= λ closed.
        execute (querier (banked 300)) mock_env (message_info "owner" []) reopened closed.1

owner_can_reopen_interest_after_closing_offers_passes :
    owner_can_reopen_interest_after_closing_offers
    ≡ ok (
      respond [] (open_interest_attributes "open_interest" reopened),
      record ready { open_interest = some (some reopened); last_liquidation_unbonding = some none },
    )
unfolding close execute require_owner clear_active_lender refund_counter_offer_escrow
    validate_open_interest validate_coin build_repayment_amounts repayment_requirements
    accumulate_repayment_requirement convert_requirements ensure_collateral_available
    query_available_balance checked_add try_u128 fits get insert
owner_can_reopen_interest_after_closing_offers_passes = refl

abbrev close_refunds_multiple_offers_and_clears_debt : Outcome
close_refunds_multiple_offers_and_clears_debt = owner_closes (record asking {
  counter_offers =
      ("proposer-a", terms 90 5 86_400 200) ∷ ("proposer-b", terms 80 5 86_400 200) ∷ [];
  outstanding_debt = some (some (sample_coin 170 "uusd"));
})

close_refunds_multiple_offers_and_clears_debt_passes :
    close_refunds_multiple_offers_and_clears_debt
    ≡ ok (
      respond
          (refund ("proposer-a", terms 90 5 86_400 200)
            ∷ refund ("proposer-b", terms 80 5 86_400 200)
            ∷ [])
          (open_interest_attributes "close_open_interest" request),
      record ready { last_liquidation_unbonding = some none },
    )
unfolding close require_owner clear_active_lender refund_counter_offer_escrow
close_refunds_multiple_offers_and_clears_debt_passes = refl
