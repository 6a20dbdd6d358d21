-- ===== src/UnitTests/Fundings.antt =====
-- The tests of src/contract/open_interest/fund.rs.
use wasm_vault.Prelude.{ℕ, ◌+◌, ◌*◌, ◌-◌, ◌≡◌, refl, Option, some, [], ◌∷◌}
use wasm_vault.Types.{Addr, OpenInterest}
use wasm_vault.Errors.{
  Result, ok, err, no_open_interest, lender_already_set, open_interest_mismatch,
  open_interest_funding_mismatch, ◌>>=◌,
}
use wasm_vault.Uint.{add_u256, fits}
use wasm_vault.OpenInterest.Lending.{
  refund, received_funds, add_amounts, validate_liquidity_funding, set_active_lender,
  refund_counter_offer_escrow,
}
use wasm_vault.OpenInterest.Fund.{fund, fund_response}
use wasm_vault.Tests.Fixtures.{listed, Vault}
use wasm_vault.UnitTests.Mock.{
  Outcome, mock_dependencies, querier, mock_env, message_info, sample_coin, build_open_interest,
  setup, storage,
}

abbrev ready : Vault
ready = setup storage "owner"

-- The request of most of the tests, and the storage with a request.
abbrev request : OpenInterest
request =
    build_open_interest (sample_coin 100 "uusd") (sample_coin 5 "ujuno") 86_400
      (sample_coin 200 "uatom")

abbrev with_request : OpenInterest → Vault
with_request terms = record ready { open_interest = some (some terms) }

abbrev funds_with : Addr → ℕ → OpenInterest → Vault → Outcome
funds_with lender amount terms s =
    fund (querier mock_dependencies) mock_env (message_info lender (sample_coin amount "uusd" ∷ []))
      terms s

abbrev fund_requires_active_open_interest : Outcome
fund_requires_active_open_interest = funds_with "lender" 100 request ready

fund_requires_active_open_interest_passes :
    fund_requires_active_open_interest ≡ err no_open_interest
unfolding fund
fund_requires_active_open_interest_passes = refl

abbrev fund_rejects_when_lender_already_present : Outcome
fund_rejects_when_lender_already_present =
    funds_with "new" 100 request (record (with_request request) { lender = some (some "existing") })

fund_rejects_when_lender_already_present_passes :
    fund_rejects_when_lender_already_present ≡ err lender_already_set
unfolding fund
fund_rejects_when_lender_already_present_passes = refl

abbrev fund_validates_exact_liquidity_amount : Outcome
fund_validates_exact_liquidity_amount = funds_with "lender" 99 request (with_request request)

fund_validates_exact_liquidity_amount_passes :
    fund_validates_exact_liquidity_amount ≡ err (open_interest_funding_mismatch "uusd" 100 99)
unfolding fund validate_liquidity_funding received_funds add_amounts add_u256 fits
fund_validates_exact_liquidity_amount_passes = refl

-- The terms with that much less liquidity.
abbrev less : ℕ → OpenInterest → OpenInterest
less amount terms = record terms {
  liquidity_coin = record terms.liquidity_coin { amount = terms.liquidity_coin.amount - amount };
}

abbrev fund_rejects_mismatched_open_interest : Outcome
fund_rejects_mismatched_open_interest =
    funds_with "lender" 100 (less 1 request) (with_request request)

fund_rejects_mismatched_open_interest_passes :
    fund_rejects_mismatched_open_interest ≡ err open_interest_mismatch
unfolding fund
fund_rejects_mismatched_open_interest_passes = refl

abbrev large : OpenInterest
large =
    build_open_interest (sample_coin 1000 "uusd") (sample_coin 50 "ujuno") 86_400
      (sample_coin 2000 "uatom")

abbrev fund_sets_lender_and_refunds_counter_offers : Outcome
fund_sets_lender_and_refunds_counter_offers =
    funds_with "lender" 1000 large (record (with_request large) {
      counter_offers = ("alice", less 100 large) ∷ ("bob", less 200 large) ∷ [];
      outstanding_debt = some (some large.liquidity_coin);
    })

fund_sets_lender_and_refunds_counter_offers_passes :
    fund_sets_lender_and_refunds_counter_offers
    ≡ ok (
      fund_response "lender" large
          (refund ("alice", less 100 large) ∷ refund ("bob", less 200 large) ∷ []),
      record (with_request large) {
        lender = some (some "lender");
        open_interest_expiry = some (some 1_571_883_819_879_305_533);
      },
    )
unfolding fund validate_liquidity_funding received_funds add_amounts add_u256 fits set_active_lender
    refund_counter_offer_escrow
fund_sets_lender_and_refunds_counter_offers_passes = refl

abbrev short : OpenInterest
short =
    build_open_interest (sample_coin 100 "uusd") (sample_coin 5 "uinterest") 1000
      (sample_coin 200 "uatom")

abbrev fund_records_expiry_timestamp : Result (Option (Option ℕ))
fund_records_expiry_timestamp = funds_with "lender" 100 short (with_request short) >>= λ funded.
    ok funded.1.open_interest_expiry

fund_records_expiry_timestamp_passes :
    fund_records_expiry_timestamp ≡ ok (some (some (mock_env.time + 1000 * 1_000_000_000)))
unfolding fund validate_liquidity_funding received_funds add_amounts add_u256 fits set_active_lender
    refund_counter_offer_escrow
fund_records_expiry_timestamp_passes = refl
