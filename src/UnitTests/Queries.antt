-- ===== src/UnitTests/Queries.antt =====
-- The tests of src/contract/query.rs, up to the encoding of the answer.
use wasm_vault.Prelude.{ℕ, ◌≡◌, refl, none, some, [], ◌∷◌}
use wasm_vault.Types.{Addr, OpenInterest, CounterOffer, InfoResponse}
use wasm_vault.Errors.{Result, ok, err, std, not_found}
use wasm_vault.Query.{collect_info, sort_offers, insert_sorted, compare_offers}
use wasm_vault.Tests.Fixtures.{listed}
use wasm_vault.UnitTests.Mock.{sample_coin, build_open_interest, active, storage}

abbrev terms : OpenInterest
terms =
    build_open_interest (sample_coin 100 "uusd") (sample_coin 5 "uusd") 86_400
      (sample_coin 200 "ujuno")

abbrev ask : ℕ → OpenInterest
ask amount = record active { liquidity_coin = sample_coin amount "uusd" }

abbrev offer_of : Addr → OpenInterest → CounterOffer
offer_of proposer open_interest = record { proposer = proposer; open_interest = open_interest }

abbrev query_info_returns_owner_and_lender : Result InfoResponse
query_info_returns_owner_and_lender = collect_info (record storage {
  owner = some "owner";
  lender = some (some "lender");
  open_interest = some (some terms);
  counter_offers = ("proposer", terms) ∷ [];
})

query_info_returns_owner_and_lender_passes :
    query_info_returns_owner_and_lender
    ≡ ok (record {
      message = "wasm_vault";
      owner = "owner";
      lender = some "lender";
      open_interest = some terms;
      counter_offers = some (offer_of "proposer" terms ∷ []);
    })
unfolding collect_info sort_offers insert_sorted compare_offers
query_info_returns_owner_and_lender_passes = refl

abbrev query_info_allows_absent_lender : Result InfoResponse
query_info_allows_absent_lender =
    collect_info
      (record storage { owner = some "owner"; lender = some none; open_interest = some none })

query_info_allows_absent_lender_passes :
    query_info_allows_absent_lender
    ≡ ok (record {
      message = "wasm_vault";
      owner = "owner";
      lender = none;
      open_interest = none;
      counter_offers = none;
    })
unfolding collect_info sort_offers
query_info_allows_absent_lender_passes = refl

abbrev query_info_sorts_counter_offers_by_amount : Result InfoResponse
query_info_sorts_counter_offers_by_amount = collect_info (record storage {
  owner = some "owner";
  lender = some none;
  open_interest = some (some active);
  counter_offers = ("best", ask 950) ∷ ("medium", ask 900) ∷ ("worst", ask 875) ∷ [];
})

query_info_sorts_counter_offers_by_amount_passes :
    query_info_sorts_counter_offers_by_amount
    ≡ ok (record {
      message = "wasm_vault";
      owner = "owner";
      lender = none;
      open_interest = some active;
      counter_offers = some (
          offer_of "best" (ask 950)
          ∷ offer_of "medium" (ask 900)
          ∷ offer_of "worst" (ask 875)
          ∷ []);
    })
unfolding collect_info sort_offers insert_sorted compare_offers
query_info_sorts_counter_offers_by_amount_passes = refl

abbrev query_info_fails_without_owner : Result InfoResponse
query_info_fails_without_owner = collect_info storage

query_info_fails_without_owner_passes : query_info_fails_without_owner ≡ err (std not_found)
unfolding collect_info
query_info_fails_without_owner_passes = refl
