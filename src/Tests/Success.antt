-- ===== src/Tests/Success.antt =====
-- Calls that succeed, and the stages of a vault through a history.
use wasm_vault.Prelude.{◌≡◌, refl, inr, none, some, true, List, [], ◌∷◌, map, arith}
use wasm_vault.Types.{Response, respond, ExecuteMsg, MessageInfo}
use wasm_vault.Errors.{ok}
use wasm_vault.Uint.{checked_add, try_u128, fits}
use wasm_vault.BTreeMap.{get, insert}
use wasm_vault.Helpers.{require_owner}
use wasm_vault.OpenInterest.Lending.{refund, clear_active_lender}
use wasm_vault.OpenInterest.Terms.{
  RepaymentAmount, build_repayment_amounts, repayment_requirements,
  accumulate_repayment_requirement, convert_requirements,
}
use wasm_vault.OpenInterest.Fund.{fund, fund_response}
use wasm_vault.OpenInterest.Fund.Success.{fund_of_exact}
use wasm_vault.OpenInterest.Close.{close}
use wasm_vault.OpenInterest.Repay.{repay, repay_response}
use wasm_vault.OpenInterest.Repay.Success.{coins_of, repay_of_covered}
use wasm_vault.OpenInterest.Liquidation.{liquidation_can_schedule_undelegations}
use wasm_vault.OpenInterest.Liquidate.{liquidate}
use wasm_vault.OpenInterest.Liquidate.Settlement.{IsClosed}
use wasm_vault.OpenInterest.Liquidate.Success.{liquidate_of_covered}
use wasm_vault.OpenInterest.Terms.{open_interest_attributes}
use wasm_vault.CounterOffer.Cancel.{cancel, cancel_response}
use wasm_vault.CounterOffer.Cancel.Success.{cancel_of_offer}
use wasm_vault.Execute.{execute, Call}
use wasm_vault.Tests.Fixtures.{
  listed, Vault, coin, chain, at_time, from, asking, idle, requested, lent, requested-IsConsistent,
}

abbrev owner : MessageInfo
owner = from "owner" []

abbrev leo : MessageInfo
leo = from "leo" (coin 1000 "uusd" ∷ coin 3 "ujuno" ∷ [])

fund_of_exact_example :
    fund (chain 500) (at_time 100) leo (asking 1000) requested
    ≡ ok (
      fund_response "leo" (asking 1000) (map refund requested.counter_offers),
      record requested {
        lender = some (some "leo");
        open_interest_expiry = some (some 86_500_000_000_000);
        counter_offers = [];
        outstanding_debt = some none;
      },
    )
fund_of_exact_example =
    fund_of_exact (chain 500) (at_time 100) leo (asking 1000) requested 86_500_000_000_000 refl refl
      refl (omega arith) refl

cancel_of_offer_example :
    (s' : Vault) × (cancel (at_time 6) (from "bob" []) requested
      ≡ ok (cancel_response "bob" (asking 800), s'))
unfolding get
cancel_of_offer_example =
    cancel_of_offer (at_time 6) (from "bob" []) (asking 1000) (asking 800) requested
      requested-IsConsistent refl refl refl

abbrev due : List RepaymentAmount
due =
    record { denom = "ujuno"; requested_amount = 50; coin_amount = 50 }
    ∷ record { denom = "uusd"; requested_amount = 1000; coin_amount = 1000 }
    ∷ []

due_run : build_repayment_amounts (asking 1000) ≡ ok due
unfolding build_repayment_amounts repayment_requirements accumulate_repayment_requirement
    convert_requirements checked_add try_u128 fits get insert
due_run = refl

repay_of_covered_example :
    repay (chain 1000) (at_time 100) owner lent
    ≡ ok (
      repay_response "leo" (asking 1000) (coins_of due),
      clear_active_lender (record lent { open_interest = some none }),
    )
repay_of_covered_example =
    repay_of_covered (chain 1000) (at_time 100) owner (asking 1000) lent "leo" due refl refl refl
      refl due_run
      ((coin 1000 "ujuno", refl, omega arith), ((coin 1000 "uusd", refl, omega arith), tt))

never_undelegated :
    liquidation_can_schedule_undelegations (chain 200) (at_time 86_500) lent ≡ ok true
unfolding liquidation_can_schedule_undelegations
never_undelegated = refl

liquidate_of_covered_example :
    (r : Response) × (s' : Vault) × (liquidate (chain 200) (at_time 86_500) leo lent ≡ ok (r, s'))
    × IsClosed s'
liquidate_of_covered_example =
    liquidate_of_covered (chain 200) (at_time 86_500) leo (asking 1000) "leo" lent "owner"
      86_500_000_000_000 "ucosm" none (coin 200 "ucosm") true refl (inr refl) refl refl refl
      (omega arith) refl refl refl (omega arith) (omega arith) never_undelegated

abbrev closing : Response
closing =
    respond (map refund requested.counter_offers)
      (open_interest_attributes "close_open_interest" (asking 1000))

close_run :
    execute (chain 0) (at_time 9) owner ExecuteMsg.close_open_interest requested
    ≡ ok (closing, idle)
unfolding execute close require_owner
close_run = refl

-- A repayment by a stranger, a liquidation by the lender, and a new request.
abbrev calls : List Call
calls =
    record {
      host = chain 5000;
      env = at_time 90_000;
      info = from "ann" [];
      msg = ExecuteMsg.repay_open_interest;
    }
    ∷ record {
      host = chain 60;
      env = at_time 90_001;
      info = from "leo" [];
      msg = ExecuteMsg.liquidate_open_interest;
    }
    ∷ record {
      host = chain 5000;
      env = at_time 99_000;
      info = owner;
      msg = ExecuteMsg.liquidate_open_interest;
    }
    ∷ record {
      host = chain 5000;
      env = at_time 99_001;
      info = owner;
      msg = ExecuteMsg.open_interest (asking 10);
    }
    ∷ []
