-- ===== src/Tests/Loans.antt =====
-- An expired loan is liquidated, a running one is repaid.
use wasm_vault.Prelude.{
  ℕ, ◌+◌, ◌≤◌, ◌≡◌, ◌⊎◌, inr, refl, none, some, List, [], ◌∷◌, ◌++◌, flatten, arith,
}
use wasm_vault.BTreeMap.{get, insert}
use wasm_vault.Types.{
  Coin, Response, respond, CosmosMsg, bank_send, attr, text, num, staking_undelegate, MessageInfo,
  ExecuteMsg,
}
use wasm_vault.Errors.{ok}
use wasm_vault.Uint.{fits, checked_add, try_u128, add_u256}
use wasm_vault.Host.{Delegation, answer}
use wasm_vault.Helpers.{require_owner, require_owner_or_lender, query_staking_rewards, checked_sum}
use wasm_vault.OpenInterest.Terms.{
  RepaymentAmount, build_repayment_amounts, repayment_requirements,
  accumulate_repayment_requirement, convert_requirements, open_interest_attributes,
}
use wasm_vault.OpenInterest.Terms.Repayment.{
  repaid_in, IsExact, owed_coins, build_repayment_amounts-IsExact,
}
use wasm_vault.OpenInterest.Repay.{repay, collect_repayment}
use wasm_vault.OpenInterest.Repay.Payment.{IsCovered, repay-pays}
use wasm_vault.OpenInterest.Liquidation.{
  LiquidationState, load_liquidation_state, get_outstanding_amount, convert_amount, collect_funds,
  claim_rewards, liquidation_can_schedule_undelegations, schedule_undelegations, undelegate_from,
  payout_message, record_liquidation_undelegation_time, finalize_state,
}
use wasm_vault.OpenInterest.Liquidation.Undelegations.{
  Draws, undelegated_in, schedule_undelegations-exact,
}
use wasm_vault.OpenInterest.Liquidation.Throttle.{IsSpaced, undelegate_if_allowed-starts}
use wasm_vault.OpenInterest.Liquidate.{liquidate, undelegate_if_allowed}
use wasm_vault.OpenInterest.Liquidate.Settlement.{IsClosed, IsPartlyPaid, liquidate-settles}
use wasm_vault.Invariant.Liquidations.{owed_or_collateral}
use wasm_vault.Execute.{execute, Call, step, run}
use wasm_vault.Lifecycle.Rounds.{liquidations-IsSpaced}
use wasm_vault.Escrow.Counting.{amount_in, sent_in}
use wasm_vault.Tests.Fixtures.{listed, Vault, coin, chain, at_time, from, asking, idle, lent}

abbrev owner : MessageInfo
owner = from "owner" []

-- 60 of the 200 ucosm are there; the whole stake of 110 is undelegated, and 140 stay owed.
abbrev pub partly : Vault
partly = record lent {
  outstanding_debt = some (some (coin 140 "ucosm"));
  last_liquidation_unbonding = some (some 90_000_000_000_000);
}

abbrev pub liquidation : Response
liquidation =
    respond
      (bank_send "leo" (coin 60 "ucosm" ∷ [])
        ∷ staking_undelegate "val-a" (coin 60 "ucosm")
        ∷ staking_undelegate "val-b" (coin 50 "ucosm")
        ∷ [])
      (open_interest_attributes "liquidate_open_interest" (asking 1000)
        ++ attr "lender" (text "leo")
          ∷ attr "liquidator" (text "owner")
          ∷ attr "requested_amount" (num 200)
          ∷ attr "available_balance" (num 60)
          ∷ attr "payout_amount" (num 60)
          ∷ attr "undelegated_amount" (num 110)
          ∷ attr "outstanding_debt" (num 140)
          ∷ [])

pub liquidate_run : liquidate (chain 60) (at_time 90_000) owner lent ≡ ok (liquidation, partly)
unfolding liquidate load_liquidation_state require_owner_or_lender get_outstanding_amount
    convert_amount collect_funds claim_rewards query_staking_rewards checked_sum
    undelegate_if_allowed payout_message liquidation_can_schedule_undelegations
    schedule_undelegations undelegate_from add_u256 try_u128 fits
    record_liquidation_undelegation_time finalize_state
liquidate_run = refl

liquidate-settles_example :
    ((lent.owner ≡ some "owner") ⊎ (flatten lent.lender ≡ some "owner"))
    × ((e : ℕ) × (lent.open_interest_expiry ≡ some (some e)) × (e ≤ 90_000_000_000_000))
    × (left : ℕ) × (sent_in "ucosm" liquidation.messages + left
        ≡ owed_or_collateral none (asking 1000))
    × (((left ≡ 0) × IsClosed partly)
        ⊎ (IsPartlyPaid (asking 1000) left lent partly
            × ((chain 60).query_bonded_denom ≡ answer "ucosm")))
liquidate-settles_example =
    liquidate-settles (chain 60) (at_time 90_000) owner lent partly liquidation (asking 1000) refl
      liquidate_run

abbrev expired : LiquidationState
expired = record {
  open_interest = asking 1000;
  lender = "leo";
  collateral_denom = "ucosm";
  contract_addr = "vault";
  bonded_denom = "ucosm";
}

abbrev stakes : List Delegation
stakes =
    record { validator = "val-a"; amount = coin 60 "ucosm" }
    ∷ record { validator = "val-b"; amount = coin 50 "ucosm" }
    ∷ []

schedule_undelegations-exact_example :
    (msgs : List CosmosMsg) × (schedule_undelegations (chain 60) expired 100 ≡ ok (msgs, 100))
    × (undelegated_in msgs ≡ 100)
    × Draws "ucosm" stakes msgs
schedule_undelegations-exact_example =
    schedule_undelegations-exact (chain 60) expired stakes 100 (omega arith) refl

undelegate_if_allowed-starts_example :
    (msgs : List CosmosMsg) × (undelegated_in msgs ≡ 110)
    × Draws "ucosm" stakes msgs
    × (undelegate_if_allowed (chain 60) (at_time 91_000) expired 140 partly
        ≡ ok (
          msgs,
          110,
          record partly { last_liquidation_unbonding = some (some 91_000_000_000_000) },
        ))
undelegate_if_allowed-starts_example =
    undelegate_if_allowed-starts (chain 60) (at_time 91_000) expired partly stakes 140 (omega arith)
      refl (inr (inr (90_000_000_000_000, refl, (91_000_000_000_000, refl, omega arith))))

-- 1000 uusd and 50 ujuno, in ascending order of the denoms.
abbrev due : List RepaymentAmount
due =
    record { denom = "ujuno"; requested_amount = 50; coin_amount = 50 }
    ∷ record { denom = "uusd"; requested_amount = 1000; coin_amount = 1000 }
    ∷ []

build_run : build_repayment_amounts (asking 1000) ≡ ok due
unfolding build_repayment_amounts repayment_requirements accumulate_repayment_requirement
    convert_requirements checked_add try_u128 fits get insert
build_run = refl

build_repayment_amounts-IsExact_example :
    (repaid_in "uusd" due ≡ amount_in "uusd" (owed_coins (asking 1000))) × IsExact due
build_repayment_amounts-IsExact_example =
    build_repayment_amounts-IsExact "uusd" (asking 1000) due build_run

abbrev repayment : Response
repayment = respond (bank_send "leo" (coin 50 "ujuno" ∷ coin 1000 "uusd" ∷ []) ∷ []) (
    open_interest_attributes "repay_open_interest" (asking 1000) ++ attr "lender" (text "leo") ∷ [])

repay_run : repay (chain 1000) (at_time 100) owner lent ≡ ok (repayment, idle)
unfolding repay require_owner collect_repayment build_repayment_amounts repayment_requirements
    accumulate_repayment_requirement convert_requirements checked_add try_u128 fits get insert
repay_run = refl

repay-pays_example :
    (lent.owner ≡ some "owner")
    × (lent.outstanding_debt ≡ some none)
    × (amounts : List RepaymentAmount) × (coins : List Coin) × (build_repayment_amounts
          (asking 1000)
        ≡ ok amounts)
    × IsCovered (chain 1000) "vault" amounts
    × (repayment.messages ≡ bank_send "leo" coins ∷ [])
    × (amount_in "uusd" coins ≡ amount_in "uusd" (owed_coins (asking 1000)))
    × IsClosed idle
repay-pays_example =
    repay-pays (chain 1000) (at_time 100) owner lent idle repayment "uusd" (asking 1000) "leo" refl
      refl repay_run

-- Another 60 are there after the delay: 80 stay owed, and are undelegated.
abbrev paid_twice : Vault
paid_twice = record lent {
  outstanding_debt = some (some (coin 80 "ucosm"));
  last_liquidation_unbonding = some (some 91_000_000_000_000);
}

abbrev second_liquidation : Response
second_liquidation =
    respond
      (bank_send "leo" (coin 60 "ucosm" ∷ [])
        ∷ staking_undelegate "val-a" (coin 60 "ucosm")
        ∷ staking_undelegate "val-b" (coin 20 "ucosm")
        ∷ [])
      (open_interest_attributes "liquidate_open_interest" (asking 1000)
        ++ attr "lender" (text "leo")
          ∷ attr "liquidator" (text "owner")
          ∷ attr "requested_amount" (num 140)
          ∷ attr "available_balance" (num 60)
          ∷ attr "payout_amount" (num 60)
          ∷ attr "undelegated_amount" (num 80)
          ∷ attr "outstanding_debt" (num 80)
          ∷ [])

abbrev between : List Call
between =
    record { host = chain 0; env = at_time 90_500; info = from "ann" []; msg = ExecuteMsg.noop }
    ∷ []

first_run :
    execute (chain 60) (at_time 90_000) owner ExecuteMsg.liquidate_open_interest lent
    ≡ ok (liquidation, partly)
unfolding execute
first_run = liquidate_run

second_run :
    execute
      (chain 60)
      (at_time 91_000)
      owner
      ExecuteMsg.liquidate_open_interest
      (run between partly)
    ≡ ok (second_liquidation, paid_twice)
unfolding execute run step liquidate load_liquidation_state require_owner_or_lender
    get_outstanding_amount convert_amount collect_funds claim_rewards query_staking_rewards
    checked_sum undelegate_if_allowed payout_message liquidation_can_schedule_undelegations
    schedule_undelegations undelegate_from add_u256 try_u128 fits
    record_liquidation_undelegation_time finalize_state
second_run = refl

liquidations-IsSpaced_example : IsSpaced (chain 60) (at_time 91_000) 1000 90_000_000_000_000
liquidations-IsSpaced_example =
    liquidations-IsSpaced (chain 60) (chain 60) (at_time 90_000) (at_time 91_000) owner owner
      between lent partly paid_twice liquidation second_liquidation first_run (omega arith) (tt, tt)
      second_run (omega arith) (omega arith)
