-- ===== src/Tests/Ledger.antt =====
-- A vault with its coins, a loan that is liquidated, and a message within the bounds.
use wasm_vault.Prelude.{ℕ, ◌+◌, ◌≤◌, ◌≡◌, ◌≢◌, refl, none, [], ◌∷◌, arith}
use wasm_vault.BTreeMap.{BTreeMap}
use wasm_vault.Types.{OpenInterest, CosmosMsg, ExecuteMsg, MessageInfo}
use wasm_vault.Errors.{ok, panic}
use wasm_vault.Host.{answer}
use wasm_vault.Helpers.{query_staking_rewards, checked_sum}
use wasm_vault.CounterOffer.Cancel.{cancel_response}
use wasm_vault.Execute.{execute, Call}
use wasm_vault.Ledger.{Balance, credit, World, Evolves, transact, called, received, here, next}
use wasm_vault.Ledger.Solvency.{IsSolvent, Evolves-covered}
use wasm_vault.Ledger.Settling.{transact-settles}
use wasm_vault.Lifecycle.Termination.{Liquidates-end, outstanding_of, none_yet, pays}
use wasm_vault.Bounds.{IsBounded}
use wasm_vault.Bounds.Messages.{message-ne-panic}
use wasm_vault.Tests.Fixtures.{
  listed, coin, chain, at_time, from, asking, blank, idle, requested, lent, requested-IsConsistent,
  lent-IsConsistent,
}
use wasm_vault.Tests.Offers.{bob, cancelled, cancel_run}
use wasm_vault.Tests.Loans.{partly, liquidation, liquidate_run}
use wasm_vault.Tests.Histories.{instantiation, instantiated, instantiate_run}

-- What stands for the map of offers.
abbrev Offers : Type 0
Offers = BTreeMap OpenInterest

abbrev owner : MessageInfo
owner = from "owner" []

-- The chain tells what the vault has, with the funds of the call.
abbrev told : Balance → ℕ → MessageInfo → ExecuteMsg → Call
told balance seconds info msg = record {
  host = record (chain 0) {
    query_balance =
        λ a denom. answer (record { amount = credit info.funds balance denom; denom = denom });
  };
  env = at_time seconds;
  info = info;
  msg = msg;
}

abbrev no_gains : CosmosMsg → Balance
no_gains message denom = 0

abbrev start : World Offers
start = record { vault = idle; balance = λ denom. 0 }

-- 300 coins for the collateral arrive, the owner asks for 1000, "ann" offers 900, the owner tries to
-- take 500 of them out.
abbrev filled : World Offers
filled = record start { balance = credit (coin 300 "ucosm" ∷ []) start.balance }

abbrev asked : World Offers
asked =
    transact (told filled.balance 2 owner (ExecuteMsg.open_interest (asking 1000))) no_gains filled

abbrev offered : World Offers
offered =
    transact
      (told asked.balance 3 (from "ann" (coin 900 "uusd" ∷ []))
        (ExecuteMsg.propose_counter_offer (asking 900)))
      no_gains asked

abbrev grabbed : World Offers
grabbed =
    transact (told offered.balance 4 owner (ExecuteMsg.withdraw "uusd" 500 none)) no_gains offered

evolution : Evolves start grabbed
evolution =
    next
      (next
        (next (next here (received (coin 300 "ucosm" ∷ []) refl))
          (called _ no_gains (λ denom. refl) refl))
        (called _ no_gains (λ denom. refl) refl))
      (called _ no_gains (λ denom. refl) refl)

Evolves-covered_example : IsSolvent grabbed
Evolves-covered_example =
    Evolves-covered (chain 0) (at_time 1) owner instantiation blank idle instantiated (λ denom. 0)
      grabbed refl instantiate_run evolution

abbrev cancellation : Call
cancellation = record {
  host = chain 1700;
  env = at_time 6;
  info = bob;
  msg = ExecuteMsg.cancel_counter_offer;
}

abbrev holding : World Offers
holding = record { vault = requested; balance = λ denom. 1700 }

holding-IsSolvent : IsSolvent holding
holding-IsSolvent = record { consistent = requested-IsConsistent; escrowed = omega arith }

pub cancel_message_run :
    execute (chain 1700) (at_time 6) bob ExecuteMsg.cancel_counter_offer requested
    ≡ ok (cancel_response "bob" (asking 800), cancelled)
unfolding execute
cancel_message_run = cancel_run

transact-settles_example : (transact cancellation no_gains holding).vault ≡ cancelled
transact-settles_example =
    transact-settles cancellation no_gains holding cancelled (cancel_response "bob" (asking 800))
      holding-IsSolvent tt cancel_message_run

liquidate_message_run :
    execute (chain 60) (at_time 90_000) owner ExecuteMsg.liquidate_open_interest lent
    ≡ ok (liquidation, partly)
unfolding execute
liquidate_message_run = liquidate_run

Liquidates-end_example :
    (60 + outstanding_of partly ≡ outstanding_of lent) × (1 ≤ 60) × (1 ≤ outstanding_of lent)
Liquidates-end_example = Liquidates-end lent partly 1 60 (
    pays none_yet (chain 60) (at_time 90_000) owner (asking 1000) liquidation liquidate_message_run
      refl (omega arith))

lent-IsBounded : IsBounded (chain 60) (at_time 90_000) owner ExecuteMsg.liquidate_open_interest lent
unfolding query_staking_rewards checked_sum
lent-IsBounded = record {
  clock = λ time seconds fit e. ground arith;
  balances = λ addr denom balance e. ground arith;
  rewards = λ total e. ground arith;
  funds = omega arith;
  amount = omega arith;
  expiry = λ terms e. ground arith;
  delay = λ last_time e. ground arith;
}

message-ne-panic_example :
    execute (chain 60) (at_time 90_000) owner ExecuteMsg.liquidate_open_interest lent ≢ panic
message-ne-panic_example =
    message-ne-panic (chain 60) (at_time 90_000) owner lent lent-IsConsistent
      ExecuteMsg.liquidate_open_interest lent-IsBounded
