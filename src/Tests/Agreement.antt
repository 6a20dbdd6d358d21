-- ===== src/Tests/Agreement.antt =====
-- The agreement of a concrete vault.
use wasm_vault.Prelude.{◌+◌, ◌≡◌, refl}
use wasm_vault.Types.{ExecuteMsg}
use wasm_vault.CounterOffer.Cancel.{cancel_response}
use wasm_vault.Execute.{run}
use wasm_vault.Agreement.{Does, deal_of, vacant}
use wasm_vault.Agreement.Refinement.{execute-Does}
use wasm_vault.Agreement.Payments.{paid_to}
use wasm_vault.Agreement.Fairness.{stake, brought, execute-fair}
use wasm_vault.Agreement.Histories.{Follows, history-Follows}
use wasm_vault.Tests.Fixtures.{
  listed, chain, at_time, asking, blank, idle, requested, requested-IsConsistent,
}
use wasm_vault.Tests.Offers.{bob, cancelled}
use wasm_vault.Tests.Ledger.{cancel_message_run}
use wasm_vault.Tests.Histories.{owner, calls, instantiation, instantiated, instantiate_run}

execute-Does_example :
    Does
      (chain 1700)
      (at_time 6)
      bob
      (deal_of requested)
      ExecuteMsg.cancel_counter_offer
      (cancel_response "bob" (asking 800)).messages
      (deal_of cancelled)
execute-Does_example =
    execute-Does (chain 1700) (at_time 6) bob requested cancelled
      (cancel_response "bob" (asking 800)) requested-IsConsistent ExecuteMsg.cancel_counter_offer
      cancel_message_run

history-Follows_example : (deal_of idle ≡ vacant) × Follows calls idle (run calls idle)
history-Follows_example =
    history-Follows (chain 0) (at_time 1) owner instantiation blank idle instantiated calls refl
      instantiate_run

-- "bob" gets back the 800 that his offer held.
execute-fair_example :
    paid_to "bob" "uusd" (cancel_response "bob" (asking 800)).messages
      + stake (deal_of cancelled) "bob"
    ≡ stake (deal_of requested) "bob" + brought ExecuteMsg.cancel_counter_offer bob "uusd" "bob"
execute-fair_example =
    execute-fair (chain 1700) (at_time 6) bob requested cancelled
      (cancel_response "bob" (asking 800)) (asking 1000) ExecuteMsg.cancel_counter_offer "bob"
      requested-IsConsistent refl refl tt cancel_message_run
