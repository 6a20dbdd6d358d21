-- ===== src/Tests/Histories.antt =====
-- A vault from its instantiation on, and the table of its offers.
use wasm_vault.Prelude.{
  ℕ, zero, suc, ◌≤◌, ◌≡◌, refl, ap, none, some, List, [], ◌∷◌, length, map, arith, All, is_empty,
  if◌then◌else◌,
}
use mathlib.Core.List.{Perm}
use wasm_vault.Types.{
  CounterOffer, Response, respond, attr, text, ExecuteMsg, InstantiateMsg, InfoResponse,
  MessageInfo,
}
use wasm_vault.Errors.{ok, err, counter_offer_not_competitive}
use wasm_vault.Helpers.{require_owner}
use wasm_vault.OpenInterest.Lending.{clear_active_lender}
use wasm_vault.CounterOffer.Helpers.{
  Offer, liquidity, determine_eviction_candidate, snapshot_counter_offer_capacity, worst_offer,
  evict_from,
}
use wasm_vault.CounterOffer.Helpers.Eviction.{
  IsDecision, determine_eviction_candidate-IsDecision, determine_eviction_candidate_full,
}
use wasm_vault.Uint.{increment_u8, fits}
use wasm_vault.Instantiate.{instantiate}
use wasm_vault.Transfer
use wasm_vault.Query.{collect_info, sort_offers, insert_sorted, compare_offers, to_counter_offer}
use wasm_vault.Query.Sorting.{IsRanked, collect_info-IsRanked}
use wasm_vault.Execute.{execute, Call, run}
use wasm_vault.Execute.Access.{Permitted, execute-Permitted}
use wasm_vault.Execute.Constants.{OwnerAfter, execute-OwnerAfter}
use wasm_vault.Invariant.Defs.{IsConsistent}
use wasm_vault.Invariant.Histories.{history-IsConsistent}
use wasm_vault.Tests.Fixtures.{
  listed, Vault, coin, chain, at_time, from, asking, blank, idle, requested,
}

abbrev pub owner : MessageInfo
owner = from "owner" []

abbrev pub instantiation : InstantiateMsg
instantiation = record { owner = none; liquidation_unbonding_duration = some 1000 }

abbrev pub instantiated : Response
instantiated = respond [] (attr "method" (text "instantiate") ∷ attr "owner" (text "owner") ∷ [])

pub instantiate_run :
    instantiate (chain 0) (at_time 1) owner instantiation blank ≡ ok (instantiated, idle)
unfolding instantiate clear_active_lender
instantiate_run = refl

-- A request, two offers, an acceptance that a stranger attempts, and a repayment.
abbrev pub calls : List Call
calls =
    record {
      host = chain 500;
      env = at_time 2;
      info = owner;
      msg = ExecuteMsg.open_interest (asking 1000);
    }
    ∷ record {
      host = chain 500;
      env = at_time 3;
      info = from "ann" (coin 900 "uusd" ∷ []);
      msg = ExecuteMsg.propose_counter_offer (asking 900);
    }
    ∷ record {
      host = chain 500;
      env = at_time 4;
      info = from "bob" [];
      msg = ExecuteMsg.accept_counter_offer "ann" (asking 900);
    }
    ∷ record {
      host = chain 500;
      env = at_time 5;
      info = owner;
      msg = ExecuteMsg.accept_counter_offer "ann" (asking 900);
    }
    ∷ record {
      host = chain 5000;
      env = at_time 6;
      info = owner;
      msg = ExecuteMsg.repay_open_interest;
    }
    ∷ []

history-IsConsistent_example : IsConsistent (run calls idle)
history-IsConsistent_example =
    history-IsConsistent (chain 0) (at_time 1) owner instantiation blank idle instantiated calls
      refl instantiate_run

-- The owner hands the vault over.
abbrev transferred : Vault
transferred = record requested { owner = some "heir" }

abbrev transfer : Response
transfer = respond [] (
    attr "action" (text "transfer_ownership")
    ∷ attr "previous_owner" (text "owner")
    ∷ attr "new_owner" (text "heir")
    ∷ [])

transfer_run :
    execute (chain 0) (at_time 9) owner (ExecuteMsg.transfer_ownership "heir") requested
    ≡ ok (transfer, transferred)
unfolding execute Transfer.execute require_owner
transfer_run = refl

execute-Permitted_example : Permitted requested "owner" (ExecuteMsg.transfer_ownership "heir")
execute-Permitted_example =
    execute-Permitted (chain 0) (at_time 9) owner requested transferred transfer
      (ExecuteMsg.transfer_ownership "heir") transfer_run

execute-OwnerAfter_example :
    OwnerAfter
      (chain 0)
      (at_time 9)
      owner
      requested
      transferred
      transfer
      (ExecuteMsg.transfer_ownership "heir")
execute-OwnerAfter_example =
    execute-OwnerAfter (chain 0) (at_time 9) owner requested transferred transfer
      (ExecuteMsg.transfer_ownership "heir") transfer_run

-- A table of `n` offers of 900.
abbrev table : ℕ → List Offer
table zero = []
table (suc n) = ("ann", asking 900) ∷ table n

length-table : (n : ℕ) → length (table n) ≡ n
length-table zero = refl
length-table (suc n) = ap suc (length-table n)

table-reaches : (n : ℕ) → All (λ (o : Offer). 900 ≤ liquidity o) (table n)
table-reaches zero = tt
table-reaches (suc n) = (omega arith, table-reaches n)

determine_eviction_candidate_full_example :
    (minimum : ℕ) × (determine_eviction_candidate (table 255) (asking 900)
      ≡ err (counter_offer_not_competitive minimum "uusd"))
determine_eviction_candidate_full_example =
    determine_eviction_candidate_full (table 255) (asking 900) (length-table 255)
      (table-reaches 255)

eviction_run : determine_eviction_candidate (table 2) (asking 950) ≡ ok none
unfolding determine_eviction_candidate snapshot_counter_offer_capacity worst_offer evict_from
    increment_u8 fits
eviction_run = refl

determine_eviction_candidate-IsDecision_example : IsDecision (table 2) (asking 950) none
determine_eviction_candidate-IsDecision_example =
    determine_eviction_candidate-IsDecision (table 2) (asking 950) none eviction_run

abbrev answered : InfoResponse
answered = record {
  message = "wasm_vault";
  owner = "owner";
  lender = none;
  open_interest = some (asking 1000);
  counter_offers = some (
      record { proposer = "ann"; open_interest = asking 900 }
      ∷ record { proposer = "bob"; open_interest = asking 800 }
      ∷ []);
}

info_run : collect_info requested ≡ ok answered
unfolding collect_info sort_offers insert_sorted compare_offers
info_run = refl

collect_info-IsRanked_example :
    ((offers : List CounterOffer) × IsRanked offers
      × Perm offers (map to_counter_offer requested.counter_offers)
      × (answered.counter_offers ≡ (if is_empty offers then none else some offers)))
    × (requested.owner ≡ some "owner")
    × (requested.lender ≡ some none)
    × (requested.open_interest ≡ some (some (asking 1000)))
collect_info-IsRanked_example = collect_info-IsRanked requested answered info_run
