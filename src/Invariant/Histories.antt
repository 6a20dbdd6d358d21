-- ===== src/Invariant/Histories.antt =====
-- The invariant under the messages of src/contract/execute.rs, one by one and in histories.
use wasm_vault.Prelude.{◌≡◌, refl, List, [], ◌∷◌, arith}
use wasm_vault.Types.{Env, MessageInfo, ExecuteMsg, InstantiateMsg, Response}
use wasm_vault.Errors.{Result, ok, err, panic}
use wasm_vault.Host.{Host}
use wasm_vault.Storage.{OfferMap, Storage}
use wasm_vault.Instantiate.{instantiate}
use wasm_vault.Execute.{execute, Call, step, run}
use wasm_vault.Execute.Frames
use wasm_vault.Invariant.Defs.{IsConsistent}
use wasm_vault.Invariant.Loans.{
  open-IsConsistent, fund-IsConsistent, close-IsConsistent, repay-IsConsistent,
}
use wasm_vault.Invariant.Offers.{accept-IsConsistent, cancel-IsConsistent}
use wasm_vault.Invariant.Proposals.{propose-IsConsistent}
use wasm_vault.Invariant.Liquidations.{liquidate-IsConsistent}

module _ {M : Type 0} ⦃offer_map : OfferMap M⦄ where
  same : (s s' : Storage M) → IsConsistent s → s' ≡ s → IsConsistent s'
  same s s' v e = rw e v

  -- Each message, if it succeeds, takes a consistent vault to a consistent vault.
  pub execute-IsConsistent :
      (host : Host) (env : Env) (info : MessageInfo) (msg : ExecuteMsg) (s s' : Storage M)
      (r : Response)
      → IsConsistent s
      → execute host env info msg s ≡ ok (r, s')
      → IsConsistent s'
  unfolding execute
  execute-IsConsistent host env info ExecuteMsg.noop s s' r v h = ground arith
  execute-IsConsistent host env info (ExecuteMsg.delegate validator amount) s s' r v h =
      same s s' v (Frames.delegate-unchanged host env info s s' r validator amount h)
  execute-IsConsistent host env info (ExecuteMsg.undelegate validator amount) s s' r v h =
      same s s' v (Frames.undelegate-unchanged host env info s s' r validator amount h)
  execute-IsConsistent host env info (ExecuteMsg.redelegate src dst amount) s s' r v h =
      same s s' v (Frames.redelegate-unchanged host env info s s' r src dst amount h)
  execute-IsConsistent host env info ExecuteMsg.claim_delegator_rewards s s' r v h =
      same s s' v (Frames.claim-unchanged host env info s s' r h)
  execute-IsConsistent host env info (ExecuteMsg.withdraw denom amount recipient) s s' r v h =
      same s s' v (Frames.withdraw-unchanged host env info s s' r denom amount recipient h)
  execute-IsConsistent host env info (ExecuteMsg.vote proposal_id option) s s' r v h =
      same s s' v (Frames.vote-unchanged host env info s s' r proposal_id option h)
  execute-IsConsistent host env info (ExecuteMsg.vote_weighted proposal_id options) s s' r v h =
      same s s' v (Frames.vote_weighted-unchanged host env info s s' r proposal_id options h)
  execute-IsConsistent host env info (ExecuteMsg.transfer_ownership new_owner) s s' r v h =
      ground (arith, Frames.transfer-owner host env info s s' r new_owner h)
  execute-IsConsistent host env info (ExecuteMsg.open_interest terms) s s' r v h =
      open-IsConsistent host env info terms v h
  execute-IsConsistent host env info (ExecuteMsg.fund_open_interest terms) s s' r v h =
      fund-IsConsistent host env info terms v h
  execute-IsConsistent host env info (ExecuteMsg.propose_counter_offer terms) s s' r v h =
      propose-IsConsistent s s' r env info terms v h
  execute-IsConsistent host env info (ExecuteMsg.accept_counter_offer proposer terms) s s' r v h =
      accept-IsConsistent host env info proposer terms v h
  execute-IsConsistent host env info ExecuteMsg.cancel_counter_offer s s' r v h =
      cancel-IsConsistent env info v h
  execute-IsConsistent host env info ExecuteMsg.close_open_interest s s' r v h =
      close-IsConsistent info v h
  execute-IsConsistent host env info ExecuteMsg.repay_open_interest s s' r v h =
      repay-IsConsistent host env info v h
  execute-IsConsistent host env info ExecuteMsg.liquidate_open_interest s s' r v h =
      liquidate-IsConsistent s s' r host env info v h

  -- A fresh contract, in whose storage the map of counter offers is empty, starts consistent.
  pub instantiate-IsConsistent :
      (host : Host) (env : Env) (info : MessageInfo) (msg : InstantiateMsg) (s s' : Storage M)
      (r : Response)
      → offer_map.range s.counter_offers ≡ []
      → instantiate host env info msg s ≡ ok (r, s')
      → IsConsistent s'
  unfolding instantiate
  instantiate-IsConsistent host env info msg s s' r empty h = ground arith

  pub step-IsConsistent : (c : Call) (s : Storage M) → IsConsistent s → IsConsistent (step c s)
  unfolding step
  step-IsConsistent c s v = committed_cases (execute c.host c.env c.info c.msg s) refl
    where
      committed_cases :
          (result : Result (Response × Storage M))
          → execute c.host c.env c.info c.msg s ≡ result
          → IsConsistent (step c s)
      committed_cases (ok (r, s')) e =
          rw e (execute-IsConsistent c.host c.env c.info c.msg s s' r v e)
      committed_cases (err x) e = rw e v
      committed_cases panic e = rw e v

  pub run-IsConsistent :
      (calls : List Call) (s : Storage M) → IsConsistent s → IsConsistent (run calls s)
  unfolding run
  run-IsConsistent [] s v = v
  run-IsConsistent (c ∷ calls) s v = run-IsConsistent calls (step c s) (step-IsConsistent c s v)

  -- A vault that a successful instantiation made, in whose storage the map of counter offers was
  -- empty, is consistent after any calls by anyone, with any answers of the chain, at any times: the
  -- items that are read are there, the delay is capped, the offers are in order, and the open
  -- interest, the lender, the debt, the expiry and the offers fit the phase that the vault is in.
  pub history-IsConsistent :
      (host : Host) (env : Env) (info : MessageInfo) (msg : InstantiateMsg) (s s' : Storage M)
      (r : Response) (calls : List Call)
      → offer_map.range s.counter_offers ≡ []
      → instantiate host env info msg s ≡ ok (r, s')
      → IsConsistent (run calls s')
  history-IsConsistent host env info msg s s' r calls empty h =
      run-IsConsistent calls s' (instantiate-IsConsistent host env info msg s s' r empty h)
