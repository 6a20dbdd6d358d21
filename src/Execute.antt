-- ===== src/Execute.antt =====
-- src/contract/execute.rs: the dispatch of the messages; and histories of calls, in which a call that
-- fails leaves the state as it was, since the chain discards the writes of a failed transaction.
pub mod Frames
pub mod Access
pub mod Constants
use wasm_vault.Prelude.{List, [], ◌∷◌}
use wasm_vault.Types.{Env, MessageInfo, ExecuteMsg, Response, respond}
use wasm_vault.Errors.{Result, ok, err, panic}
use wasm_vault.Host.{Host}
use wasm_vault.Storage.{OfferMap, Storage}
use wasm_vault.Staking.Delegate
use wasm_vault.Staking.Undelegate
use wasm_vault.Staking.Redelegate
use wasm_vault.Staking.Claim
use wasm_vault.Withdraw
use wasm_vault.Vote
use wasm_vault.Transfer
use wasm_vault.OpenInterest.Execute as Opening
use wasm_vault.OpenInterest.Fund
use wasm_vault.OpenInterest.Close
use wasm_vault.OpenInterest.Repay
use wasm_vault.OpenInterest.Liquidate
use wasm_vault.CounterOffer.Propose
use wasm_vault.CounterOffer.Accept
use wasm_vault.CounterOffer.Cancel

module _ {M : Type 0} ⦃offer_map : OfferMap M⦄ where
  unfoldable pub execute :
      Host → Env → MessageInfo → ExecuteMsg → Storage M → Result (Response × Storage M)
  execute host env info ExecuteMsg.noop s = ok (respond [] [], s)
  execute host env info (ExecuteMsg.delegate validator amount) s =
      Delegate.execute host env info validator amount s
  execute host env info (ExecuteMsg.undelegate validator amount) s =
      Undelegate.execute host env info validator amount s
  execute host env info (ExecuteMsg.redelegate src_validator dst_validator amount) s =
      Redelegate.execute host env info src_validator dst_validator amount s
  execute host env info ExecuteMsg.claim_delegator_rewards s = Claim.execute host env info s
  execute host env info (ExecuteMsg.withdraw denom amount recipient) s =
      Withdraw.execute host env info denom amount recipient s
  execute host env info (ExecuteMsg.vote proposal_id option) s =
      Vote.execute_vote env info proposal_id option s
  execute host env info (ExecuteMsg.vote_weighted proposal_id options) s =
      Vote.execute_weighted_vote env info proposal_id options s
  execute host env info (ExecuteMsg.transfer_ownership new_owner) s =
      Transfer.execute host info new_owner s
  execute host env info (ExecuteMsg.open_interest terms) s = Opening.execute host env info terms s
  execute host env info (ExecuteMsg.fund_open_interest expected) s =
      Fund.fund host env info expected s
  execute host env info (ExecuteMsg.propose_counter_offer terms) s =
      Propose.propose env info terms s
  execute host env info (ExecuteMsg.accept_counter_offer proposer terms) s =
      Accept.accept host env info proposer terms s
  execute host env info ExecuteMsg.cancel_counter_offer s = Cancel.cancel env info s
  execute host env info ExecuteMsg.close_open_interest s = Close.close info s
  execute host env info ExecuteMsg.repay_open_interest s = Repay.repay host env info s
  execute host env info ExecuteMsg.liquidate_open_interest s = Liquidate.liquidate host env info s

-- One transaction: what the chain answers during it, when it runs, and what is sent.
pub record Call : Type 0 where
  pub host : Host
  pub env : Env
  pub info : MessageInfo
  pub msg : ExecuteMsg

abbrev pub committed : {M : Type 0} → Storage M → Result (Response × Storage M) → Storage M
committed s (ok (response, s')) = s'
committed s (err e) = s
committed s panic = s

module _ {M : Type 0} ⦃offer_map : OfferMap M⦄ where
  unfoldable pub step : Call → Storage M → Storage M
  step c s = committed s (execute c.host c.env c.info c.msg s)

  unfoldable pub run : List Call → Storage M → Storage M
  run [] s = s
  run (c ∷ calls) s = run calls (step c s)
