-- ===== src/Execute/Access.antt =====
-- Who may send which message, over the whole of src/contract/execute.rs.
use wasm_vault.Prelude.{◌≡◌, ◌≢◌, ◌⊎◌, none, some, flatten, arith}
use wasm_vault.Types.{Addr, Env, MessageInfo, ExecuteMsg, Response}
use wasm_vault.Errors.{ok}
use wasm_vault.Host.{Host}
use wasm_vault.Storage.{OfferMap, Storage}
use wasm_vault.Helpers.Owner.{require_owner-first, require_owner-eq_ok}
use wasm_vault.Staking.Delegate
use wasm_vault.Staking.Undelegate
use wasm_vault.Staking.Redelegate
use wasm_vault.Staking.Claim
use wasm_vault.Withdraw
use wasm_vault.Vote
use wasm_vault.Transfer
use wasm_vault.OpenInterest.Execute as Opening
use wasm_vault.OpenInterest.Fund.Steps.{fund-IsFunded}
use wasm_vault.OpenInterest.Close
use wasm_vault.OpenInterest.Repay
use wasm_vault.OpenInterest.Liquidate.Steps.{liquidate-IsSettled, load_liquidation_state-IsExpired}
use wasm_vault.CounterOffer.Propose.Steps.{propose-IsProposed}
use wasm_vault.CounterOffer.Accept.Steps.{accept-IsAccepted}
use wasm_vault.CounterOffer.Cancel.Steps.{cancel-IsCancelled}
use wasm_vault.Execute.{execute}

module _ {M : Type 0} ⦃offer_map : OfferMap M⦄ where
  -- The sender and the state of an accepted message: anyone for `noop`; anyone for a funding of the
  -- request as it is, while it has no lender; anyone without a stored offer for a proposal, while there
  -- is no lender; the proposer of a stored offer for a cancellation; the owner or the lender for a
  -- liquidation; the owner for all else.
  abbrev pub Permitted : Storage M → Addr → ExecuteMsg → Type 0
  Permitted s sender ExecuteMsg.noop = Unit
  Permitted s sender (ExecuteMsg.fund_open_interest terms) =
      (s.open_interest ≡ some (some terms)) × (s.lender ≡ some none)
  Permitted s sender (ExecuteMsg.propose_counter_offer terms) =
      (s.lender ≡ some none) × (offer_map.may_load s.counter_offers sender ≡ none)
  Permitted s sender ExecuteMsg.cancel_counter_offer =
      offer_map.may_load s.counter_offers sender ≢ none
  Permitted s sender ExecuteMsg.liquidate_open_interest =
      (s.owner ≡ some sender) ⊎ (flatten s.lender ≡ some sender)
  Permitted s sender _ = s.owner ≡ some sender

  module _ (host : Host) (env : Env) (info : MessageInfo) (s s' : Storage M) (r : Response) where
    -- A message succeeds only for a sender, and in a state, that `Permitted` allows for it: the owner,
    -- but for `noop`, for a funding and a proposal while there is no lender, for the cancellation of
    -- a stored offer, and for a liquidation, which the lender may send too.
    pub execute-Permitted :
        (msg : ExecuteMsg) → execute host env info msg s ≡ ok (r, s') → Permitted s info.sender msg
    unfolding execute Delegate.execute Undelegate.execute Redelegate.execute Claim.execute
        Withdraw.execute Vote.execute_vote Vote.execute_weighted_vote Transfer.execute
        Opening.execute Close.close Repay.repay
    execute-Permitted ExecuteMsg.noop h = tt
    execute-Permitted (ExecuteMsg.fund_open_interest terms) h =
        let f = fund-IsFunded host env info terms s r s' h in (f.requested, f.unfunded)
    execute-Permitted (ExecuteMsg.propose_counter_offer terms) h =
        let p = propose-IsProposed env info terms s r s' h in (p.unfunded, p.absent)
    execute-Permitted ExecuteMsg.cancel_counter_offer h =
        let c = cancel-IsCancelled env info s r s' h in λ e. ground (arith, c.found)
    execute-Permitted ExecuteMsg.liquidate_open_interest h =
        let t = liquidate-IsSettled host env info s r s' h in
        (load_liquidation_state-IsExpired host env info s t.state t.loaded).caller
    execute-Permitted (ExecuteMsg.accept_counter_offer proposer terms) h =
        let a = accept-IsAccepted host env info proposer terms s r s' h in
        (require_owner-eq_ok s info a.owner a.authorised).0
    execute-Permitted (ExecuteMsg.delegate validator amount) h = require_owner-first s info _ h
    execute-Permitted (ExecuteMsg.undelegate validator amount) h = require_owner-first s info _ h
    execute-Permitted (ExecuteMsg.redelegate src dst amount) h = require_owner-first s info _ h
    execute-Permitted ExecuteMsg.claim_delegator_rewards h = require_owner-first s info _ h
    execute-Permitted (ExecuteMsg.withdraw denom amount recipient) h =
        require_owner-first s info _ h
    execute-Permitted (ExecuteMsg.vote proposal_id option) h = require_owner-first s info _ h
    execute-Permitted (ExecuteMsg.vote_weighted proposal_id options) h =
        require_owner-first s info _ h
    execute-Permitted (ExecuteMsg.transfer_ownership new_owner) h = require_owner-first s info _ h
    execute-Permitted (ExecuteMsg.open_interest terms) h = require_owner-first s info _ h
    execute-Permitted ExecuteMsg.close_open_interest h = require_owner-first s info _ h
    execute-Permitted ExecuteMsg.repay_open_interest h = require_owner-first s info _ h
