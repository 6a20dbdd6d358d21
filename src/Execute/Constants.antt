-- ===== src/Execute/Constants.antt =====
-- The owner, the delay and the version under the messages of src/contract/execute.rs.
use wasm_vault.Prelude.{◌-◌, ◌≡◌, ◌≢◌, String, Option, none, some, min, arith, eq_iff, str_eq}
use wasm_vault.Types.{Addr, Coin, OpenInterest, Env, MessageInfo, ExecuteMsg, Response}
use wasm_vault.Errors.{ok, bind-ok, fail_if, ownership_unchanged}
use wasm_vault.Host.{Host, answer, try}
use wasm_vault.Storage.{OfferMap, Storage}
use wasm_vault.Helpers.{require_owner}
use wasm_vault.Helpers.Owner.{require_owner-eq_ok}
use wasm_vault.Transfer
use wasm_vault.OpenInterest.Liquidation.{finalize_state}
use wasm_vault.OpenInterest.Execute as Opening
use wasm_vault.OpenInterest.Fund.Steps.{fund-IsFunded}
use wasm_vault.OpenInterest.Close
use wasm_vault.OpenInterest.Repay
use wasm_vault.OpenInterest.Liquidate
use wasm_vault.OpenInterest.Liquidate.Steps.{liquidate-IsSettled}
use wasm_vault.CounterOffer.Helpers.{Offer, add_outstanding_debt, release_outstanding_debt}
use wasm_vault.CounterOffer.Propose.{propose, evict}
use wasm_vault.CounterOffer.Propose.Steps.{propose-IsProposed}
use wasm_vault.CounterOffer.Accept.Steps.{accept-IsAccepted}
use wasm_vault.CounterOffer.Cancel.Steps.{cancel-IsCancelled}
use wasm_vault.Invariant.Liquidations.{undelegate_if_allowed-middle}
use wasm_vault.Execute.{execute}
use wasm_vault.Execute.Frames

pub record IsKept {M : Type 0} (s s' : Storage M) : Type 0 where
  pub duration : s'.liquidation_unbonding_duration ≡ s.liquidation_unbonding_duration
  pub version : s'.contract_version ≡ s.contract_version

-- Kept, and the owner too.
pub record IsOwned {M : Type 0} (s s' : Storage M) : Type 0 where
  pub kept : IsKept s s'
  pub owner : s'.owner ≡ s.owner

module _ {M : Type 0} ⦃offer_map : OfferMap M⦄ where
  evict-IsOwned :
      (candidate : Option Offer) (s middle : Storage M)
      → evict candidate s ≡ ok middle
      → IsOwned s middle
  unfolding evict release_outstanding_debt
  evict-IsOwned none s middle h = ground arith
  evict-IsOwned (some (k, v)) s middle h = ground arith

  add-IsOwned :
      (s updated : Storage M) (coin : Coin)
      → add_outstanding_debt s coin ≡ ok updated
      → IsOwned s updated
  unfolding add_outstanding_debt
  add-IsOwned s updated coin h = ground arith

  module _ (host : Host) (env : Env) (info : MessageInfo) (s s' : Storage M) (r : Response) where
    propose-IsOwned : (terms : OpenInterest) → propose env info terms s ≡ ok (r, s') → IsOwned s s'
    propose-IsOwned terms h =
        let p = propose-IsProposed env info terms s r s' h in
        ground (
          arith,
          p.stored,
          evict-IsOwned p.candidate s p.middle p.evicted,
          add-IsOwned p.middle p.updated terms.liquidity_coin p.added,
        )

    liquidate-IsOwned : Liquidate.liquidate host env info s ≡ ok (r, s') → IsOwned s s'
    unfolding finalize_state
    liquidate-IsOwned h =
        let t = liquidate-IsSettled host env info s r s' h in
        ground (
          arith,
          t.stored,
          undelegate_if_allowed-middle host env t.state
              (t.remaining - min t.funds.available t.remaining) s t.undelegate_msgs
              t.undelegated_amount t.middle t.undelegated,
        )

    unchanged-IsOwned : s' ≡ s → IsOwned s s'
    unchanged-IsOwned e = ground arith

    -- A transfer makes the validated address the owner, which the sender was.
    pub record IsTransferred (new_owner : String) : Type 0 where
      pub kept : IsKept s s'
      pub address : Addr
      pub before : s.owner ≡ some info.sender
      pub validated : host.addr_validate new_owner ≡ answer address
      pub after : s'.owner ≡ some address
      pub changed : address ≢ info.sender

    transfer-IsTransferred :
        (new_owner : String)
        → Transfer.execute host info new_owner s ≡ ok (r, s')
        → IsTransferred new_owner
    unfolding Transfer.execute
    transfer-IsTransferred new_owner h = bind-ok (require_owner s info) _ h λ owner authorised h1.
        bind-ok (try (host.addr_validate new_owner)) _ h1 λ address validated h2.
          bind-ok (fail_if (str_eq address owner) ownership_unchanged) _ h2 λ _ changed h3. record {
            kept = ground arith;
            address = address;
            before = (require_owner-eq_ok s info owner authorised).0;
            validated = ground arith;
            after = ground arith;
            changed =
                ground (arith, eq_iff address owner, require_owner-eq_ok s info owner authorised);
          }

    -- What a message may do to the delay, the version and the owner.
    abbrev pub OwnerAfter : ExecuteMsg → Type 0
    OwnerAfter (ExecuteMsg.transfer_ownership new_owner) = IsTransferred new_owner
    OwnerAfter _ = IsOwned s s'

    -- Whatever message succeeds, the delay and the version stay; the owner stays too, unless the
    -- message is a transfer from the owner to another address that the chain has validated.
    pub execute-OwnerAfter :
        (msg : ExecuteMsg) → execute host env info msg s ≡ ok (r, s') → OwnerAfter msg
    unfolding execute Opening.execute Close.close Repay.repay
    execute-OwnerAfter ExecuteMsg.noop h = ground arith
    execute-OwnerAfter (ExecuteMsg.delegate validator amount) h =
        unchanged-IsOwned (Frames.delegate-unchanged host env info s s' r validator amount h)
    execute-OwnerAfter (ExecuteMsg.undelegate validator amount) h =
        unchanged-IsOwned (Frames.undelegate-unchanged host env info s s' r validator amount h)
    execute-OwnerAfter (ExecuteMsg.redelegate src dst amount) h =
        unchanged-IsOwned (Frames.redelegate-unchanged host env info s s' r src dst amount h)
    execute-OwnerAfter ExecuteMsg.claim_delegator_rewards h =
        unchanged-IsOwned (Frames.claim-unchanged host env info s s' r h)
    execute-OwnerAfter (ExecuteMsg.withdraw denom amount recipient) h =
        unchanged-IsOwned (Frames.withdraw-unchanged host env info s s' r denom amount recipient h)
    execute-OwnerAfter (ExecuteMsg.vote proposal_id option) h =
        unchanged-IsOwned (Frames.vote-unchanged host env info s s' r proposal_id option h)
    execute-OwnerAfter (ExecuteMsg.vote_weighted proposal_id options) h =
        unchanged-IsOwned
          (Frames.vote_weighted-unchanged host env info s s' r proposal_id options h)
    execute-OwnerAfter (ExecuteMsg.transfer_ownership new_owner) h =
        transfer-IsTransferred new_owner h
    execute-OwnerAfter (ExecuteMsg.open_interest terms) h = ground arith
    execute-OwnerAfter (ExecuteMsg.fund_open_interest terms) h =
        let f = fund-IsFunded host env info terms s r s' h in ground (arith, f.stored)
    execute-OwnerAfter (ExecuteMsg.propose_counter_offer terms) h = propose-IsOwned terms h
    execute-OwnerAfter (ExecuteMsg.accept_counter_offer proposer terms) h =
        let a = accept-IsAccepted host env info proposer terms s r s' h in ground (arith, a.stored)
    execute-OwnerAfter ExecuteMsg.cancel_counter_offer h =
        let c = cancel-IsCancelled env info s r s' h in ground (arith, c.stored)
    execute-OwnerAfter ExecuteMsg.close_open_interest h = ground arith
    execute-OwnerAfter ExecuteMsg.repay_open_interest h = ground arith
    execute-OwnerAfter ExecuteMsg.liquidate_open_interest h = liquidate-IsOwned h
