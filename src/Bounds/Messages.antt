-- ===== src/Bounds/Messages.antt =====
-- Every message of src/contract/execute.rs, within the bounds.
use wasm_vault.Prelude.{◌≡◌, ◌≢◌, ◌≤◌, some, none, flatten, arith, length, inl, inr, Option-cases}
use wasm_vault.BTreeMap
use wasm_vault.BTreeMap.{get}
use wasm_vault.Invariant.Proposals.{offered-unlent, IsConsistent-IsRequest}
use wasm_vault.Types.{Addr, OpenInterest, ExecuteMsg, Env, MessageInfo}
use wasm_vault.Errors.{panic}
use wasm_vault.Host.{Host}
use wasm_vault.Storage.{OfferMap, Storage}
use wasm_vault.Execute.{execute}
use wasm_vault.OpenInterest.Liquidation.{duration_or_default}
use wasm_vault.Invariant.Defs.{IsConsistent, IsOfferFor}
use wasm_vault.Bounds.{IsBounded}
use wasm_vault.Bounds.Assets.{
  vote-ne-panic, vote_weighted-ne-panic, transfer-ne-panic, claim-ne-panic, undelegate-ne-panic,
  redelegate-ne-panic, delegate-ne-panic, withdraw-ne-panic,
}
use wasm_vault.Bounds.Requests.{
  open-ne-panic, close-ne-panic, cancel-ne-panic, fund-ne-panic, propose-ne-panic, accept-ne-panic,
}
use wasm_vault.Bounds.Loans.{repay-ne-panic, liquidate-ne-panic}

module _ {M : Type 0} ⦃offer_map : OfferMap M⦄ (host : Host) (env : Env) (info : MessageInfo)
    (s : Storage M) (v : IsConsistent s) where
  expiring : (lender : Addr) → flatten s.lender ≡ some lender → s.open_interest_expiry ≢ some none
  expiring lender lent e = ground (arith, v.phase)

  room : length (offer_map.range s.counter_offers) ≤ 255
  room = ground (arith, v.phase)

  module _ (msg : ExecuteMsg) (bounds : IsBounded host env info msg s) where
    fund_time :
        (active : OpenInterest)
        → flatten s.open_interest ≡ some active
        → host.plus_seconds env.time active.expiry_duration ≢ panic
    fund_time active found =
        bounds.clock env.time active.expiry_duration (bounds.expiry active found)

    -- The offers have the expiry of the request.
    offer_time :
        (k : Addr) (offer : OpenInterest)
        → offer_map.may_load s.counter_offers k ≡ some offer
        → host.plus_seconds env.time offer.expiry_duration ≢ panic
    unfolding get
    offer_time k offer found =
        let stored : get k (offer_map.range s.counter_offers) ≡ some offer =
          ground (arith, offer_map.may_load_lem s.counter_offers k) in
        elim (Option-cases (flatten s.open_interest)) [
          | inl idle ↦ absurd (ground (arith, v.phase))
          | inr (active, asked) ↦
              let asks : s.open_interest ≡ some (some active) = ground arith in
              let unlent = offered-unlent s active k offer v asks found in
              let q = IsConsistent-IsRequest s active v asks unlent in
              let one =
                BTreeMap.All-get (IsOfferFor active) k offer (offer_map.range s.counter_offers)
                  q.all stored in
              ground (arith, one.same_duration, fund_time active asked)
        ]

  -- Where the balances, the rewards, and the amount of a delegation, of a withdrawal or of a new
  -- collateral fit 128 bits, the coins attached add up within 256 bits, the expiry of the open interest
  -- and the end of the delay are times of 64 bits, and the chain adds seconds to a time without a panic
  -- within 64 bits, no message makes a consistent vault panic: it succeeds or fails with an error.
  pub message-ne-panic :
      (msg : ExecuteMsg) → IsBounded host env info msg s → execute host env info msg s ≢ panic
  unfolding execute
  message-ne-panic ExecuteMsg.noop b h = ground arith
  message-ne-panic (ExecuteMsg.delegate validator amount) b h =
      delegate-ne-panic host env info s b.balances validator amount b.amount h
  message-ne-panic (ExecuteMsg.undelegate validator amount) b h =
      undelegate-ne-panic host env info s validator amount h
  message-ne-panic (ExecuteMsg.redelegate src dst amount) b h =
      redelegate-ne-panic host env info s src dst amount h
  message-ne-panic ExecuteMsg.claim_delegator_rewards b h = claim-ne-panic host env info s h
  message-ne-panic (ExecuteMsg.withdraw denom amount recipient) b h =
      withdraw-ne-panic host env info s b.balances denom amount recipient b.amount h
  message-ne-panic (ExecuteMsg.vote proposal_id option) b h =
      vote-ne-panic host env info s proposal_id option h
  message-ne-panic (ExecuteMsg.vote_weighted proposal_id options) b h =
      vote_weighted-ne-panic host env info s proposal_id options h
  message-ne-panic (ExecuteMsg.transfer_ownership new_owner) b h =
      transfer-ne-panic host env info s new_owner h
  message-ne-panic (ExecuteMsg.open_interest terms) b h =
      open-ne-panic host env info s terms b.amount h
  message-ne-panic (ExecuteMsg.fund_open_interest terms) b h =
      fund-ne-panic host env info s terms b.funds (fund_time _ b) h
  message-ne-panic (ExecuteMsg.propose_counter_offer terms) b h =
      propose-ne-panic host env info s terms b.funds room h
  message-ne-panic (ExecuteMsg.accept_counter_offer proposer terms) b h =
      accept-ne-panic host env info s proposer terms (offer_time _ b) h
  message-ne-panic ExecuteMsg.cancel_counter_offer b h = cancel-ne-panic host env info s h
  message-ne-panic ExecuteMsg.close_open_interest b h = close-ne-panic host env info s h
  message-ne-panic ExecuteMsg.repay_open_interest b h = repay-ne-panic host env info s h
  message-ne-panic ExecuteMsg.liquidate_open_interest b h =
      liquidate-ne-panic host env info s expiring b.balances b.rewards
        (λ last_time found.
          b.clock last_time (duration_or_default s.liquidation_unbonding_duration)
            (b.delay last_time found))
        h
