-- ===== src/Lifecycle/Neutral.antt =====
-- The messages of src/contract/execute.rs that are no part of the life of a loan.
use wasm_vault.Prelude.{◌≡◌, ap, arith}
use wasm_vault.Types.{ExecuteMsg, Env, MessageInfo, Response}
use wasm_vault.Errors.{ok}
use wasm_vault.Host.{Host}
use wasm_vault.Storage.{OfferMap, Storage}
use wasm_vault.Execute.{execute}
use wasm_vault.Execute.Frames
use wasm_vault.Lifecycle.{IsNeutral}

module _ {M : Type 0} ⦃offer_map : OfferMap M⦄ (host : Host) (env : Env) (info : MessageInfo)
    (s s' : Storage M) (r : Response) where
  same_owner : s' ≡ s → s' ≡ record s { owner = s'.owner }
  same_owner e = ground (arith, ap (λ (t : Storage M). t.owner) e)

  -- They leave all but the owner.
  pub neutral-frame :
      (msg : ExecuteMsg)
      → IsNeutral msg
      → execute host env info msg s ≡ ok (r, s')
      → s' ≡ record s { owner = s'.owner }
  unfolding execute
  neutral-frame ExecuteMsg.noop neutral h = same_owner (ground arith)
  neutral-frame (ExecuteMsg.delegate validator amount) neutral h =
      same_owner (Frames.delegate-unchanged host env info s s' r validator amount h)
  neutral-frame (ExecuteMsg.undelegate validator amount) neutral h =
      same_owner (Frames.undelegate-unchanged host env info s s' r validator amount h)
  neutral-frame (ExecuteMsg.redelegate src dst amount) neutral h =
      same_owner (Frames.redelegate-unchanged host env info s s' r src dst amount h)
  neutral-frame ExecuteMsg.claim_delegator_rewards neutral h =
      same_owner (Frames.claim-unchanged host env info s s' r h)
  neutral-frame (ExecuteMsg.withdraw denom amount recipient) neutral h =
      same_owner (Frames.withdraw-unchanged host env info s s' r denom amount recipient h)
  neutral-frame (ExecuteMsg.vote proposal_id option) neutral h =
      same_owner (Frames.vote-unchanged host env info s s' r proposal_id option h)
  neutral-frame (ExecuteMsg.vote_weighted proposal_id options) neutral h =
      same_owner (Frames.vote_weighted-unchanged host env info s s' r proposal_id options h)
  neutral-frame (ExecuteMsg.transfer_ownership new_owner) neutral h =
      (Frames.transfer-owner host env info s s' r new_owner h).0
  neutral-frame msg neutral h = absurd neutral
