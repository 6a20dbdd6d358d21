-- ===== src/Agreement/Refinement.antt =====
-- The messages of src/contract/execute.rs as steps of the agreement.
use wasm_vault.Prelude.{◌≡◌, refl, arith}
use wasm_vault.Types.{ExecuteMsg, Env, MessageInfo, Response}
use wasm_vault.Errors.{ok}
use wasm_vault.Host.{Host}
use wasm_vault.Storage.{OfferMap, Storage}
use wasm_vault.Execute.{execute}
use wasm_vault.Invariant.Defs.{IsConsistent}
use wasm_vault.Lifecycle.{IsNeutral}
use wasm_vault.Lifecycle.Neutral.{neutral-frame}
use wasm_vault.Agreement.{deal_of, Does}
use wasm_vault.Agreement.Steps.{does}
use wasm_vault.Agreement.Requests.{open-Does, fund-Does, close-Does}
use wasm_vault.Agreement.Offers.{propose-Does, accept-Does, cancel-Does}
use wasm_vault.Agreement.Loans.{repay-Does, liquidate-Does}

module _ {M : Type 0} ⦃offer_map : OfferMap M⦄ (host : Host) (env : Env) (info : MessageInfo)
    (s s' : Storage M) (r : Response) (v : IsConsistent s) where
  abbrev DoesIt : ExecuteMsg → Type 0
  DoesIt msg = Does host env info (deal_of s) msg r.messages (deal_of s')

  unchanged : (msg : ExecuteMsg) → IsNeutral msg → deal_of s' ≡ deal_of s → DoesIt msg
  unchanged msg n e =
      does host env info s s' r msg (Does.keeps (deal_of s) msg r.messages n) refl refl e

  neutral-Does :
      (msg : ExecuteMsg) → IsNeutral msg → execute host env info msg s ≡ ok (r, s') → DoesIt msg
  unfolding execute
  neutral-Does msg n h =
      unchanged msg n (ground (arith, neutral-frame host env info s s' r msg n h))

  -- Each message that a consistent vault takes is a step of the agreement, with the messages that it
  -- sends: a proposal enters the book with exactly its liquidity paid in, and where it evicts an offer it
  -- beats that and pays it back; a cancellation strikes and pays back the sender's; a funding and
  -- a close pay back the whole book, an acceptance all but the accepted one; a repayment pays the lender
  -- what the terms say; a liquidation pays what is owed or leaves the rest owed.
  pub execute-Does : (msg : ExecuteMsg) → execute host env info msg s ≡ ok (r, s') → DoesIt msg
  unfolding execute
  execute-Does (ExecuteMsg.open_interest terms) h = open-Does host env info s s' r v terms h
  execute-Does (ExecuteMsg.fund_open_interest terms) h = fund-Does host env info s s' r v terms h
  execute-Does (ExecuteMsg.propose_counter_offer terms) h =
      propose-Does host env info s s' r v terms h
  execute-Does (ExecuteMsg.accept_counter_offer proposer terms) h =
      accept-Does host env info s s' r v proposer terms h
  execute-Does ExecuteMsg.cancel_counter_offer h = cancel-Does host env info s s' r v h
  execute-Does ExecuteMsg.close_open_interest h = close-Does host env info s s' r v h
  execute-Does ExecuteMsg.repay_open_interest h = repay-Does host env info s s' r h
  execute-Does ExecuteMsg.liquidate_open_interest h = liquidate-Does host env info s s' r h
  execute-Does msg h = neutral-Does msg tt h
