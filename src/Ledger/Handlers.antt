-- ===== src/Ledger/Handlers.antt =====
-- The escrow after a message of src/contract/execute.rs, by its handler.
use wasm_vault.Prelude.{
  ◌+◌, ◌≤◌, ◌≡◌, refl, inl, inr, Option, none, some, List, String, flatten, arith, subst, sym,
}
use wasm_vault.Types.{Addr, Coin, OpenInterest, CosmosMsg, ExecuteMsg, Env, MessageInfo, Response}
use wasm_vault.Errors.{ok}
use wasm_vault.Host.{Host, answer}
use wasm_vault.Storage.{OfferMap, Storage}
use wasm_vault.OpenInterest.Execute as Opening
use wasm_vault.OpenInterest.Fund.Steps.{fund-IsFunded}
use wasm_vault.OpenInterest.Close
use wasm_vault.OpenInterest.Repay
use wasm_vault.OpenInterest.Liquidate.Steps.{liquidate-IsSettled, load_liquidation_state-IsExpired}
use wasm_vault.OpenInterest.Liquidate.Settlement.{liquidate-settles}
use wasm_vault.CounterOffer.Propose.Steps.{propose-IsProposed, propose-keeps}
use wasm_vault.CounterOffer.Accept.Steps.{accept-IsAccepted}
use wasm_vault.CounterOffer.Cancel.Steps.{cancel-IsCancelled}
use wasm_vault.Execute.{execute}
use wasm_vault.Execute.Frames
use wasm_vault.Invariant.Defs.{IsConsistent}
use wasm_vault.Invariant.Proposals.{offered-unlent}
use wasm_vault.Invariant.Histories.{execute-IsConsistent}
use wasm_vault.Escrow.Offers.{propose-conserves, cancel-conserves}
use wasm_vault.Ledger.{Balance, credit, deliver}
use wasm_vault.Ledger.Delivery.{outgoing_in, deliver-left}
use wasm_vault.Ledger.Outlays.{
  HasEscrow, HasEscrowOf, Leaves, Leaves-of_quiet, undelegate-quiet, redelegate-quiet, claim-quiet,
  vote-quiet, vote_weighted-quiet, transfer-quiet, withdraw-leaves, delegate-leaves, escrow-covered,
  Leaves-of_escrow, outgoing_in-eviction,
}

module _ (lender : Option Addr) (debt : Option Coin) (coins : List Coin) (balance : Balance) where
  pub HasEscrow-credit :
      HasEscrow lender debt balance → HasEscrow lender debt (credit coins balance)
  HasEscrow-credit h = has lender debt h
    where
      has :
          (l : Option Addr) (d : Option Coin)
          → HasEscrow l d balance
          → HasEscrow l d (credit coins balance)
      has (some l) d h = tt
      has none none h = tt
      has none (some d) h = omega arith

-- What a delivery leaves.
pub HasEscrow-of_Leaves :
    (lender : Option Addr) (debt : Option Coin) (vault : Addr) (gains : CosmosMsg → Balance)
    (messages : List CosmosMsg) (balance left : Balance)
    → Leaves lender debt messages balance
    → deliver vault gains messages balance ≡ some left
    → HasEscrow lender debt left
HasEscrow-of_Leaves (some l) debt vault gains messages balance left h d = tt
HasEscrow-of_Leaves none none vault gains messages balance left h d = tt
HasEscrow-of_Leaves none (some debt) vault gains messages balance left h d =
    omega (arith, deliver-left debt.denom vault gains messages balance left d)

module _ {M : Type 0} ⦃offer_map : OfferMap M⦄ (host : Host) (env : Env) (info : MessageInfo)
    (s s' : Storage M) (r : Response) (before : Balance) where
  abbrev after : Balance
  after = credit info.funds before

  abbrev LeavesEscrow : Type 0
  LeavesEscrow = Leaves (flatten s'.lender) (flatten s'.outstanding_debt) r.messages after

  Leaves-same :
      s' ≡ s
      → Leaves (flatten s.lender) (flatten s.outstanding_debt) r.messages after
      → LeavesEscrow
  Leaves-same e =
      subst
        (λ (t : Storage M). Leaves (flatten t.lender) (flatten t.outstanding_debt) r.messages after)
        (sym e)

  Leaves-lent : (l : Addr) → flatten s'.lender ≡ some l → LeavesEscrow
  Leaves-lent l e = rw e tt

  Leaves-free : flatten s'.outstanding_debt ≡ none → LeavesEscrow
  Leaves-free e = free (flatten s'.lender) (flatten s'.outstanding_debt) e
    where
      free : (l : Option Addr) (d : Option Coin) → d ≡ none → Leaves l d r.messages after
      free (some l) d e = tt
      free none none e = tt
      free none (some d) e = absurd (ground arith)

  Leaves-by_debt :
      (lender : Option Addr) (stored : Option (Option Coin))
      → HasEscrow lender (flatten stored) after
      → ((d : Coin)
          → stored ≡ some (some d)
          → d.amount ≤ after d.denom
          → d.amount + outgoing_in d.denom r.messages ≤ after d.denom)
      → Leaves lender (flatten stored) r.messages after
  Leaves-by_debt (some l) stored e f = tt
  Leaves-by_debt none none e f = tt
  Leaves-by_debt none (some none) e f = tt
  Leaves-by_debt none (some (some d)) e f = f d refl e

  propose-Leaves :
      (terms : OpenInterest)
      → IsConsistent s
      → HasEscrowOf s before
      → execute host env info (ExecuteMsg.propose_counter_offer terms) s ≡ ok (r, s')
      → LeavesEscrow
  unfolding execute
  propose-Leaves terms v e h =
      let p = propose-IsProposed env info terms s r s' h in
      let v' =
        execute-IsConsistent host env info (ExecuteMsg.propose_counter_offer terms) s s' r v h in
      let kept = propose-keeps env info terms s r s' h in
      let conserved = propose-conserves s s' r env info terms p.active v p.requested h in
      Leaves-of_escrow s' p.active v' (ground (arith, kept, p.requested))
        (ground (arith, kept, p.unfunded)) after r.messages
        (ground (
          arith,
          conserved,
          p.sent,
          outgoing_in-eviction p.active.liquidity_coin.denom p.candidate,
          escrow-covered s p.active v p.requested p.unfunded before e,
        ))

  cancel-Leaves :
      IsConsistent s
      → HasEscrowOf s before
      → execute host env info ExecuteMsg.cancel_counter_offer s ≡ ok (r, s')
      → LeavesEscrow
  unfolding execute
  cancel-Leaves v e h =
      let c = cancel-IsCancelled env info s r s' h in
      let unlent = offered-unlent s c.active info.sender c.offer v c.requested c.found in
      let v' = execute-IsConsistent host env info ExecuteMsg.cancel_counter_offer s s' r v h in
      let conserved = cancel-conserves s s' r env info c.offer unlent c.found h in
      Leaves-of_escrow s' c.active v' (ground (arith, c.requested, c.stored))
        (ground (arith, unlent, c.stored)) after r.messages
        (ground (arith, conserved, escrow-covered s c.active v c.requested unlent before e))

  quiet :
      HasEscrowOf s after
      → ((denom : String) → outgoing_in denom r.messages ≡ 0)
      → Leaves (flatten s.lender) (flatten s.outstanding_debt) r.messages after
  quiet = Leaves-of_quiet (flatten s.lender) (flatten s.outstanding_debt) r.messages after

  -- What a message leaves covers the escrow afterwards.
  pub execute-Leaves :
      (msg : ExecuteMsg)
      → IsConsistent s
      → HasEscrowOf s before
      → HasEscrowOf s after
      → ((denom : String)
          → host.query_balance env.contract_address denom
            ≡ answer (record { amount = after denom; denom = denom }))
      → execute host env info msg s ≡ ok (r, s')
      → LeavesEscrow
  unfolding execute Opening.execute Close.close Repay.repay
  execute-Leaves ExecuteMsg.noop v e e' truth h =
      Leaves-same (ground arith) (quiet e' (λ denom. ground arith))
  execute-Leaves (ExecuteMsg.delegate validator amount) v e e' truth h =
      Leaves-same (Frames.delegate-unchanged host env info s s' r validator amount h) (
        Leaves-by_debt (flatten s.lender) s.outstanding_debt e' λ d owes le.
          delegate-leaves host env info s s' r after d owes le validator amount truth h)
  execute-Leaves (ExecuteMsg.undelegate validator amount) v e e' truth h =
      Leaves-same (Frames.undelegate-unchanged host env info s s' r validator amount h)
        (quiet e' (undelegate-quiet host env info s s' r validator amount h))
  execute-Leaves (ExecuteMsg.redelegate src dst amount) v e e' truth h =
      Leaves-same (Frames.redelegate-unchanged host env info s s' r src dst amount h)
        (quiet e' (redelegate-quiet host env info s s' r src dst amount h))
  execute-Leaves ExecuteMsg.claim_delegator_rewards v e e' truth h =
      Leaves-same (Frames.claim-unchanged host env info s s' r h)
        (quiet e' (claim-quiet host env info s s' r h))
  execute-Leaves (ExecuteMsg.withdraw denom amount recipient) v e e' truth h =
      Leaves-same (Frames.withdraw-unchanged host env info s s' r denom amount recipient h) (
        Leaves-by_debt (flatten s.lender) s.outstanding_debt e' λ d owes le.
          withdraw-leaves host env info s s' r after d owes le denom amount recipient (truth denom)
            h)
  execute-Leaves (ExecuteMsg.vote proposal_id option) v e e' truth h =
      Leaves-same (Frames.vote-unchanged host env info s s' r proposal_id option h)
        (quiet e' (vote-quiet host env info s s' r proposal_id option h))
  execute-Leaves (ExecuteMsg.vote_weighted proposal_id options) v e e' truth h =
      Leaves-same (Frames.vote_weighted-unchanged host env info s s' r proposal_id options h)
        (quiet e' (vote_weighted-quiet host env info s s' r proposal_id options h))
  execute-Leaves (ExecuteMsg.transfer_ownership new_owner) v e e' truth h =
      subst
        (λ (t : Storage M). Leaves (flatten t.lender) (flatten t.outstanding_debt) r.messages after)
        (sym (Frames.transfer-owner host env info s s' r new_owner h).0)
        (quiet e' (transfer-quiet host env info s s' r new_owner h))
  execute-Leaves (ExecuteMsg.open_interest terms) v e e' truth h =
      Leaves-free (ground (arith, v.phase))
  execute-Leaves (ExecuteMsg.fund_open_interest terms) v e e' truth h =
      let f = fund-IsFunded host env info terms s r s' h in
      Leaves-lent info.sender (ground (arith, f.stored))
  execute-Leaves (ExecuteMsg.propose_counter_offer terms) v e e' truth h =
      propose-Leaves terms v e h
  execute-Leaves (ExecuteMsg.accept_counter_offer proposer terms) v e e' truth h =
      let a = accept-IsAccepted host env info proposer terms s r s' h in
      Leaves-lent a.lender (ground (arith, a.stored))
  execute-Leaves ExecuteMsg.cancel_counter_offer v e e' truth h = cancel-Leaves v e h
  execute-Leaves ExecuteMsg.close_open_interest v e e' truth h = Leaves-free (ground arith)
  execute-Leaves ExecuteMsg.repay_open_interest v e e' truth h =
      Leaves-free (ground (arith, v.phase))
  execute-Leaves ExecuteMsg.liquidate_open_interest v e e' truth h =
      let t = liquidate-IsSettled host env info s r s' h in
      let x = load_liquidation_state-IsExpired host env info s t.state t.loaded in
      let settled =
        liquidate-settles host env info s s' r t.state.open_interest (ground (arith, x.active)) h in
      elim settled.4 [
        | inl (nothing, closed) ↦ Leaves-free (ground (arith, closed.debt))
        | inr (part, bonded) ↦ Leaves-lent t.state.lender (ground (arith, part.lender, x.lent))
      ]
