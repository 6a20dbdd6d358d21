-- ===== src/Lifecycle/Refinement.antt =====
-- The moves that the messages of src/contract/execute.rs make.
use wasm_vault.Prelude.{
  ◌≡◌, inl, inr, refl, sym, subst, List, [], ◌∷◌, flatten, arith, Option-cases,
}
use wasm_vault.Types.{ExecuteMsg, Env, MessageInfo, Response}
use wasm_vault.Errors.{Result, ok, err, panic}
use wasm_vault.Host.{Host}
use wasm_vault.Storage.{OfferMap, Storage}
use wasm_vault.OpenInterest.Execute as Opening
use wasm_vault.OpenInterest.Fund.Steps.{fund-IsFunded}
use wasm_vault.OpenInterest.Close
use wasm_vault.OpenInterest.Repay
use wasm_vault.OpenInterest.Liquidation.{LiquidationState}
use wasm_vault.OpenInterest.Liquidate.Steps.{
  IsExpired, liquidate-IsSettled, load_liquidation_state-IsExpired,
}
use wasm_vault.OpenInterest.Liquidate.Settlement.{liquidate-settles}
use wasm_vault.CounterOffer.Propose.Steps.{propose-IsProposed, propose-keeps}
use wasm_vault.CounterOffer.Accept.Steps.{accept-IsAccepted}
use wasm_vault.CounterOffer.Cancel.Steps.{cancel-IsCancelled}
use wasm_vault.Execute.{execute, Call, step, run}
use wasm_vault.Invariant.Defs.{IsConsistent}
use wasm_vault.Invariant.Proposals.{offered-unlent}
use wasm_vault.Invariant.Histories.{step-IsConsistent}
use wasm_vault.Lifecycle.Neutral.{neutral-frame}
use wasm_vault.Lifecycle.{Stage, lent, owing, stage_of, IsLoanStage, Moves, Reaches}

module _ {M : Type 0} ⦃offer_map : OfferMap M⦄ (host : Host) (env : Env) (info : MessageInfo)
    (s s' : Storage M) (r : Response) where
  move :
      {a b : Stage} (msg : ExecuteMsg)
      → Moves a msg b
      → stage_of s ≡ a
      → stage_of s' ≡ b
      → Moves (stage_of s) msg (stage_of s')
  move {a} {b} msg m p q =
      subst (λ x. Moves x msg (stage_of s')) (sym p) (subst (λ x. Moves a msg x) (sym q) m)

  loan_stage :
      (state : LiquidationState) → IsExpired host env info s state → IsLoanStage (stage_of s)
  loan_stage state e = elim (Option-cases (flatten s.outstanding_debt)) [
    | inl nothing ↦
        subst IsLoanStage (sym (the_stage lent (ground (arith, e.active, e.lent, nothing)))) tt
    | inr (debt, found) ↦
        subst IsLoanStage (sym (the_stage owing (ground (arith, e.active, e.lent, found)))) tt
  ]
    where
      the_stage : (a : Stage) → stage_of s ≡ a → stage_of s ≡ a
      the_stage a e = e

  -- A message that a consistent vault takes makes an abstract move: a request is opened on an idle
  -- vault alone, and is closed, funded or settled by an offer; a loan ends by a repayment, unless a
  -- liquidation has paid it in part, or by a liquidation; all other messages keep the stage.
  pub execute-Moves :
      (msg : ExecuteMsg)
      → IsConsistent s
      → execute host env info msg s ≡ ok (r, s')
      → Moves (stage_of s) msg (stage_of s')
  unfolding execute Opening.execute Close.close Repay.repay
  execute-Moves (ExecuteMsg.open_interest terms) v h =
      move _ (Moves.opens terms) (ground arith) (ground (arith, v.phase))
  execute-Moves (ExecuteMsg.fund_open_interest terms) v h =
      let f = fund-IsFunded host env info terms s r s' h in
      move _ (Moves.funds terms) (ground (arith, f.requested, f.unfunded))
        (ground (arith, f.requested, f.stored))
  execute-Moves (ExecuteMsg.propose_counter_offer terms) v h =
      let p = propose-IsProposed env info terms s r s' h in
      move _ (Moves.proposes terms) (ground (arith, p.requested, p.unfunded))
        (ground (arith, p.requested, p.unfunded, propose-keeps env info terms s r s' h))
  execute-Moves (ExecuteMsg.accept_counter_offer proposer terms) v h =
      let a = accept-IsAccepted host env info proposer terms s r s' h in
      move _ (Moves.accepts proposer terms) (ground (arith, a.requested, a.unfunded))
        (ground (arith, a.stored))
  execute-Moves ExecuteMsg.cancel_counter_offer v h =
      let c = cancel-IsCancelled env info s r s' h in
      let unlent = offered-unlent s c.active info.sender c.offer v c.requested c.found in
      move _ Moves.cancels (ground (arith, c.requested, unlent))
        (ground (arith, c.stored, c.requested, unlent))
  execute-Moves ExecuteMsg.close_open_interest v h =
      move _ Moves.closes (ground arith) (ground arith)
  execute-Moves ExecuteMsg.repay_open_interest v h =
      move _ Moves.repays (ground arith) (ground arith)
  execute-Moves ExecuteMsg.liquidate_open_interest v h =
      let t = liquidate-IsSettled host env info s r s' h in
      let e = load_liquidation_state-IsExpired host env info s t.state t.loaded in
      let settled =
        liquidate-settles host env info s s' r t.state.open_interest (ground (arith, e.active)) h in
      elim settled.4 [
        | inl (nothing, closed) ↦
            move _ (Moves.settles (loan_stage t.state e)) refl
              (ground (arith, closed.open_interest))
        | inr (part, bonded) ↦
            move _ (Moves.pays_part (loan_stage t.state e)) refl
              (ground (arith, part.debt, part.open_interest, part.lender, e.active, e.lent))
      ]
  execute-Moves msg v h =
      move msg (Moves.stays msg tt) refl
        (ground (arith, neutral-frame host env info s s' r msg tt h))

Reaches-trans : {a b c : Stage} → Reaches a b → Reaches b c → Reaches a c
Reaches-trans Reaches.here q = q
Reaches-trans (Reaches.after msg m p) q = Reaches.after msg m (Reaches-trans p q)

module _ {M : Type 0} ⦃offer_map : OfferMap M⦄ where
  step-Reaches :
      (c : Call) (s : Storage M) → IsConsistent s → Reaches (stage_of s) (stage_of (step c s))
  unfolding step
  step-Reaches c s v = from_result (execute c.host c.env c.info c.msg s) refl
    where
      from_result :
          (result : Result (Response × Storage M))
          → execute c.host c.env c.info c.msg s ≡ result
          → Reaches (stage_of s) (stage_of (step c s))
      from_result (ok (r, s')) e =
          rw e
            (Reaches.after c.msg (execute-Moves c.host c.env c.info s s' r c.msg v e) Reaches.here)
      from_result (err x) e = rw e Reaches.here
      from_result panic e = rw e Reaches.here

  -- The stages of a consistent vault, before and after any calls by anyone, with any answers of the
  -- chain, are joined by abstract moves alone.
  pub run-Reaches :
      (calls : List Call) (s : Storage M)
      → IsConsistent s
      → Reaches (stage_of s) (stage_of (run calls s))
  unfolding run
  run-Reaches [] s v = Reaches.here
  run-Reaches (c ∷ calls) s v =
      Reaches-trans (step-Reaches c s v) (run-Reaches calls (step c s) (step-IsConsistent c s v))
