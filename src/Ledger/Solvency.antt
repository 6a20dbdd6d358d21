-- ===== src/Ledger/Solvency.antt =====
-- The escrow of the counter offers against the coins of the vault, over everything that may happen.
use wasm_vault.Prelude.{[], arith, ◌≡◌, refl, inl, inr, flatten, Option-cases}
use wasm_vault.Types.{CosmosMsg, Response}
use wasm_vault.Errors.{Result, ok, err, panic}
use wasm_vault.Storage.{OfferMap, Storage}
use wasm_vault.Execute.{execute, Call}
use wasm_vault.Invariant.Defs.{IsConsistent}
use wasm_vault.Invariant.Histories.{execute-IsConsistent}
use wasm_vault.Ledger.{
  Balance, credit, World, IsTruthful, deliver, transact, carry_out, Happens, Evolves, called,
  received, here, next,
}
use wasm_vault.Ledger.Outlays.{HasEscrowOf}
use wasm_vault.Ledger.Handlers.{HasEscrow-credit, HasEscrow-of_Leaves, execute-Leaves}
use wasm_vault.Types.{InstantiateMsg, Env, MessageInfo}
use wasm_vault.Host.{Host}
use wasm_vault.Instantiate.{instantiate}
use wasm_vault.OpenInterest.Lending.{clear_active_lender}
use wasm_vault.Invariant.Histories.{instantiate-IsConsistent}

-- A consistent vault whose balance covers the escrow.
pub record IsSolvent {M : Type 0} ⦃offer_map : OfferMap M⦄ (w : World M) : Type 0 where
  pub consistent : IsConsistent w.vault
  pub escrowed : HasEscrowOf w.vault w.balance

module _ {M : Type 0} ⦃offer_map : OfferMap M⦄ where
  settle-IsSolvent :
      (c : Call) (gains : CosmosMsg → Balance) (w : World M) (s' : Storage M) (r : Response)
      → IsSolvent w
      → IsTruthful c w.balance
      → execute c.host c.env c.info c.msg w.vault ≡ ok (r, s')
      → IsSolvent (carry_out c gains w (ok (r, s')))
  settle-IsSolvent c gains w s' r v truth e =
      let vault = c.env.contract_address in
      let credited = credit c.info.funds w.balance in
      let before =
        HasEscrow-credit (flatten w.vault.lender) (flatten w.vault.outstanding_debt) c.info.funds
          w.balance v.escrowed in
      let leaves =
        execute-Leaves c.host c.env c.info w.vault s' r w.balance c.msg v.consistent v.escrowed
          before truth e in
      elim (Option-cases (deliver vault gains r.messages credited)) [
        | inl undone ↦ rw undone v
        | inr (left, done) ↦ rw done (record {
          consistent = execute-IsConsistent c.host c.env c.info c.msg w.vault s' r v.consistent e;
          escrowed =
              HasEscrow-of_Leaves (flatten s'.lender) (flatten s'.outstanding_debt) vault gains
                r.messages credited left leaves done;
        })
      ]

  transact-IsSolvent :
      (c : Call) (gains : CosmosMsg → Balance) (w : World M)
      → IsSolvent w
      → IsTruthful c w.balance
      → IsSolvent (transact c gains w)
  unfolding transact
  transact-IsSolvent c gains w v truth = carried (execute c.host c.env c.info c.msg w.vault) refl
    where
      carried :
          (result : Result (Response × Storage M))
          → execute c.host c.env c.info c.msg w.vault ≡ result
          → IsSolvent (transact c gains w)
      carried (ok (r, s')) e = rw e (settle-IsSolvent c gains w s' r v truth e)
      carried (err x) e = rw e v
      carried panic e = rw e v

  Happens-IsSolvent : {w w' : World M} → Happens w w' → IsSolvent w → IsSolvent w'
  Happens-IsSolvent (called c gains truth e) v = rw e (transact-IsSolvent c gains _ v truth)
  Happens-IsSolvent (received coins e) v =
      rw e
        (record { consistent = v.consistent; escrowed = HasEscrow-credit _ _ coins _ v.escrowed })

  Evolves-IsSolvent : {w w' : World M} → Evolves w w' → IsSolvent w → IsSolvent w'
  Evolves-IsSolvent here v = v
  Evolves-IsSolvent (next r h) v = Happens-IsSolvent h (Evolves-IsSolvent r v)

  new-IsSolvent :
      (host : Host) (env : Env) (info : MessageInfo) (msg : InstantiateMsg) (s s' : Storage M)
      (r : Response) (balance : Balance)
      → offer_map.range s.counter_offers ≡ []
      → instantiate host env info msg s ≡ ok (r, s')
      → IsSolvent (record { vault = s'; balance = balance })
  unfolding instantiate clear_active_lender
  new-IsSolvent host env info msg s s' r balance empty h = record {
    consistent = instantiate-IsConsistent host env info msg s s' r empty h;
    escrowed = ground arith;
  }

  -- From the instantiation in an empty storage on, whatever happens (calls of anyone, in which the
  -- chain tells the balances as they are, and coins that arrive, in any order): the vault is consistent,
  -- and while there is no lender its coins cover the recorded debt, the escrow of the counter offers.
  pub Evolves-covered :
      (host : Host) (env : Env) (info : MessageInfo) (msg : InstantiateMsg) (s s' : Storage M)
      (r : Response) (balance : Balance) (w : World M)
      → offer_map.range s.counter_offers ≡ []
      → instantiate host env info msg s ≡ ok (r, s')
      → Evolves (record { vault = s'; balance = balance }) w
      → IsSolvent w
  Evolves-covered host env info msg s s' r balance w empty h evolution =
      Evolves-IsSolvent evolution (new-IsSolvent host env info msg s s' r balance empty h)
