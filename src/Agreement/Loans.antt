-- ===== src/Agreement/Loans.antt =====
-- The end of a loan, src/contract/open_interest/repay.rs and liquidate.rs.
use wasm_vault.Prelude.{◌≡◌, refl, inl, inr, String, some, flatten, arith}
use wasm_vault.Types.{Addr, OpenInterest, ExecuteMsg, Env, MessageInfo, Response}
use wasm_vault.Errors.{ok, bind-ok, ok_or, no_open_interest, no_lender}
use wasm_vault.Host.{Host}
use wasm_vault.Storage.{OfferMap, Storage, load}
use wasm_vault.Helpers.{require_owner}
use wasm_vault.OpenInterest.Repay.{repay, refuse_debt}
use wasm_vault.OpenInterest.Repay.Payment.{repay-pays}
use wasm_vault.OpenInterest.Liquidate.Steps.{liquidate-IsSettled, load_liquidation_state-IsExpired}
use wasm_vault.OpenInterest.Liquidate.Settlement.{liquidate-settles}
use wasm_vault.Execute.{execute}
use wasm_vault.Invariant.Liquidations.{owed_or_collateral}
use wasm_vault.Agreement.{loan, deal_of, time_of, Does}
use wasm_vault.Agreement.Steps.{does}

module _ {M : Type 0} ⦃offer_map : OfferMap M⦄ (host : Host) (env : Env) (info : MessageInfo)
    (s s' : Storage M) (r : Response) where
  abbrev DoesIt : ExecuteMsg → Type 0
  DoesIt msg = Does host env info (deal_of s) msg r.messages (deal_of s')

  pub liquidate-Does :
      execute host env info ExecuteMsg.liquidate_open_interest s ≡ ok (r, s')
      → DoesIt ExecuteMsg.liquidate_open_interest
  unfolding execute
  liquidate-Does h =
      let t = liquidate-IsSettled host env info s r s' h in
      let x = load_liquidation_state-IsExpired host env info s t.state t.loaded in
      let terms = t.state.open_interest in
      let lender = t.state.lender in
      let settled = liquidate-settles host env info s s' r terms (ground (arith, x.active)) h in
      let expiry = settled.1.0 in
      let owed = owed_or_collateral (flatten s.outstanding_debt) terms in
      let left = settled.2 in
      let before : deal_of s ≡ loan terms lender expiry owed =
        ground (arith, x.active, x.lent, settled.1.1) in
      elim settled.4 [
        | inl (nothing, closed) ↦
            does host env info s s' r ExecuteMsg.liquidate_open_interest
              (Does.settles terms lender expiry owed r.messages settled.1.2
                (omega (arith, settled.3)))
              before refl (ground (arith, closed.open_interest))
        | inr (part, bonded) ↦
            does host env info s s' r ExecuteMsg.liquidate_open_interest
              (Does.pays_part terms lender expiry owed left r.messages settled.1.2 part.left_pos
                settled.3)
              before refl
              (ground (
                arith, part.open_interest, part.lender, part.expiry, part.debt, x.active, x.lent,
                settled.1.1,
              ))
      ]

  repay-lent :
      repay host env info s ≡ ok (r, s')
      → (terms : OpenInterest) × (lender : Addr) × (s.open_interest ≡ some (some terms))
        × (s.lender ≡ some (some lender))
  unfolding repay
  repay-lent h = bind-ok (require_owner s info) _ h λ owner _ h1.
      bind-ok (load s.outstanding_debt) _ h1 λ debt _ h2. bind-ok (refuse_debt debt) _ h2 λ _ _ h3.
        bind-ok (load s.open_interest) _ h3 λ stored is_stored h4.
          bind-ok (ok_or stored no_open_interest) _ h4 λ active is_active h5.
            bind-ok (load s.lender) _ h5 λ present is_present h6.
              bind-ok (ok_or present no_lender) _ h6
                λ paid is_paid h7. (active, paid, ground arith, ground arith)

  pub repay-Does :
      execute host env info ExecuteMsg.repay_open_interest s ≡ ok (r, s')
      → DoesIt ExecuteMsg.repay_open_interest
  unfolding execute
  repay-Does h =
      let (terms, lender, asked, lent) = repay-lent h in
      let pays = λ (d : String). repay-pays host env info s s' r d terms lender asked lent h in
      let one = pays "" in
      does host env info s s' r ExecuteMsg.repay_open_interest
        (Does.repays terms lender (time_of (flatten s.open_interest_expiry)) one.3
          (λ d. let other = pays d in ground (arith, other.6, other.7, one.6)))
        (ground (arith, one.1)) one.6 (ground (arith, one.8))
