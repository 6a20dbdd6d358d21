-- ===== src/OpenInterest/Repay/Payment.antt =====
-- What a repayment pays and what it leaves, src/contract/open_interest/repay.rs.
use wasm_vault.Prelude.{
  ◌≤◌, ◌≡◌, String, none, some, List, [], ◌∷◌, All, arith, ltb, inl, inr, Bool-cases, ltb→le,
}
use wasm_vault.Types.{Addr, Coin, OpenInterest, Env, MessageInfo, Response, bank_send}
use wasm_vault.Errors.{ok, bind-ok, ok_or, no_open_interest, no_lender}
use wasm_vault.Host.{Host, answer, try}
use wasm_vault.Storage.{OfferMap, Storage, load}
use wasm_vault.Helpers.{require_owner}
use wasm_vault.Helpers.Owner.{require_owner-eq_ok}
use wasm_vault.OpenInterest.Terms.{RepaymentAmount, build_repayment_amounts}
use wasm_vault.OpenInterest.Terms.Repayment.{repaid_in, owed_coins, build_repayment_amounts-IsExact}
use wasm_vault.OpenInterest.Repay.{refuse_debt, collect_repayment, repay}
use wasm_vault.OpenInterest.Liquidate.Settlement.{IsClosed}
use wasm_vault.Escrow.Counting.{amount_in}

-- The vault's balance covers each amount.
abbrev pub IsCovered : Host → Addr → List RepaymentAmount → Type 0
IsCovered host addr = All (λ (a : RepaymentAmount).
    (balance : Coin) × (host.query_balance addr a.denom ≡ answer balance)
    × (a.requested_amount ≤ balance.amount))

module _ (host : Host) (addr : Addr) where
  collect_repayment-coins :
      (d : String) (amounts : List RepaymentAmount) (coins : List Coin)
      → collect_repayment host addr amounts ≡ ok coins
      → (amount_in d coins ≡ repaid_in d amounts) × IsCovered host addr amounts
  unfolding collect_repayment
  collect_repayment-coins d [] coins h = ground arith
  collect_repayment-coins d (a ∷ amounts) coins h =
      bind-ok (try (host.query_balance addr a.denom)) _ h λ balance known h1.
        elim (Bool-cases (ltb balance.amount a.requested_amount)) [
          | inl short ↦ absurd (ground arith)
          | inr enough ↦
              bind-ok (collect_repayment host addr amounts) _ (rw enough at h1) λ rest collected h2.
                let ih = collect_repayment-coins d amounts rest collected in
                (ground (arith, ih.0), ((balance, ground arith, ltb→le _ _ enough), ih.1))
        ]

module _ {M : Type 0} ⦃offer_map : OfferMap M⦄ (host : Host) (env : Env) (info : MessageInfo)
    (s s' : Storage M) (r : Response) where
  -- A repayment succeeds only for the owner of a loan without an outstanding debt. It sends the lender
  -- one message, with exactly the liquidity and the interest, whatever denom they are counted in, and
  -- closes the loan.
  pub repay-pays :
      (d : String) (terms : OpenInterest) (lender : Addr)
      → s.open_interest ≡ some (some terms)
      → s.lender ≡ some (some lender)
      → repay host env info s ≡ ok (r, s')
      → (s.owner ≡ some info.sender)
        × (s.outstanding_debt ≡ some none)
        × (amounts : List RepaymentAmount) × (coins : List Coin) × (build_repayment_amounts terms
            ≡ ok amounts)
        × IsCovered host env.contract_address amounts
        × (r.messages ≡ bank_send lender coins ∷ [])
        × (amount_in d coins ≡ amount_in d (owed_coins terms))
        × IsClosed s'
  unfolding repay
  repay-pays d terms lender requested lent h =
      bind-ok (require_owner s info) _ h λ owner authorised h1.
        bind-ok (load s.outstanding_debt) _ h1 λ debt is_debt h2.
          bind-ok (refuse_debt debt) _ h2 λ _ no_debt h3.
            bind-ok (load s.open_interest) _ h3 λ stored is_stored h4.
              bind-ok (ok_or stored no_open_interest) _ h4 λ active is_active h5.
                bind-ok (load s.lender) _ h5 λ present is_present h6.
                  bind-ok (ok_or present no_lender) _ h6 λ paid is_paid h7.
                    bind-ok (build_repayment_amounts active) _ h7 λ amounts built h8.
                      bind-ok (collect_repayment host env.contract_address amounts) _ h8
                        λ coins collected h9.
                          let same : active ≡ terms = ground arith in
                          let payee : paid ≡ lender = ground arith in
                          let exact = build_repayment_amounts-IsExact d active amounts built in
                          let c =
                            collect_repayment-coins host env.contract_address d amounts coins
                              collected in
                          (
                            (require_owner-eq_ok s info owner authorised).0,
                            ground arith,
                            amounts,
                            coins,
                            ground arith,
                            c.1,
                            ground arith,
                            ground (arith, exact.0, c.0, same),
                            ground arith,
                          )
