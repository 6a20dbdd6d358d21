-- ===== src/OpenInterest/Repay.antt =====
-- src/contract/open_interest/repay.rs: the owner pays the lender back.
pub mod Payment
pub mod Success
use wasm_vault.Prelude.{ℕ, String, Option, none, some, List, [], ◌∷◌, ◌++◌, ltb, if◌then◌else◌}
use wasm_vault.Types.{
  Addr, Coin, OpenInterest, Env, MessageInfo, Response, respond, bank_send, attr, text,
}
use wasm_vault.Errors.{
  Result, ok, err, insufficient_balance, outstanding_debt, no_open_interest, no_lender, ◌>>=◌, ◌>>◌,
  ok_or, expect,
}
use wasm_vault.Uint.{try_u128}
use wasm_vault.Host.{Host, try}
use wasm_vault.Storage.{Storage, load}
use wasm_vault.Helpers.{require_owner}
use wasm_vault.OpenInterest.Terms.{
  RepaymentAmount, build_repayment_amounts, open_interest_attributes,
}
use wasm_vault.OpenInterest.Lending.{clear_active_lender}

abbrev pub refuse_debt : Option Coin → Result (Unit {0})
refuse_debt none = ok tt
refuse_debt (some debt) = err (outstanding_debt debt)

-- The loop over the repayment amounts.
unfoldable pub collect_repayment : Host → Addr → List RepaymentAmount → Result (List Coin)
collect_repayment host contract_addr [] = ok []
collect_repayment host contract_addr (required ∷ rest) = do
  balance ← try (host.query_balance contract_addr required.denom)
  let available_amount = balance.amount
  if ltb available_amount required.requested_amount
      then (do
        available ← expect (try_u128 available_amount)
        requested ← expect (try_u128 required.requested_amount)
        err (insufficient_balance required.denom available requested))
      else (do
        coins ← collect_repayment host contract_addr rest
        ok (record { amount = required.coin_amount; denom = required.denom } ∷ coins))

abbrev pub repay_response : Addr → OpenInterest → List Coin → Response
repay_response lender open_interest repayment_coins =
    respond (bank_send lender repayment_coins ∷ []) (
      open_interest_attributes "repay_open_interest" open_interest
      ++ attr "lender" (text lender) ∷ [])

module _ {M : Type 0} where
  unfoldable pub repay : Host → Env → MessageInfo → Storage M → Result (Response × Storage M)
  unfolding clear_active_lender
  repay host env info s = do
    require_owner s info
    debt ← load s.outstanding_debt
    refuse_debt debt
    stored ← load s.open_interest
    open_interest ← ok_or stored no_open_interest
    present ← load s.lender
    lender ← ok_or present no_lender
    repayment_amounts ← build_repayment_amounts open_interest
    repayment_coins ← collect_repayment host env.contract_address repayment_amounts
    let s' = clear_active_lender (record s { open_interest = some none })
    ok (repay_response lender open_interest repayment_coins, s')
