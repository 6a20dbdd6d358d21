-- ===== src/Withdraw.antt =====
-- src/contract/withdraw.rs: the owner takes out what no debt and no collateral holds.
pub mod Bounds
use wasm_vault.Prelude.{
  ℕ, ◌-◌, String, Option, none, some, [], ◌∷◌, str_eq, ◌==◌, ltb, if◌then◌else◌, max,
}
use wasm_vault.Types.{Addr, Coin, Env, MessageInfo, Response, respond, bank_send, attr, text, num}
use wasm_vault.Errors.{
  Result, ok, err, invalid_withdrawal_amount, insufficient_balance, ◌>>=◌, ◌>>◌, fail_if, expect,
}
use wasm_vault.Uint.{try_u128}
use wasm_vault.Host.{Host, try}
use wasm_vault.Storage.{Storage, load}
use wasm_vault.Helpers.{require_owner, minimum_collateral_lock_for_denom}

-- `Some(debt) if debt.denom == denom => debt.amount, _ => zero`
abbrev pub debt_requirement : Option Coin → String → ℕ
debt_requirement none denom = 0
debt_requirement (some debt) denom = if str_eq debt.denom denom then debt.amount else 0

abbrev pub recipient_or : Host → Option String → Addr → Result Addr
recipient_or host none owner = ok owner
recipient_or host (some addr) owner = try (host.addr_validate addr)

abbrev pub withdraw_response : String → ℕ → Addr → Response
withdraw_response denom amount recipient_addr =
    let coin : Coin = record { amount = amount; denom = denom } in
    respond (bank_send recipient_addr (coin ∷ []) ∷ []) (
      attr "action" (text "withdraw")
      ∷ attr "denom" (text denom)
      ∷ attr "amount" (num amount)
      ∷ attr "recipient" (text recipient_addr)
      ∷ [])

module _ {M : Type 0} where
  unfoldable pub available_to_withdraw : Host → Env → String → Storage M → Result ℕ
  available_to_withdraw host env denom s = do
    outstanding_debt ← load s.outstanding_debt
    open_interest ← load s.open_interest
    balance ← try (host.query_balance env.contract_address denom)
    collateral_lock ← minimum_collateral_lock_for_denom host env denom open_interest
    ok (balance.amount - max (debt_requirement outstanding_debt denom) collateral_lock)

  unfoldable pub execute :
      Host
      → Env
      → MessageInfo
      → String
      → ℕ
      → Option String
      → Storage M
      → Result (Response × Storage M)
  execute host env info denom amount recipient s = do
    owner ← require_owner s info
    fail_if (amount == 0) invalid_withdrawal_amount
    withdrawable ← available_to_withdraw host env denom s
    if ltb withdrawable amount
        then (do
          available ← expect (try_u128 withdrawable)
          requested ← expect (try_u128 amount)
          err (insufficient_balance denom available requested))
        else (do
          recipient_addr ← recipient_or host recipient owner
          ok (withdraw_response denom amount recipient_addr, s))
