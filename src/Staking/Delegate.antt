-- ===== src/Staking/Delegate.antt =====
-- src/contract/staking/delegate.rs: the owner stakes what no escrow holds.
pub mod Escrow
use wasm_vault.Prelude.{
  ℕ, ◌-◌, String, not, ◌&&◌, Option, none, some, [], ◌∷◌, str_eq, ◌==◌, ltb, if◌then◌else◌, is_some,
}
use wasm_vault.Types.{
  Coin, OpenInterest, Addr, Env, MessageInfo, Response, respond, staking_delegate, attr, text, num,
}
use wasm_vault.Errors.{
  Result, ok, err, invalid_delegation_amount, insufficient_balance, outstanding_debt,
  validator_not_found, ◌>>=◌, ◌>>◌, fail_if, ok_or, expect,
}
use wasm_vault.Uint.{try_u128}
use wasm_vault.Host.{Host, try}
use wasm_vault.Storage.{Storage, load}
use wasm_vault.Helpers.{require_owner}

module _ {M : Type 0} where
  abbrev reserve : Storage M → String → Option Coin → Result ℕ
  reserve s denom none = ok 0
  reserve s denom (some debt) =
      if str_eq debt.denom denom
      then (do
        open_interest ← load s.open_interest
        lender ← load s.lender
        if is_some open_interest && not (is_some lender)
            then ok debt.amount
            else err (outstanding_debt debt))
      else ok 0

  unfoldable pub reserved_debt_for_denom : Storage M → String → Result ℕ
  reserved_debt_for_denom s denom = do debt ← load s.outstanding_debt; reserve s denom debt

  unfoldable pub execute :
      Host → Env → MessageInfo → String → ℕ → Storage M → Result (Response × Storage M)
  execute host env info validator amount s = do
    require_owner s info
    fail_if (amount == 0) invalid_delegation_amount
    validator_addr ← try (host.addr_validate validator)
    denom ← try host.query_bonded_denom
    reserved_debt ← reserved_debt_for_denom s denom
    balance ← try (host.query_balance env.contract_address denom)
    let available_after_reserved = balance.amount - reserved_debt
    if ltb available_after_reserved amount
        then (do
          available ← expect (try_u128 available_after_reserved)
          requested ← expect (try_u128 amount)
          err (insufficient_balance denom available requested))
        else (do
          known ← try (host.query_validator validator_addr)
          fail_if (not (is_some known)) (validator_not_found validator_addr)
          let coin : Coin = record { amount = amount; denom = denom }
          let attrs =
              attr "action" (text "delegate")
              ∷ attr "validator" (text validator_addr)
              ∷ attr "denom" (text denom)
              ∷ attr "amount" (num amount)
              ∷ []
          ok (respond (staking_delegate validator_addr coin ∷ []) attrs, s))
