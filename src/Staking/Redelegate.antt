-- ===== src/Staking/Redelegate.antt =====
-- src/contract/staking/redelegate.rs: the owner moves stake between two validators.
use wasm_vault.Prelude.{
  ℕ, String, not, Option, none, some, [], ◌∷◌, str_eq, ◌==◌, ltb, if◌then◌else◌, is_some, flatten,
}
use wasm_vault.Types.{
  Coin, Env, MessageInfo, Response, respond, staking_redelegate, attr, text, num,
}
use wasm_vault.Errors.{
  Result, ok, invalid_redelegation_amount, redelegate_to_same_validator, outstanding_debt,
  delegation_not_found, insufficient_delegated_balance, validator_not_found, ◌>>=◌, ◌>>◌, fail_if,
  ok_or,
}
use wasm_vault.Host.{Host, try}
use wasm_vault.Storage.{Storage, load}
use wasm_vault.Helpers.{require_owner}

-- `match OUTSTANDING_DEBT.load(..)? { Some(debt) if debt.denom == denom => .., _ => {} }`
abbrev pub refuse_debt_in : String → Option Coin → Result (Unit {0})
refuse_debt_in denom none = ok tt
refuse_debt_in denom (some debt) = fail_if (str_eq debt.denom denom) (outstanding_debt debt)

module _ {M : Type 0} where
  unfoldable pub refuse_while_lent : Storage M → String → Result (Unit {0})
  refuse_while_lent s denom =
      if is_some (flatten s.lender)
      then (do debt ← load s.outstanding_debt; refuse_debt_in denom debt)
      else ok tt

  unfoldable pub execute :
      Host → Env → MessageInfo → String → String → ℕ → Storage M → Result (Response × Storage M)
  unfolding refuse_while_lent
  execute host env info src_validator dst_validator amount s = do
    require_owner s info
    fail_if (amount == 0) invalid_redelegation_amount
    src_addr ← try (host.addr_validate src_validator)
    dst_addr ← try (host.addr_validate dst_validator)
    fail_if (str_eq src_addr dst_addr) redelegate_to_same_validator
    denom ← try host.query_bonded_denom
    refuse_while_lent s denom
    found ← try (host.query_delegation env.contract_address src_addr)
    delegation ← ok_or found (delegation_not_found src_addr)
    fail_if (ltb delegation.amount.amount amount)
        (insufficient_delegated_balance src_addr delegation.amount.amount amount)
    known ← try (host.query_validator dst_addr)
    fail_if (not (is_some known)) (validator_not_found dst_addr)
    let coin : Coin = record { amount = amount; denom = denom }
    let attrs =
        attr "action" (text "redelegate")
        ∷ attr "src_validator" (text src_addr)
        ∷ attr "dst_validator" (text dst_addr)
        ∷ attr "denom" (text denom)
        ∷ attr "amount" (num amount)
        ∷ []
    ok (respond (staking_redelegate src_addr dst_addr coin ∷ []) attrs, s)
