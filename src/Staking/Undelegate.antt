-- ===== src/Staking/Undelegate.antt =====
-- src/contract/staking/undelegate.rs: the owner takes stake back from a validator.
use wasm_vault.Prelude.{ℕ, String, [], ◌∷◌, ◌==◌, ltb}
use wasm_vault.Types.{
  Coin, Env, MessageInfo, Response, respond, staking_undelegate, attr, text, num,
}
use wasm_vault.Errors.{
  Result, ok, invalid_undelegation_amount, delegation_not_found, insufficient_delegated_balance,
  ◌>>=◌, ◌>>◌, fail_if, ok_or,
}
use wasm_vault.Host.{Host, try}
use wasm_vault.Storage.{Storage}
use wasm_vault.Helpers.{require_owner}

module _ {M : Type 0} where
  unfoldable pub execute :
      Host → Env → MessageInfo → String → ℕ → Storage M → Result (Response × Storage M)
  execute host env info validator amount s = do
    require_owner s info
    fail_if (amount == 0) invalid_undelegation_amount
    validator_addr ← try (host.addr_validate validator)
    denom ← try host.query_bonded_denom
    found ← try (host.query_delegation env.contract_address validator_addr)
    delegation ← ok_or found (delegation_not_found validator_addr)
    fail_if (ltb delegation.amount.amount amount)
        (insufficient_delegated_balance validator_addr delegation.amount.amount amount)
    let coin : Coin = record { amount = amount; denom = denom }
    let attrs =
        attr "action" (text "undelegate")
        ∷ attr "validator" (text validator_addr)
        ∷ attr "denom" (text denom)
        ∷ attr "amount" (num amount)
        ∷ []
    ok (respond (staking_undelegate validator_addr coin ∷ []) attrs, s)
