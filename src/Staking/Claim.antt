-- ===== src/Staking/Claim.antt =====
-- src/contract/staking/claim.rs: the owner claims the rewards of every delegation.
use wasm_vault.Prelude.{[], ◌∷◌, map, is_empty, length}
use wasm_vault.Types.{
  Env, MessageInfo, Response, respond, withdraw_delegator_reward, attr, text, num,
}
use wasm_vault.Errors.{Result, ok, no_delegations, ◌>>=◌, ◌>>◌, fail_if}
use wasm_vault.Host.{Host, Delegation, try}
use wasm_vault.Storage.{Storage}
use wasm_vault.Helpers.{require_owner}

module _ {M : Type 0} where
  unfoldable pub execute : Host → Env → MessageInfo → Storage M → Result (Response × Storage M)
  execute host env info s = do
    require_owner s info
    delegations ← try (host.query_all_delegations env.contract_address)
    fail_if (is_empty delegations) no_delegations
    let attrs =
        attr "action" (text "claim_delegator_rewards")
        ∷ attr "validator_count" (num (length delegations))
        ∷ []
    ok (
      respond (map (λ (d : Delegation). withdraw_delegator_reward d.validator) delegations) attrs,
      s,
    )
