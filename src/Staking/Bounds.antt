-- ===== src/Staking/Bounds.antt =====
-- What src/contract/staking/undelegate.rs and redelegate.rs may move.
use wasm_vault.Prelude.{
  ℕ, ◌<◌, ◌≤◌, ◌≡◌, ◌≢◌, String, Option, none, some, List, [], ◌∷◌, map, arith, eq_iff,
}
use wasm_vault.Types.{
  Addr, Env, MessageInfo, Response, staking_undelegate, staking_redelegate,
  withdraw_delegator_reward,
}
use wasm_vault.Errors.{ok, bind-ok}
use wasm_vault.Host.{Host, Delegation, answer}
use wasm_vault.Storage.{Storage}
use wasm_vault.Helpers.{require_owner}
use wasm_vault.Staking.Claim
use wasm_vault.Staking.Undelegate
use wasm_vault.Staking.Redelegate
use wasm_vault.Staking.Redelegate.{refuse_while_lent}

abbrev pub delegated : Option Delegation → ℕ
delegated none = 0
delegated (some d) = d.amount.amount

module _ {M : Type 0} (host : Host) (env : Env) (info : MessageInfo) (amount : ℕ) (s s' : Storage M)
    (r : Response) where
  -- An undelegation that succeeds is the owner's, of more than nothing and of no more than the vault
  -- has staked with the validator; it changes no state and sends that one undelegation.
  pub undelegate-IsBounded :
      (validator : String) (validator_addr : Addr) (denom : String) (found : Option Delegation)
      → host.addr_validate validator ≡ answer validator_addr
      → host.query_bonded_denom ≡ answer denom
      → host.query_delegation env.contract_address validator_addr ≡ answer found
      → Undelegate.execute host env info validator amount s ≡ ok (r, s')
      → (s.owner ≡ some info.sender)
        × (0 < amount)
        × (amount ≤ delegated found)
        × (s' ≡ s)
        × (r.messages
            ≡ staking_undelegate validator_addr (record { amount = amount; denom = denom }) ∷ [])
  unfolding Undelegate.execute require_owner
  undelegate-IsBounded validator validator_addr denom found v b f h =
      bind-ok (require_owner s info) _ h
        λ owner owner-eq h1. ground (arith, eq_iff info.sender owner)

  -- A redelegation that succeeds is the owner's, of more than nothing and of no more than the vault
  -- has staked with the source validator, to another validator. It changes no state and sends that
  -- one redelegation.
  pub redelegate-IsBounded :
      (src dst : String) (src_addr dst_addr : Addr) (denom : String) (found : Option Delegation)
      → host.addr_validate src ≡ answer src_addr
      → host.addr_validate dst ≡ answer dst_addr
      → host.query_bonded_denom ≡ answer denom
      → host.query_delegation env.contract_address src_addr ≡ answer found
      → Redelegate.execute host env info src dst amount s ≡ ok (r, s')
      → (s.owner ≡ some info.sender)
        × (0 < amount)
        × (amount ≤ delegated found)
        × (src_addr ≢ dst_addr)
        × (s' ≡ s)
        × (r.messages
            ≡ staking_redelegate src_addr dst_addr (record { amount = amount; denom = denom }) ∷ [])
  unfolding Redelegate.execute require_owner refuse_while_lent
  redelegate-IsBounded src dst src_addr dst_addr denom found v w b f h =
      bind-ok (require_owner s info) _ h λ owner owner-eq h1. (
        ground (arith, eq_iff info.sender owner),
        ground arith,
        ground arith,
        ground (arith, eq_iff src_addr dst_addr),
        ground arith,
        ground arith,
      )

module _ {M : Type 0} (host : Host) (env : Env) (info : MessageInfo) (s s' : Storage M)
    (r : Response) where
  -- A claim that succeeds is the owner's, with stake at some validator; it changes no state and asks
  -- each validator with which the vault has stake, in the order that the chain lists them, for the
  -- rewards.
  pub claim_each :
      (ds : List Delegation)
      → host.query_all_delegations env.contract_address ≡ answer ds
      → Claim.execute host env info s ≡ ok (r, s')
      → (s.owner ≡ some info.sender)
        × (ds ≢ [])
        × (s' ≡ s)
        × (r.messages ≡ map (λ (d : Delegation). withdraw_delegator_reward d.validator) ds)
  unfolding Claim.execute require_owner
  claim_each ds listed h =
      bind-ok (require_owner s info) _ h
        λ owner owner-eq h1. ground (arith, eq_iff info.sender owner)
