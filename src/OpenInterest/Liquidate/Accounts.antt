-- ===== src/OpenInterest/Liquidate/Accounts.antt =====
-- What a liquidation pays and what it leaves, src/contract/open_interest/liquidate.rs.
use wasm_vault.Prelude.{
  ℕ, ◌+◌, ◌-◌, ◌≡◌, refl, inl, inr, String, List, [], ◌∷◌, ◌++◌, map, sum_of, min, arith, ◌==◌, ltb,
  ◌&&◌, str_eq, Bool-cases,
}
use wasm_vault.Types.{Env, CosmosMsg, withdraw_delegator_reward}
use wasm_vault.Errors.{ok, bind-ok, expect}
use wasm_vault.Uint.{try_u128, add_u256}
use wasm_vault.Host.{Host, Delegation, try}
use wasm_vault.Storage.{Storage}
use wasm_vault.OpenInterest.Liquidation.{
  LiquidationState, CollectedFunds, claim_rewards, collect_funds, undelegate_from,
  schedule_undelegations, liquidation_can_schedule_undelegations,
}
use wasm_vault.OpenInterest.Liquidation.Undelegations.{undelegated_in}
use wasm_vault.OpenInterest.Liquidate.{undelegate_if_allowed}
use wasm_vault.Escrow.Counting.{sent_in}

pub sum_of-append {ℓ} :
    {A : Type ℓ} (f : A → ℕ) (xs ys : List A) → sum_of f (xs ++ ys) ≡ sum_of f xs + sum_of f ys
sum_of-append f [] ys = omega arith
sum_of-append f (x ∷ xs) ys = omega (arith, sum_of-append f xs ys)

module _ (denom : String) where
  sent_in-claims :
      (ds : List Delegation)
      → (sent_in denom (map (λ (d : Delegation). withdraw_delegator_reward d.validator) ds) ≡ 0)
        × (undelegated_in (map (λ (d : Delegation). withdraw_delegator_reward d.validator) ds) ≡ 0)
  sent_in-claims [] = (refl, refl)
  sent_in-claims (d ∷ ds) = omega (arith, sent_in-claims ds)

  claim_rewards-sent :
      (host : Host) (env : Env) (state : LiquidationState) (balance remaining total claimed : ℕ)
      (msgs : List CosmosMsg)
      → claim_rewards host env state balance remaining ≡ ok (total, claimed, msgs)
      → (sent_in denom msgs ≡ 0) × (undelegated_in msgs ≡ 0)
  unfolding claim_rewards add_u256
  claim_rewards-sent host env state balance remaining total claimed msgs h =
      elim (Bool-cases
        (str_eq state.collateral_denom state.bonded_denom && ltb balance remaining)) [
          | inl short ↦
              bind-ok (try (host.query_all_delegations state.contract_addr)) _ (rw short at h)
                λ ds listed h1. ground (arith, sent_in-claims ds)
          | inr enough ↦ ground arith
        ]

  pub collect_funds-sent :
      (host : Host) (env : Env) (state : LiquidationState) (remaining : ℕ) (funds : CollectedFunds)
      → collect_funds host env state remaining ≡ ok funds
      → (sent_in denom funds.reward_claim_messages ≡ 0)
        × (undelegated_in funds.reward_claim_messages ≡ 0)
  unfolding collect_funds
  collect_funds-sent host env state remaining funds h =
      bind-ok (try (host.query_balance state.contract_addr state.collateral_denom)) _ h
        λ balance known h1.
          bind-ok (claim_rewards host env state balance.amount remaining) _ h1 λ c claimed h2.
            ground (
              arith,
              claim_rewards-sent host env state balance.amount remaining c.0 c.1 c.2 claimed,
            )

  undelegate_from-sent :
      (d : String) (ds : List Delegation) (remaining total n : ℕ) (msgs : List CosmosMsg)
      → undelegate_from d ds remaining total ≡ ok (msgs, n)
      → sent_in denom msgs ≡ 0
  unfolding undelegate_from
  undelegate_from-sent d [] remaining total n msgs h = ground arith
  undelegate_from-sent d (x ∷ ds) remaining total n msgs h = elim (Bool-cases (remaining == 0)) [
    | inl nothing ↦ ground arith
    | inr more ↦ elim (Bool-cases (x.amount.amount == 0)) [
      | inl empty ↦ undelegate_from-sent d ds remaining total n msgs (ground arith)
      | inr stake ↦
          let a = min x.amount.amount remaining in
          bind-ok (expect (try_u128 a)) _ (rw (more, stake) at h) λ coin_amount fit h1.
            bind-ok (add_u256 total a) _ h1 λ total' added h2.
              bind-ok (undelegate_from d ds (remaining - a) total') _ h2 λ rest found h3.
                ground (arith, undelegate_from-sent d ds (remaining - a) total' rest.1 rest.0 found)
    ]
  ]

  schedule_undelegations-sent :
      (host : Host) (state : LiquidationState) (left n : ℕ) (msgs : List CosmosMsg)
      → schedule_undelegations host state left ≡ ok (msgs, n)
      → sent_in denom msgs ≡ 0
  unfolding schedule_undelegations
  schedule_undelegations-sent host state left n msgs h = elim (Bool-cases (left == 0)) [
    | inl nothing ↦ ground arith
    | inr more ↦
        bind-ok (try (host.query_all_delegations state.contract_addr)) _ (rw more at h)
          λ ds listed h1.
            bind-ok (undelegate_from state.collateral_denom ds left 0) _ h1 λ drawn found h2.
              ground
                (arith, undelegate_from-sent state.collateral_denom ds left 0 drawn.1 drawn.0 found)
  ]

  pub undelegate_if_allowed-sent :
      {M : Type 0} (host : Host) (env : Env) (state : LiquidationState) (left n : ℕ)
      (s middle : Storage M) (msgs : List CosmosMsg)
      → undelegate_if_allowed host env state left s ≡ ok (msgs, n, middle)
      → sent_in denom msgs ≡ 0
  unfolding undelegate_if_allowed
  undelegate_if_allowed-sent host env state left n s middle msgs h =
      bind-ok (liquidation_can_schedule_undelegations host env s) _ h λ allowed is_allowed h1.
        elim (Bool-cases allowed) [
          | inl yes_allowed ↦
              bind-ok (schedule_undelegations host state left) _ (rw yes_allowed at h1)
                λ drawn found h2.
                  ground (arith, schedule_undelegations-sent host state left drawn.1 drawn.0 found)
          | inr refused ↦ ground arith
        ]
