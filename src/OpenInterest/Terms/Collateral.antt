-- ===== src/OpenInterest/Terms/Collateral.antt =====
-- The check of the collateral, `ensure_collateral_available` in
-- src/contract/open_interest/helpers.rs.
use wasm_vault.Prelude.{ℕ, ◌+◌, ◌-◌, ◌^◌, ◌<◌, ◌≤◌, ◌≡◌, ◌↔◌, some, List, arith, eq_refl}
use wasm_vault.Types.{Coin, OpenInterest, Env}
use wasm_vault.Errors.{ok, err, panic, insufficient_balance}
use wasm_vault.Uint.{checked_add, fits, try_u128}
use wasm_vault.Host.{Host, Delegation, DecCoin, answer}
use wasm_vault.Helpers.{minimum_collateral_lock_for_denom}
use wasm_vault.Helpers.Lock.{
  minimum_collateral_lock-le, minimum_collateral_lock-value, rewards_of, staked_in,
}
use wasm_vault.OpenInterest.Terms.{
  ensure_collateral_available, query_available_balance, cover_by_stake, uint256_to_uint128,
}

module _ (host : Host) (env : Env) (terms : OpenInterest) (balance : Coin) (lock : ℕ) where
  -- Where the chain answers, the collateral is accepted exactly when the balance reaches the lock: the
  -- last of the three tests never accepts what the first two refuse.
  pub ensure_collateral_available_iff :
      host.query_balance env.contract_address terms.collateral.denom ≡ answer balance
      → minimum_collateral_lock_for_denom host env terms.collateral.denom (some terms) ≡ ok lock
      → (ensure_collateral_available host env terms ≡ ok tt) ↔ (lock ≤ balance.amount)
  unfolding ensure_collateral_available query_available_balance cover_by_stake checked_add
      uint256_to_uint128
  ensure_collateral_available_iff b l = (
    λ h. ground (arith, minimum_collateral_lock-le host env terms.collateral.denom terms lock l),
    λ h. ground (arith, minimum_collateral_lock-le host env terms.collateral.denom terms lock l),
  )

  -- A balance below the lock is refused with the error for it, where the collateral fits 128 bits.
  pub ensure_collateral_available-refuses :
      host.query_balance env.contract_address terms.collateral.denom ≡ answer balance
      → minimum_collateral_lock_for_denom host env terms.collateral.denom (some terms) ≡ ok lock
      → balance.amount < lock
      → terms.collateral.amount < 2 ^ 128
      → ensure_collateral_available host env terms
        ≡ err (
            insufficient_balance terms.collateral.denom
              (balance.amount + (terms.collateral.amount - lock))
              terms.collateral.amount)
  unfolding ensure_collateral_available query_available_balance cover_by_stake checked_add
      uint256_to_uint128 fits try_u128
  ensure_collateral_available-refuses b l lt c =
      ground (arith, minimum_collateral_lock-le host env terms.collateral.denom terms lock l)

  -- A balance below the lock makes the conversion of the error's amounts panic, where the collateral
  -- fits 256 bits and not 128.
  pub ensure_collateral_available-panics :
      host.query_balance env.contract_address terms.collateral.denom ≡ answer balance
      → minimum_collateral_lock_for_denom host env terms.collateral.denom (some terms) ≡ ok lock
      → balance.amount < lock
      → 2 ^ 128 ≤ terms.collateral.amount
      → terms.collateral.amount < 2 ^ 256
      → ensure_collateral_available host env terms ≡ panic
  unfolding ensure_collateral_available query_available_balance cover_by_stake checked_add
      uint256_to_uint128 fits try_u128
  ensure_collateral_available-panics b l lt big c =
      ground (arith, minimum_collateral_lock-le host env terms.collateral.denom terms lock l)

-- A collateral in the bonded denom is accepted exactly when the balance, the rewards and the stake in
-- that denom together reach it, where the chain answers and the sum stays within 256 bits.
pub ensure_collateral_available-bonded :
    (host : Host) (env : Env) (terms : OpenInterest) (balance : Coin) (lock : ℕ)
    (rewards : List DecCoin) (delegations : List Delegation)
    → host.query_bonded_denom ≡ answer terms.collateral.denom
    → host.query_balance env.contract_address terms.collateral.denom ≡ answer balance
    → host.query_delegation_total_rewards env.contract_address ≡ answer rewards
    → host.query_all_delegations env.contract_address ≡ answer delegations
    → minimum_collateral_lock_for_denom host env terms.collateral.denom (some terms) ≡ ok lock
    → (ensure_collateral_available host env terms ≡ ok tt) ↔ (
        terms.collateral.amount
        ≤ balance.amount + rewards_of host rewards + staked_in terms.collateral.denom delegations)
ensure_collateral_available-bonded host env terms balance lock rewards delegations bonded b w d l =
    let covered = ensure_collateral_available_iff host env terms balance lock b l in
    let value =
      minimum_collateral_lock-value host env terms terms.collateral.denom rewards delegations lock
        bonded w d l in
    (
      λ h. ground (arith, covered.0 h, value, eq_refl terms.collateral.denom),
      λ h. covered.1 (ground (arith, value, eq_refl terms.collateral.denom)),
    )
