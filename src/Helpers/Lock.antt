-- ===== src/Helpers/Lock.antt =====
-- The lock on a collateral, src/helpers.rs.
use wasm_vault.Prelude.{
  ℕ, ◌+◌, ◌-◌, ◌≤◌, ◌≡◌, ◌≢◌, String, Option, none, some, List, [], ◌∷◌, map, sum_of, filter_by,
  arith, eq_refl, str_eq, if◌then◌else◌,
}
use wasm_vault.Types.{OpenInterest, Env}
use wasm_vault.Errors.{ok, panic, bind-ok, bind-panic}
use wasm_vault.Uint.{checked_add, checked_add-ne-panic}
use wasm_vault.Host.{Host, Delegation, DecCoin, answer, try, try-ne-panic}
use wasm_vault.Helpers.{
  checked_sum, query_staking_rewards, query_staked_balance, uncovered_collateral,
  minimum_collateral_lock_for_denom,
}

abbrev total : List ℕ → ℕ
total = sum_of (λ (n : ℕ). n)

checked_sum-eq_ok : (acc n : ℕ) (xs : List ℕ) → checked_sum acc xs ≡ ok n → n ≡ acc + total xs
unfolding checked_sum checked_add
checked_sum-eq_ok acc n [] h = ground arith
checked_sum-eq_ok acc n (x ∷ xs) h = ground (arith, checked_sum-eq_ok (acc + x) n xs)

checked_sum-ne-panic : (acc : ℕ) (xs : List ℕ) → checked_sum acc xs ≢ panic
unfolding checked_sum checked_add
checked_sum-ne-panic acc [] h = ground arith
checked_sum-ne-panic acc (x ∷ xs) h = ground (arith, checked_sum-ne-panic (acc + x) xs)

-- The rewards of every denom, each rounded down.
abbrev pub rewards_of : Host → List DecCoin → ℕ
rewards_of host = λ coins. total (map (λ (coin : DecCoin). host.to_uint_floor coin.amount) coins)

-- The stake in one denom.
abbrev pub staked_in : String → List Delegation → ℕ
staked_in denom delegations = total (
    map (λ (d : Delegation). d.amount.amount)
      (filter_by (λ (d : Delegation). str_eq d.amount.denom denom) delegations))

module _ (host : Host) (env : Env) where
  -- The lock never exceeds the collateral.
  pub minimum_collateral_lock-le :
      (denom : String) (terms : OpenInterest) (lock : ℕ)
      → minimum_collateral_lock_for_denom host env denom (some terms) ≡ ok lock
      → lock ≤ terms.collateral.amount
  unfolding minimum_collateral_lock_for_denom uncovered_collateral
  minimum_collateral_lock-le denom terms lock h = ground arith

  query_staking_rewards-eq_ok :
      (rewards : List DecCoin) (r : ℕ)
      → host.query_delegation_total_rewards env.contract_address ≡ answer rewards
      → query_staking_rewards host env ≡ ok r
      → r ≡ rewards_of host rewards
  unfolding query_staking_rewards
  query_staking_rewards-eq_ok rewards r w h = ground (
    arith,
    checked_sum-eq_ok 0 r (map (λ (coin : DecCoin). host.to_uint_floor coin.amount) rewards),
  )

  query_staked_balance-eq_ok :
      (denom : String) (delegations : List Delegation) (r : ℕ)
      → host.query_all_delegations env.contract_address ≡ answer delegations
      → query_staked_balance host env denom ≡ ok r
      → r ≡ staked_in denom delegations
  unfolding query_staked_balance
  query_staked_balance-eq_ok denom delegations r w h = ground (
    arith,
    checked_sum-eq_ok 0 r (
        map (λ (d : Delegation). d.amount.amount)
          (filter_by (λ (d : Delegation). str_eq d.amount.denom denom) delegations)),
  )

  uncovered_collateral-eq_ok :
      (denom : String) (amount : ℕ) (rewards : List DecCoin) (delegations : List Delegation) (r : ℕ)
      → host.query_delegation_total_rewards env.contract_address ≡ answer rewards
      → host.query_all_delegations env.contract_address ≡ answer delegations
      → uncovered_collateral host env denom amount ≡ ok r
      → r ≡ amount - (rewards_of host rewards + staked_in denom delegations)
  unfolding uncovered_collateral checked_add
  uncovered_collateral-eq_ok denom amount rewards delegations r w d h =
      bind-ok (query_staking_rewards host env) _ h λ got got-eq h1.
        bind-ok (query_staked_balance host env denom) _ h1 λ staked staked-eq h2. ground (
          arith,
          query_staking_rewards-eq_ok rewards got w got-eq,
          query_staked_balance-eq_ok denom delegations staked d staked-eq,
        )

  -- The lock on an open interest, in the denom of its collateral. Outside the bonded denom it is the
  -- whole collateral. In the bonded denom it is what the rewards, of every denom, and the stake in
  -- the bonded denom leave uncovered, and nothing where they cover the collateral.
  pub minimum_collateral_lock-value :
      (terms : OpenInterest) (bonded : String) (rewards : List DecCoin)
      (delegations : List Delegation) (lock : ℕ)
      → host.query_bonded_denom ≡ answer bonded
      → host.query_delegation_total_rewards env.contract_address ≡ answer rewards
      → host.query_all_delegations env.contract_address ≡ answer delegations
      → minimum_collateral_lock_for_denom host env terms.collateral.denom (some terms) ≡ ok lock
      → lock ≡ (
          if str_eq terms.collateral.denom bonded
          then terms.collateral.amount
            - (rewards_of host rewards + staked_in terms.collateral.denom delegations)
          else terms.collateral.amount)
  unfolding minimum_collateral_lock_for_denom
  minimum_collateral_lock-value terms bonded rewards delegations lock b w d h = ground (
    arith,
    eq_refl terms.collateral.denom,
    uncovered_collateral-eq_ok terms.collateral.denom terms.collateral.amount rewards delegations
        lock w d,
  )

  pub query_staking_rewards-ne-panic : query_staking_rewards host env ≢ panic
  unfolding query_staking_rewards
  query_staking_rewards-ne-panic h =
      bind-panic (try (host.query_delegation_total_rewards env.contract_address)) _ h
        (try-ne-panic _) λ coins _ h1. checked_sum-ne-panic 0 _ h1

  query_staked_balance-ne-panic : (denom : String) → query_staked_balance host env denom ≢ panic
  unfolding query_staked_balance
  query_staked_balance-ne-panic denom h =
      bind-panic (try (host.query_all_delegations env.contract_address)) _ h (try-ne-panic _)
        λ delegations _ h1. checked_sum-ne-panic 0 _ h1

  uncovered_collateral-ne-panic :
      (denom : String) (amount : ℕ) → uncovered_collateral host env denom amount ≢ panic
  unfolding uncovered_collateral
  uncovered_collateral-ne-panic denom amount h =
      bind-panic (query_staking_rewards host env) _ h query_staking_rewards-ne-panic λ got _ h1.
        bind-panic (query_staked_balance host env denom) _ h1 (query_staked_balance-ne-panic denom)
          λ staked _ h2.
            bind-panic (checked_add got staked) _ h2 (checked_add-ne-panic got staked)
              λ coverage _ h3. ground arith

  pub minimum_collateral_lock-ne-panic :
      (denom : String) (terms : Option OpenInterest)
      → minimum_collateral_lock_for_denom host env denom terms ≢ panic
  unfolding minimum_collateral_lock_for_denom
  minimum_collateral_lock-ne-panic denom none h = ground arith
  minimum_collateral_lock-ne-panic denom (some terms) h = ground (
    arith,
    uncovered_collateral-ne-panic denom terms.collateral.amount,
    try-ne-panic host.query_bonded_denom,
  )
