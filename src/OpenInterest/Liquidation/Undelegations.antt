-- ===== src/OpenInterest/Liquidation/Undelegations.antt =====
-- The undelegations of a liquidation, src/contract/open_interest/helpers.rs.
use wasm_vault.Prelude.{
  ℕ, ◌+◌, ◌-◌, ◌^◌, ◌<◌, ◌≤◌, ◌≡◌, String, List, [], ◌∷◌, sum_of, min, arith, ◌==◌, inl, inr,
  Bool-cases,
}
use wasm_vault.Types.{CosmosMsg, staking_undelegate}
use wasm_vault.Errors.{ok}
use wasm_vault.Uint.{try_u128, add_u256, fits}
use wasm_vault.Host.{Host, Delegation, answer}
use wasm_vault.OpenInterest.Liquidation.{LiquidationState, undelegate_from, schedule_undelegations}

abbrev pub stake_of : List Delegation → ℕ
stake_of = sum_of (λ (d : Delegation). d.amount.amount)

abbrev pub undelegation : CosmosMsg → ℕ
undelegation (staking_undelegate validator amount) = amount.amount
undelegation _ = 0

-- What the messages undelegate in all.
abbrev pub undelegated_in : List CosmosMsg → ℕ
undelegated_in = sum_of undelegation

-- Undelegations in the order of the delegations, each of a part of its stake that is not empty.
pub data Draws (denom : String) : List Delegation → List CosmosMsg → Type 0 where
  done : (ds : List Delegation) → Draws denom ds []
  skip :
      (d : Delegation) {ds : List Delegation} {ms : List CosmosMsg}
      → Draws denom ds ms
      → Draws denom (d ∷ ds) ms
  draw :
      (d : Delegation) (a : ℕ) {ds : List Delegation} {ms : List CosmosMsg}
      → 0 < a
      → a ≤ d.amount.amount
      → Draws denom ds ms
      → Draws denom
          (d ∷ ds)
          (staking_undelegate d.validator (record { amount = a; denom = denom }) ∷ ms)

-- What the loop gives: messages that undelegate as much as there is to, and no more.
pub record IsUndelegated (denom : String) (ds : List Delegation) (remaining total : ℕ)
    : Type 0 where
  pub msgs : List CosmosMsg
  pub result :
      undelegate_from denom ds remaining total ≡ ok (msgs, total + min (stake_of ds) remaining)
  pub sum : undelegated_in msgs ≡ min (stake_of ds) remaining
  pub draws : Draws denom ds msgs

undelegate_from_lem :
    (denom : String) (ds : List Delegation) (remaining total : ℕ)
    → remaining + total < 2 ^ 128
    → IsUndelegated denom ds remaining total
unfolding undelegate_from try_u128 add_u256 fits
undelegate_from_lem denom [] remaining total h = record {
  msgs = [];
  result = ground arith;
  sum = omega arith;
  draws = done [];
}
undelegate_from_lem denom (d ∷ ds) remaining total h = elim (Bool-cases (remaining == 0)) [
  | inl nothing ↦ record {
    msgs = [];
    result = ground arith;
    sum = ground arith;
    draws = done (d ∷ ds);
  }
  | inr more ↦ elim (Bool-cases (d.amount.amount == 0)) [
    | inl empty ↦
        let r = undelegate_from_lem denom ds remaining total h in
        record {
          msgs = r.msgs;
          result = ground (arith, r.result);
          sum = ground (arith, r.sum);
          draws = skip d r.draws;
        }
    | inr stake ↦
        let a = min d.amount.amount remaining in
        let r = undelegate_from_lem denom ds (remaining - a) (total + a) (omega arith) in
        record {
          msgs = staking_undelegate d.validator (record { amount = a; denom = denom }) ∷ r.msgs;
          result = ground (arith, r.result);
          sum = ground (arith, r.sum);
          draws = draw d a (ground arith) (omega arith) r.draws;
        }
  ]
]

module _ (host : Host) (state : LiquidationState) (ds : List Delegation) (remaining : ℕ) where
  -- Where the chain lists the delegations `ds`, and what is left to cover fits a `Uint128` (as it
  -- does in a liquidation), the schedule neither panics nor fails: it undelegates the smaller of
  -- what is left and the whole stake, in the order of the delegations, from each a part of its stake
  -- that is not empty, all in the denom of the collateral.
  pub schedule_undelegations-exact :
      remaining < 2 ^ 128
      → host.query_all_delegations state.contract_addr ≡ answer ds
      → (msgs : List CosmosMsg) × (schedule_undelegations host state remaining
          ≡ ok (msgs, min (stake_of ds) remaining))
        × (undelegated_in msgs ≡ min (stake_of ds) remaining)
        × Draws state.collateral_denom ds msgs
  unfolding schedule_undelegations try_u128 fits
  schedule_undelegations-exact fit listed = elim (Bool-cases (remaining == 0)) [
    | inl nothing ↦ ([], ground arith, ground arith, done ds)
    | inr more ↦
        let r = undelegate_from_lem state.collateral_denom ds remaining 0 (omega arith) in
        (r.msgs, ground (arith, r.result), r.sum, r.draws)
  ]
