-- ===== src/OpenInterest/Liquidation/Throttle.antt =====
-- The delay between two rounds of undelegations, src/contract/open_interest/helpers.rs.
use wasm_vault.Prelude.{
  ℕ, ◌^◌, ◌<◌, ◌≤◌, ◌≡◌, ◌⊎◌, inl, inr, none, some, List, min, flatten, arith, ◌==◌, true,
  if◌then◌else◌,
}
use wasm_vault.Types.{CosmosMsg, Env}
use wasm_vault.Errors.{ok}
use wasm_vault.Host.{Host, Delegation, answer}
use wasm_vault.Storage.{Storage}
use wasm_vault.OpenInterest.Liquidation.{
  LiquidationState, liquidation_can_schedule_undelegations, record_liquidation_undelegation_time,
  duration_or_default,
}
use wasm_vault.OpenInterest.Liquidation.Undelegations.{
  Draws, stake_of, undelegated_in, schedule_undelegations-exact,
}
use wasm_vault.OpenInterest.Liquidate.{undelegate_if_allowed}

-- The time of this block is no sooner than the delay after `last`.
abbrev pub IsSpaced : Host → Env → ℕ → ℕ → Type 0
IsSpaced host env delay last =
    (next : ℕ) × (host.plus_seconds last delay ≡ ok next) × (next ≤ env.time)

module _ {M : Type 0} (host : Host) (env : Env) (state : LiquidationState) (s : Storage M) where
  -- No round was recorded, or no delay is set, or it has passed.
  abbrev pub MayUndelegate : Type 0
  MayUndelegate =
      (flatten s.last_liquidation_unbonding ≡ none)
      ⊎ ((duration_or_default s.liquidation_unbonding_duration ≡ 0)
          ⊎ ((last : ℕ) × (flatten s.last_liquidation_unbonding ≡ some last)
              × IsSpaced host env (duration_or_default s.liquidation_unbonding_duration) last))

  may-schedule : MayUndelegate → liquidation_can_schedule_undelegations host env s ≡ ok true
  unfolding liquidation_can_schedule_undelegations
  may-schedule (inl never) = ground arith
  may-schedule (inr (inl no_delay)) = ground arith
  may-schedule (inr (inr (last, l, (next, eq, le)))) = ground arith

  -- Where no round was recorded, or no delay is set, or it has passed since the last round, what is left
  -- is undelegated, as far as the stake reaches, and the time is recorded
  -- exactly when something was undelegated, so that a round of nothing starts no delay.
  pub undelegate_if_allowed-starts :
      (ds : List Delegation) (left : ℕ)
      → left < 2 ^ 128
      → host.query_all_delegations state.contract_addr ≡ answer ds
      → MayUndelegate
      → (msgs : List CosmosMsg) × (undelegated_in msgs ≡ min (stake_of ds) left)
        × Draws state.collateral_denom ds msgs
        × (undelegate_if_allowed host env state left s
            ≡ ok (
              msgs,
              min (stake_of ds) left,
              if min (stake_of ds) left == 0
                  then s
                  else record s { last_liquidation_unbonding = some (some env.time) },
            ))
  unfolding undelegate_if_allowed record_liquidation_undelegation_time
  undelegate_if_allowed-starts ds left fit listed may =
      let x = schedule_undelegations-exact host state ds left fit listed in
      (x.0, x.2, x.3, ground (arith, x.1, may-schedule may))
