-- ===== src/OpenInterest/Liquidate/Rounds.antt =====
-- The liquidations that undelegate, src/contract/open_interest/liquidate.rs.
use wasm_vault.Prelude.{
  ℕ, ◌-◌, ◌^◌, ◌<◌, ◌≤◌, ◌≡◌, inl, inr, some, List, ◌++◌, min, flatten, arith, ◌==◌, true,
  Bool-cases,
}
use wasm_vault.Types.{CosmosMsg, Env, MessageInfo, Response}
use wasm_vault.Errors.{ok, bind-ok}
use wasm_vault.Uint.{try_u128, fits}
use wasm_vault.Host.{Host, try}
use wasm_vault.Storage.{Storage}
use wasm_vault.OpenInterest.Liquidation.{
  LiquidationState, get_outstanding_amount, schedule_undelegations, payout_message, finalize_state,
  liquidation_can_schedule_undelegations, record_liquidation_undelegation_time, duration_or_default,
  after_delay,
}
use wasm_vault.OpenInterest.Liquidation.Undelegations.{
  undelegation, undelegated_in, schedule_undelegations-exact,
}
use wasm_vault.OpenInterest.Liquidation.Throttle.{IsSpaced}
use wasm_vault.OpenInterest.Liquidate.{liquidate, undelegate_if_allowed, payout_messages}
use wasm_vault.OpenInterest.Liquidate.Steps.{liquidate-IsSettled}
use wasm_vault.OpenInterest.Liquidate.Accounts.{sum_of-append, collect_funds-sent}

module _ (host : Host) (state : LiquidationState) where
  -- The amount that a schedule reports is what it undelegates.
  schedule_undelegations-amount :
      (left n : ℕ) (msgs : List CosmosMsg)
      → left < 2 ^ 128
      → schedule_undelegations host state left ≡ ok (msgs, n)
      → (n ≡ undelegated_in msgs) × (n ≤ left)
  unfolding schedule_undelegations
  schedule_undelegations-amount left n msgs fit h = elim (Bool-cases (left == 0)) [
    | inl nothing ↦ ground arith
    | inr more ↦
        bind-ok (try (host.query_all_delegations state.contract_addr)) _ (rw more at h)
          λ ds listed _.
            let x = schedule_undelegations-exact host state ds left fit (ground (arith, listed)) in
            ground (arith, x.1, x.2, h)
  ]

module _ {M : Type 0} (host : Host) (env : Env) (s : Storage M) where
  -- Where an undelegation is allowed, the delay has passed since the last round.
  pub can_schedule-IsSpaced :
      liquidation_can_schedule_undelegations host env s ≡ ok true
      → (last : ℕ) → flatten s.last_liquidation_unbonding ≡ some last
      → 0 < duration_or_default s.liquidation_unbonding_duration
      → IsSpaced host env (duration_or_default s.liquidation_unbonding_duration) last
  unfolding liquidation_can_schedule_undelegations
  can_schedule-IsSpaced h last recorded pos =
      let duration = duration_or_default s.liquidation_unbonding_duration in
      let spaced : after_delay host env duration (some last) ≡ ok true = ground (arith, recorded) in
      bind-ok (host.plus_seconds last duration) _ spaced λ next eq passed. (next, eq, ground arith)

  -- A round that undelegates something: it was allowed, and it records its time.
  record IsRound (left : ℕ) (middle : Storage M) : Type 0 where
    allowed : liquidation_can_schedule_undelegations host env s ≡ ok true
    positive : 0 < left
    recorded : middle ≡ record s { last_liquidation_unbonding = some (some env.time) }

  undelegate_if_allowed-IsRound :
      (state : LiquidationState) (left n : ℕ) (msgs : List CosmosMsg) (middle : Storage M)
      → left < 2 ^ 128
      → undelegate_if_allowed host env state left s ≡ ok (msgs, n, middle)
      → 0 < undelegated_in msgs
      → IsRound left middle
  unfolding undelegate_if_allowed record_liquidation_undelegation_time
  undelegate_if_allowed-IsRound state left n msgs middle fit h some_drawn =
      bind-ok (liquidation_can_schedule_undelegations host env s) _ h λ allowed is_allowed h1.
        elim (Bool-cases allowed) [
          | inl yes_allowed ↦
              bind-ok (schedule_undelegations host state left) _ (rw yes_allowed at h1)
                λ drawn found h2.
                  let sum =
                    schedule_undelegations-amount host state left drawn.1 drawn.0 fit found in
                  record {
                    allowed = ground (arith, is_allowed, yes_allowed);
                    positive = ground (arith, sum);
                    recorded = ground (arith, sum);
                  }
          | inr refused ↦ absurd (ground arith)
        ]

  get_outstanding_amount-fits :
      (state : LiquidationState) (remaining : ℕ)
      → get_outstanding_amount state s ≡ ok remaining
      → remaining < 2 ^ 128
  unfolding get_outstanding_amount try_u128 fits
  get_outstanding_amount-fits state remaining h = ground arith

  -- A liquidation that undelegates something was allowed to, records its own time and leaves the delay.
  pub liquidate-round :
      (info : MessageInfo) (s' : Storage M) (r : Response)
      → liquidate host env info s ≡ ok (r, s')
      → 0 < undelegated_in r.messages
      → (liquidation_can_schedule_undelegations host env s ≡ ok true)
        × (s'.last_liquidation_unbonding ≡ some (some env.time))
        × (s'.liquidation_unbonding_duration ≡ s.liquidation_unbonding_duration)
  unfolding finalize_state payout_message
  liquidate-round info s' r h drawn =
      let t = liquidate-IsSettled host env info s r s' h in
      let paid = min t.funds.available t.remaining in
      let left = t.remaining - paid in
      let claims = t.funds.reward_claim_messages in
      let payout = payout_messages t.state paid in
      let fit = get_outstanding_amount-fits t.state t.remaining t.owed in
      let all_drawn : 0 < undelegated_in t.undelegate_msgs = ground (
        arith,
        drawn,
        t.sent,
        sum_of-append undelegation (claims ++ payout) t.undelegate_msgs,
        sum_of-append undelegation claims payout,
        collect_funds-sent t.state.collateral_denom host env t.state t.remaining t.funds
            t.collected,
      ) in
      let round =
        undelegate_if_allowed-IsRound t.state left t.undelegated_amount t.undelegate_msgs t.middle
          (omega (arith, fit)) t.undelegated all_drawn in
      (
        round.allowed,
        ground (arith, t.stored, round.positive, round.recorded),
        ground (arith, t.stored, round.positive, round.recorded),
      )
