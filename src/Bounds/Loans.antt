-- ===== src/Bounds/Loans.antt =====
-- Repayments and liquidations, within the bounds.
use wasm_vault.Prelude.{
  ℕ, ◌-◌, ◌<◌, ◌^◌, ◌≡◌, ◌≢◌, inl, inr, String, Option, none, some, List, [], ◌∷◌, flatten, arith,
  Option-cases, min, All,
}
use wasm_vault.BTreeMap.{BTreeMap}
use wasm_vault.Types.{Coin, Addr, OpenInterest, Env, MessageInfo}
use wasm_vault.Errors.{
  Result-cases, ok, panic, bind-panic, bind-ok, ok_or, ok_or-ne-panic, no_open_interest, no_lender,
  repayment_amount_overflow,
}
use wasm_vault.Uint.{try_u128, try_u128_of_lt, try_u128-eq_some, add_u256, fits}
use wasm_vault.Host.{Host, answer, try-ne-panic, Reply-cases}
use wasm_vault.Storage.{Storage, load}
use wasm_vault.Helpers.{require_owner, require_owner_or_lender, query_staking_rewards}
use wasm_vault.Helpers.Lock.{query_staking_rewards-ne-panic}
use wasm_vault.OpenInterest.Terms.{
  repayment_requirements, convert_requirements, build_repayment_amounts, RepaymentAmount,
}
use wasm_vault.OpenInterest.Repay.{repay, collect_repayment, refuse_debt}
use wasm_vault.OpenInterest.Liquidation.{
  LiquidationState, convert_amount, duration_or_default, load_liquidation_state,
  get_outstanding_amount, liquidation_can_schedule_undelegations, claim_rewards, collect_funds,
  schedule_undelegations,
}
use wasm_vault.OpenInterest.Liquidation.Undelegations.{schedule_undelegations-exact}
use wasm_vault.OpenInterest.Liquidate.{liquidate, undelegate_if_allowed}
use wasm_vault.Bounds.Assets.{require_owner-ne-panic, load-ne-panic}
use wasm_vault.Bounds.Requests.{build_repayment_amounts-ne-panic}

-- A repayment amount has passed the conversion to 128 bits.
abbrev Converted : RepaymentAmount → Type 0
Converted required = required.requested_amount < 2 ^ 128

convert_requirements-Converted :
    (m : BTreeMap ℕ) (amounts : List RepaymentAmount)
    → convert_requirements m ≡ ok amounts
    → All Converted amounts
unfolding convert_requirements
convert_requirements-Converted [] amounts h = ground arith
convert_requirements-Converted ((denom, amount) ∷ m) amounts h =
    bind-ok (ok_or (try_u128 amount) (repayment_amount_overflow denom amount)) _ h
      λ coin_amount fit h1. bind-ok (convert_requirements m) _ h1 λ rest converted h2.
        let small = try_u128-eq_some amount (passed coin_amount fit) in
        ground (arith, small, convert_requirements-Converted m rest converted)
  where
    passed :
        (k : ℕ)
        → ok_or (try_u128 amount) (repayment_amount_overflow denom amount) ≡ ok k
        → try_u128 amount ≡ some k
    passed k h = ground arith

build_repayment_amounts-Converted :
    (terms : OpenInterest) (amounts : List RepaymentAmount)
    → build_repayment_amounts terms ≡ ok amounts
    → All Converted amounts
unfolding build_repayment_amounts
build_repayment_amounts-Converted terms amounts h =
    bind-ok (repayment_requirements terms) _ h λ m _ h1. convert_requirements-Converted m amounts h1

refuse_debt-ne-panic : (debt : Option Coin) → refuse_debt debt ≢ panic
refuse_debt-ne-panic none h = ground arith
refuse_debt-ne-panic (some debt) h = ground arith

module _ (host : Host) (contract : Addr) where
  collect_repayment-ne-panic :
      (amounts : List RepaymentAmount)
      → All Converted amounts
      → collect_repayment host contract amounts ≢ panic
  unfolding collect_repayment
  collect_repayment-ne-panic [] all h = ground arith
  collect_repayment-ne-panic (required ∷ amounts) all h =
      elim (Reply-cases (host.query_balance contract required.denom)) [
        | inl (balance, told) ↦ ground (
          arith,
          collect_repayment-ne-panic amounts all.1,
          try_u128_of_lt balance.amount,
          try_u128_of_lt required.requested_amount,
        )
        | inr (x, failed) ↦ ground arith
      ]

module _ {M : Type 0} (host : Host) (env : Env) (info : MessageInfo) (s : Storage M) where
  pub repay-ne-panic : repay host env info s ≢ panic
  unfolding repay
  repay-ne-panic h =
      bind-panic (require_owner s info) _ h (require_owner-ne-panic host env info s) λ owner _ h1.
        bind-panic (load s.outstanding_debt) _ h1 (load-ne-panic s.outstanding_debt) λ debt _ h2.
          bind-panic (refuse_debt debt) _ h2 (refuse_debt-ne-panic debt) λ _ _ h3.
            bind-panic (load s.open_interest) _ h3 (load-ne-panic s.open_interest) λ stored _ h4.
              bind-panic (ok_or stored no_open_interest) _ h4 (ok_or-ne-panic stored _)
                λ terms _ h5.
                  bind-panic (load s.lender) _ h5 (load-ne-panic s.lender) λ present _ h6.
                    bind-panic (ok_or present no_lender) _ h6 (ok_or-ne-panic present _)
                      λ lender _ h7.
                        bind-panic (build_repayment_amounts terms) _ h7
                          (build_repayment_amounts-ne-panic terms)
                          λ amounts built h8.
                            bind-panic (collect_repayment host env.contract_address amounts) _ h8
                              (collect_repayment-ne-panic host env.contract_address amounts
                                (build_repayment_amounts-Converted terms amounts built))
                              λ coins _ h9. ground arith

module _ (host : Host) (env : Env) (state : LiquidationState) where
  claim_rewards-ne-panic :
      (balance remaining : ℕ)
      → balance < 2 ^ 128
      → ((total : ℕ) → query_staking_rewards host env ≡ ok total → total < 2 ^ 128)
      → claim_rewards host env state balance remaining ≢ panic
  unfolding claim_rewards add_u256 fits
  claim_rewards-ne-panic balance remaining small bounded h =
      elim (Reply-cases (host.query_all_delegations state.contract_addr)) [
        | inl (ds, listed) ↦
            elim (Result-cases (query_staking_rewards host env)
              (query_staking_rewards-ne-panic host env)) [
                | inl (claimable, counted) ↦ ground (arith, bounded claimable counted)
                | inr (x, failed) ↦ ground arith
              ]
        | inr (x, failed) ↦ ground arith
      ]

  collect_funds-ne-panic :
      (remaining : ℕ)
      → ((addr : Addr) (denom : String) (balance : Coin)
          → host.query_balance addr denom ≡ answer balance
          → balance.amount < 2 ^ 128)
      → ((total : ℕ) → query_staking_rewards host env ≡ ok total → total < 2 ^ 128)
      → collect_funds host env state remaining ≢ panic
  unfolding collect_funds convert_amount
  collect_funds-ne-panic remaining small bounded h =
      elim (Reply-cases (host.query_balance state.contract_addr state.collateral_denom)) [
        | inl (balance, told) ↦
            let fit = small state.contract_addr state.collateral_denom balance told in
            ground (arith, claim_rewards-ne-panic balance.amount remaining fit bounded)
        | inr (x, failed) ↦ ground arith
      ]

  schedule_undelegations-ne-panic :
      (left : ℕ) → left < 2 ^ 128 → schedule_undelegations host state left ≢ panic
  unfolding schedule_undelegations
  schedule_undelegations-ne-panic left fit h =
      elim (Reply-cases (host.query_all_delegations state.contract_addr)) [
        | inl (ds, listed) ↦
            let exact = schedule_undelegations-exact host state ds left fit listed in
            ground (arith, exact.1)
        | inr (x, failed) ↦ ground arith
      ]

module _ {M : Type 0} (host : Host) (env : Env) (info : MessageInfo) (s : Storage M) where
  undelegate_if_allowed-ne-panic :
      (state : LiquidationState) (left : ℕ)
      → left < 2 ^ 128
      → ((last_time : ℕ)
          → flatten s.last_liquidation_unbonding ≡ some last_time
          → host.plus_seconds last_time (duration_or_default s.liquidation_unbonding_duration)
            ≢ panic)
      → undelegate_if_allowed host env state left s ≢ panic
  unfolding undelegate_if_allowed liquidation_can_schedule_undelegations
  undelegate_if_allowed-ne-panic state left fit delay h =
      elim (Option-cases (flatten s.last_liquidation_unbonding)) [
        | inl never ↦ ground (arith, schedule_undelegations-ne-panic host env state left fit)
        | inr (last_time, found) ↦
            ground (
              arith,
              delay last_time found,
              schedule_undelegations-ne-panic host env state left fit,
            )
      ]

  require_caller-ne-panic : require_owner_or_lender s info ≢ panic
  unfolding require_owner_or_lender
  require_caller-ne-panic h = ground arith

  load_liquidation_state-ne-panic :
      ((lender : Addr) → flatten s.lender ≡ some lender → s.open_interest_expiry ≢ some none)
      → load_liquidation_state host env info s ≢ panic
  unfolding load_liquidation_state
  load_liquidation_state-ne-panic expires h = elim (Option-cases (flatten s.lender)) [
    | inl unlent ↦ ground (arith, require_caller-ne-panic)
    | inr (lender, lent) ↦
        ground (
          arith,
          require_caller-ne-panic,
          expires lender lent,
          try-ne-panic host.query_bonded_denom,
        )
  ]

  outstanding-ne-panic : (state : LiquidationState) → get_outstanding_amount state s ≢ panic
  unfolding get_outstanding_amount convert_amount
  outstanding-ne-panic state h = ground arith

  outstanding-fits :
      (state : LiquidationState) (n : ℕ) → get_outstanding_amount state s ≡ ok n → n < 2 ^ 128
  unfolding get_outstanding_amount convert_amount try_u128 fits
  outstanding-fits state n h = ground arith

  pub liquidate-ne-panic :
      ((lender : Addr) → flatten s.lender ≡ some lender → s.open_interest_expiry ≢ some none)
      → ((addr : Addr) (denom : String) (balance : Coin)
          → host.query_balance addr denom ≡ answer balance
          → balance.amount < 2 ^ 128)
      → ((total : ℕ) → query_staking_rewards host env ≡ ok total → total < 2 ^ 128)
      → ((last_time : ℕ)
          → flatten s.last_liquidation_unbonding ≡ some last_time
          → host.plus_seconds last_time (duration_or_default s.liquidation_unbonding_duration)
            ≢ panic)
      → liquidate host env info s ≢ panic
  unfolding liquidate
  liquidate-ne-panic expires small bounded delay h =
      bind-panic (load_liquidation_state host env info s) _ h
        (load_liquidation_state-ne-panic expires)
        λ state _ h1.
          bind-panic (get_outstanding_amount state s) _ h1 (outstanding-ne-panic state)
            λ remaining owed h2.
              bind-panic (collect_funds host env state remaining) _ h2
                (collect_funds-ne-panic host env state remaining small bounded)
                λ funds _ h3.
                  let left = remaining - min funds.available remaining in
                  let fit : left < 2 ^ 128 = omega (arith, outstanding-fits state remaining owed) in
                  ground (arith, undelegate_if_allowed-ne-panic state left fit delay)
