-- ===== src/OpenInterest/Liquidate/Settlement.antt =====
-- The outcomes of a liquidation, src/contract/open_interest/liquidate.rs.
use wasm_vault.Prelude.{
  ℕ, ◌+◌, ◌-◌, ◌<◌, ◌≤◌, ◌≡◌, ◌⊎◌, inl, inr, none, some, ◌++◌, min, flatten, arith, ◌==◌, eq_refl,
  Bool-cases,
}
use wasm_vault.Types.{OpenInterest, Env, MessageInfo, Response}
use wasm_vault.Errors.{ok}
use wasm_vault.Host.{Host, answer}
use wasm_vault.Storage.{Storage}
use wasm_vault.OpenInterest.Liquidation.{payout_message, finalize_state}
use wasm_vault.OpenInterest.Liquidate.{liquidate, payout_messages}
use wasm_vault.OpenInterest.Liquidate.Steps.{
  IsSettled, liquidate-IsSettled, load_liquidation_state-IsExpired,
}
use wasm_vault.OpenInterest.Liquidate.Accounts.{
  sum_of-append, collect_funds-sent, undelegate_if_allowed-sent,
}
use wasm_vault.Escrow.Counting.{sent, sent_in}
use wasm_vault.Invariant.Liquidations.{
  owed_or_collateral, get_outstanding_amount-value, undelegate_if_allowed-middle,
}

-- No loan, no lender, no debt and no time of an unbonding.
pub record IsClosed {M : Type 0} (s : Storage M) : Type 0 where
  pub open_interest : s.open_interest ≡ some none
  pub lender : s.lender ≡ some none
  pub expiry : s.open_interest_expiry ≡ some none
  pub debt : s.outstanding_debt ≡ some none
  pub unbonding : s.last_liquidation_unbonding ≡ some none

-- The loan goes on, and the debt is what has not been paid.
pub record IsPartlyPaid {M : Type 0} (terms : OpenInterest) (left : ℕ) (s s' : Storage M)
    : Type 0 where
  pub left_pos : 0 < left
  pub debt :
      s'.outstanding_debt ≡ some (some (record { amount = left; denom = terms.collateral.denom }))
  pub open_interest : s'.open_interest ≡ s.open_interest
  pub lender : s'.lender ≡ s.lender
  pub expiry : s'.open_interest_expiry ≡ s.open_interest_expiry

module _ {M : Type 0} (host : Host) (env : Env) (info : MessageInfo) (s s' : Storage M)
    (r : Response) where
  settled-sent :
      (t : IsSettled host env info s r s')
      → sent_in t.state.collateral_denom r.messages ≡ min t.funds.available t.remaining
  unfolding payout_message
  settled-sent t =
      let denom = t.state.collateral_denom in
      let paid = min t.funds.available t.remaining in
      let claims = t.funds.reward_claim_messages in
      let payout = payout_messages t.state paid in
      ground (
        arith,
        t.sent,
        sum_of-append (sent denom) (claims ++ payout) t.undelegate_msgs,
        sum_of-append (sent denom) claims payout,
        collect_funds-sent denom host env t.state t.remaining t.funds t.collected,
        undelegate_if_allowed-sent denom host env t.state (t.remaining - paid) t.undelegated_amount
            s t.middle t.undelegate_msgs t.undelegated,
        eq_refl denom,
      )

  -- Of a liquidation that succeeds: the caller is the owner or the lender, the expiry has passed, and
  -- the coins sent in the denom of the collateral, with what is left, are what was owed (the recorded
  -- debt, or the whole collateral). Either nothing is left and the loan is closed, or the loan goes on
  -- with what is left as its debt, which happens only where the collateral is in the bonded denom.
  pub liquidate-settles :
      (terms : OpenInterest)
      → s.open_interest ≡ some (some terms)
      → liquidate host env info s ≡ ok (r, s')
      → ((s.owner ≡ some info.sender) ⊎ (flatten s.lender ≡ some info.sender))
        × ((e : ℕ) × (s.open_interest_expiry ≡ some (some e)) × (e ≤ env.time))
        × (left : ℕ) × (sent_in terms.collateral.denom r.messages + left
            ≡ owed_or_collateral (flatten s.outstanding_debt) terms)
        × (((left ≡ 0) × IsClosed s')
            ⊎ (IsPartlyPaid terms left s s'
                × (host.query_bonded_denom ≡ answer terms.collateral.denom)))
  unfolding finalize_state
  liquidate-settles terms active h =
      let t = liquidate-IsSettled host env info s r s' h in
      let e = load_liquidation_state-IsExpired host env info s t.state t.loaded in
      let left = t.remaining - min t.funds.available t.remaining in
      let same : t.state.open_interest ≡ terms = ground (arith, e.active) in
      let owed = get_outstanding_amount-value t.state s t.remaining t.owed in
      let middle =
        undelegate_if_allowed-middle host env t.state left s t.undelegate_msgs t.undelegated_amount
          t.middle t.undelegated in
      (
        e.caller,
        e.expiry,
        left,
        ground (arith, settled-sent t, owed, same, e.denom),
        elim (Bool-cases (left == 0)) [
          | inl nothing ↦ inl (ground arith, ground (arith, t.stored, nothing))
          | inr more ↦ inr (
            ground (arith, t.stored, middle, more, e.denom, same),
            ground (arith, t.covered, e.bonded, e.denom, same),
          )
        ],
      )
