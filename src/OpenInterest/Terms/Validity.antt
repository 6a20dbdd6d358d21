-- ===== src/OpenInterest/Terms/Validity.antt =====
-- When the terms of a request are accepted, `validate_open_interest` in
-- src/contract/open_interest/helpers.rs.
use wasm_vault.Prelude.{
  ℕ, ◌+◌, ◌^◌, ◌<◌, ◌≤◌, ◌≡◌, ◌≢◌, ◌↔◌, String, some, inl, inr, List, ◌==◌, arith, eq_iff, eq_refl,
}
use wasm_vault.BTreeMap.{get, insert}
use wasm_vault.Types.{Coin, OpenInterest, Env}
use wasm_vault.Errors.{
  ok, err, ContractError, invalid_expiry_duration, fail_if, Result-cases, bind-ok,
}
use wasm_vault.Uint.{checked_add, try_u128, fits}
use wasm_vault.Host.{Host, answer}
use wasm_vault.Helpers.{minimum_collateral_lock_for_denom}
use wasm_vault.OpenInterest.Terms.{
  validate_coin, validate_open_interest, build_repayment_amounts, repayment_requirements,
  accumulate_repayment_requirement, convert_requirements, RepaymentAmount,
}
use wasm_vault.OpenInterest.Terms.Collateral.{ensure_collateral_available_iff}
use wasm_vault.Bounds.Requests.{build_repayment_amounts-ne-panic}

-- A coin with an amount and a name.
pub record IsProper (coin : Coin) : Type 0 where
  pub positive : 0 < coin.amount
  pub named : coin.denom ≢ ""

-- What is repaid in each denom is a number of 128 bits.
abbrev pub IsRepayable : OpenInterest → Type 0
IsRepayable terms =
    (terms.liquidity_coin.amount < 2 ^ 128)
    × (terms.interest_coin.amount < 2 ^ 128)
    × (terms.interest_coin.denom ≡ terms.liquidity_coin.denom
        → terms.liquidity_coin.amount + terms.interest_coin.amount < 2 ^ 128)

module _ (terms : OpenInterest) where
  build_repayment_amounts-ne-err :
      (e : ContractError) → IsRepayable terms → build_repayment_amounts terms ≢ err e
  unfolding build_repayment_amounts repayment_requirements accumulate_repayment_requirement
      convert_requirements try_u128 fits checked_add get insert
  build_repayment_amounts-ne-err e h k = ground (
    arith,
    h.0,
    h.1,
    h.2,
    eq_iff terms.interest_coin.denom terms.liquidity_coin.denom,
    eq_refl terms.interest_coin.denom,
  )

  build_repayment_amounts_of_repayable :
      IsRepayable terms
      → (amounts : List RepaymentAmount) × (build_repayment_amounts terms ≡ ok amounts)
  build_repayment_amounts_of_repayable h =
      elim (Result-cases (build_repayment_amounts terms) (build_repayment_amounts-ne-panic terms)) [
        | inl found ↦ found
        | inr (e, refused) ↦ absurd (build_repayment_amounts-ne-err e h refused)
      ]

  build_repayment_amounts-IsRepayable :
      (amounts : List RepaymentAmount)
      → build_repayment_amounts terms ≡ ok amounts
      → IsRepayable terms
  unfolding build_repayment_amounts repayment_requirements accumulate_repayment_requirement
      convert_requirements try_u128 fits checked_add get insert
  build_repayment_amounts-IsRepayable amounts h =
      ground (arith, eq_iff terms.interest_coin.denom terms.liquidity_coin.denom)

module _ (coin : Coin) (field : String) where
  validate_coin-IsProper : validate_coin coin field ≡ ok tt → IsProper coin
  unfolding validate_coin
  validate_coin-IsProper h = record {
    positive = ground arith;
    named = λ e. ground (arith, (eq_iff coin.denom "").1 e);
  }

  validate_coin_of_proper : IsProper coin → validate_coin coin field ≡ ok tt
  unfolding validate_coin
  validate_coin_of_proper p = ground (arith, p.positive, p.named, eq_iff coin.denom "")

-- What terms must be, where the balance and the lock in the denom of the collateral are these.
pub record IsValid (terms : OpenInterest) (available lock : ℕ) : Type 0 where
  pub liquidity : IsProper terms.liquidity_coin
  pub interest : IsProper terms.interest_coin
  pub collateral : IsProper terms.collateral
  pub lasting : 0 < terms.expiry_duration
  pub repayable : IsRepayable terms
  pub covered : lock ≤ available

module _ (host : Host) (env : Env) (terms : OpenInterest) (balance : Coin) (lock : ℕ) where
  validate_open_interest-IsValid :
      host.query_balance env.contract_address terms.collateral.denom ≡ answer balance
      → minimum_collateral_lock_for_denom host env terms.collateral.denom (some terms) ≡ ok lock
      → validate_open_interest host env terms ≡ ok tt
      → IsValid terms balance.amount lock
  unfolding validate_open_interest
  validate_open_interest-IsValid b l h =
      bind-ok (validate_coin terms.liquidity_coin "liquidity_coin") _ h λ _ liquidity h1.
        bind-ok (validate_coin terms.interest_coin "interest_coin") _ h1 λ _ interest h2.
          bind-ok (validate_coin terms.collateral "collateral") _ h2 λ _ collateral h3.
            bind-ok (fail_if (terms.expiry_duration == 0) invalid_expiry_duration) _ h3
              λ _ lasting h4. bind-ok (build_repayment_amounts terms) _ h4 λ amounts built h5.
                record {
                  liquidity =
                      validate_coin-IsProper terms.liquidity_coin "liquidity_coin" liquidity;
                  interest = validate_coin-IsProper terms.interest_coin "interest_coin" interest;
                  collateral = validate_coin-IsProper terms.collateral "collateral" collateral;
                  lasting = ground arith;
                  repayable = build_repayment_amounts-IsRepayable terms amounts built;
                  covered = (ensure_collateral_available_iff host env terms balance lock b l).0 h5;
                }

  validate_open_interest_of_valid :
      host.query_balance env.contract_address terms.collateral.denom ≡ answer balance
      → minimum_collateral_lock_for_denom host env terms.collateral.denom (some terms) ≡ ok lock
      → IsValid terms balance.amount lock
      → validate_open_interest host env terms ≡ ok tt
  unfolding validate_open_interest
  validate_open_interest_of_valid b l v =
      let (amounts, built) = build_repayment_amounts_of_repayable terms v.repayable in
      ground (
        arith,
        v.lasting,
        validate_coin_of_proper terms.liquidity_coin "liquidity_coin" v.liquidity,
        validate_coin_of_proper terms.interest_coin "interest_coin" v.interest,
        validate_coin_of_proper terms.collateral "collateral" v.collateral,
        built,
        (ensure_collateral_available_iff host env terms balance lock b l).1 v.covered,
      )

  -- Where the chain answers, terms pass all checks exactly when they are valid.
  pub validate_open_interest_iff :
      host.query_balance env.contract_address terms.collateral.denom ≡ answer balance
      → minimum_collateral_lock_for_denom host env terms.collateral.denom (some terms) ≡ ok lock
      → (validate_open_interest host env terms ≡ ok tt) ↔ IsValid terms balance.amount lock
  validate_open_interest_iff b l =
      (validate_open_interest-IsValid b l, validate_open_interest_of_valid b l)
