-- ===== src/Errors.antt =====
-- src/error.rs: what an entry point returns. A Rust panic aborts the transaction and is a result of
-- its own; `StdError` is cosmwasm_std's, kept to the kinds that the contract can meet.
use wasm_vault.Prelude.{
  ℕ, ◌⊎◌, inl, inr, ◌≡◌, ◌≢◌, refl, String, Bool, true, false, Option, none, some, arith,
}
use wasm_vault.Types.{Coin}

pub data StdError : Type 0 where
  not_found : StdError
  overflow : StdError
  msg : String → StdError
  host_error : String → StdError

pub data ContractError : Type 0 where
  std : StdError → ContractError
  unauthorized : ContractError
  ownership_unchanged : ContractError
  invalid_delegation_amount : ContractError
  insufficient_balance : (denom : String) (available requested : ℕ) → ContractError
  outstanding_debt : (amount : Coin) → ContractError
  validator_not_found : (validator : String) → ContractError
  invalid_undelegation_amount : ContractError
  invalid_redelegation_amount : ContractError
  invalid_withdrawal_amount : ContractError
  redelegate_to_same_validator : ContractError
  delegation_not_found : (validator : String) → ContractError
  insufficient_delegated_balance : (validator : String) (delegated requested : ℕ) → ContractError
  no_delegations : ContractError
  open_interest_already_exists : ContractError
  no_open_interest : ContractError
  no_lender : ContractError
  open_interest_not_expired : ContractError
  lender_already_set : ContractError
  invalid_coin_amount : (field : String) → ContractError
  invalid_coin_denom : (field : String) → ContractError
  invalid_expiry_duration : ContractError
  liquidation_unbonding_duration_too_long : (max : ℕ) → ContractError
  counter_offer_terms_mismatch : ContractError
  counter_offer_not_smaller : ContractError
  counter_offer_escrow_mismatch : (denom : String) (expected received : ℕ) → ContractError
  open_interest_funding_mismatch : (denom : String) (expected received : ℕ) → ContractError
  open_interest_mismatch : ContractError
  repayment_amount_overflow : (denom : String) (requested : ℕ) → ContractError
  liquidation_amount_overflow : (denom : String) (requested : ℕ) → ContractError
  undelegation_amount_overflow : (denom : String) (requested : ℕ) → ContractError
  counter_offer_already_exists : ContractError
  counter_offer_not_competitive : (minimum : ℕ) (denom : String) → ContractError
  counter_offer_not_found : (proposer : String) → ContractError
  counter_offer_mismatch : (proposer : String) → ContractError

pub data Result {ℓ} (A : Type ℓ) : Type ℓ where
  ok : A → Result A
  err : ContractError → Result A
  panic : Result A

infixl 5 ◌>>=◌ ◌>>◌
abbrev pub ◌>>=◌ {ℓ κ} : {A : Type ℓ} {B : Type κ} → Result A → (A → Result B) → Result B
ok a >>= f = f a
err e >>= f = err e
panic >>= f = panic

abbrev pub ◌>>◌ {ℓ κ} : {A : Type ℓ} {B : Type κ} → Result A → Result B → Result B
m >> k = m >>= λ _. k

-- `if b { return Err(e) }`
abbrev pub fail_if : Bool → ContractError → Result (Unit {0})
fail_if true e = err e
fail_if false e = ok tt

module _ {ℓ} {A : Type ℓ} where
  abbrev pub ok_or : Option A → ContractError → Result A
  ok_or none e = err e
  ok_or (some a) e = ok a

  abbrev pub expect : Option A → Result A
  expect none = panic
  expect (some a) = ok a

-- Inversion of a block that succeeds, one step at a time: what is proved may use what the step gave.
module _ {ℓ κ μ} {A : Type ℓ} {B : Type κ} {C : Type μ} where
  pub bind-ok :
      (m : Result A) (f : A → Result B) {b : B}
      → (m >>= f) ≡ ok b
      → ((a : A) → m ≡ ok a → f a ≡ ok b → C)
      → C
  bind-ok (ok a) f h k = k a refl h
  bind-ok (err e) f h k = absurd (ground arith)
  bind-ok panic f h k = absurd (ground arith)

-- A block panics only where one of its steps does.
module _ {ℓ κ μ} {A : Type ℓ} {B : Type κ} {C : Type μ} where
  pub bind-panic :
      (m : Result A) (f : A → Result B)
      → (m >>= f) ≡ panic
      → m ≢ panic
      → ((a : A) → m ≡ ok a → f a ≡ panic → C)
      → C
  bind-panic (ok a) f h m-ne k = k a refl h
  bind-panic (err e) f h m-ne k = absurd (ground arith)
  bind-panic panic f h m-ne k = absurd (m-ne refl)

pub fail_if-ne-panic : (b : Bool) (e : ContractError) → fail_if b e ≢ panic
fail_if-ne-panic true e h = ground arith
fail_if-ne-panic false e h = ground arith

pub ok_or-ne-panic {ℓ} : {A : Type ℓ} (a : Option A) (e : ContractError) → ok_or a e ≢ panic
ok_or-ne-panic none e h = ground arith
ok_or-ne-panic (some a) e h = ground arith

pub Result-cases {ℓ} :
    {A : Type ℓ} (r : Result A)
    → r ≢ panic
    → ((a : A) × (r ≡ ok a)) ⊎ ((e : ContractError) × (r ≡ err e))
Result-cases (ok a) h = inl (a, refl)
Result-cases (err e) h = inr (e, refl)
Result-cases panic h = absurd (h refl)
