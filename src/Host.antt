-- ===== src/Host.antt =====
-- What the contract asks of the chain through cosmwasm_std: `deps.api`, `deps.querier`,
-- `Timestamp::plus_seconds`, the floor of a decimal amount and the JSON encoder. None of it is in this
-- repository, so each handler takes it as an argument.
use wasm_vault.Prelude.{ℕ, ◌≡◌, ◌≢◌, ◌⊎◌, inl, inr, refl, String, Option, List, arith}
use wasm_vault.Types.{Addr, Coin, InfoResponse}
use wasm_vault.Errors.{StdError, Result, ok, err, panic, std}

-- A `StdResult` of the host: it answers, or it fails with an error of its own.
pub data Reply {ℓ} (A : Type ℓ) : Type ℓ where
  answer : A → Reply A
  fault : StdError → Reply A

-- `?` on such a result
abbrev pub try {ℓ} : {A : Type ℓ} → Reply A → Result A
try (answer a) = ok a
try (fault e) = err (std e)

pub Reply-cases {ℓ} :
    {A : Type ℓ} (r : Reply A) → ((a : A) × (r ≡ answer a)) ⊎ ((e : StdError) × (r ≡ fault e))
Reply-cases (answer a) = inl (a, refl)
Reply-cases (fault e) = inr (e, refl)

pub try-ne-panic {ℓ} : {A : Type ℓ} (r : Reply A) → try r ≢ panic
try-ne-panic (answer a) h = ground arith
try-ne-panic (fault e) h = ground arith

-- `Delegation` and `FullDelegation`, in what the contract reads of them
pub record Delegation : Type 0 where
  pub validator : String
  pub amount : Coin

-- A reward; `amount` is a `Decimal256`, by its atomics.
pub record DecCoin : Type 0 where
  pub denom : String
  pub amount : ℕ

pub record Host : Type 0 where
  pub addr_validate : String → Reply Addr
  pub query_bonded_denom : Reply String
  pub query_balance : Addr → String → Reply Coin
  pub query_all_delegations : Addr → Reply (List Delegation)
  pub query_delegation : Addr → String → Reply (Option Delegation)
  -- the validator's address, where the chain knows it
  pub query_validator : String → Reply (Option String)
  pub query_delegation_total_rewards : Addr → Reply (List DecCoin)
  pub to_uint_floor : ℕ → ℕ
  -- a time out of range panics
  pub plus_seconds : ℕ → ℕ → Result ℕ
  pub to_json_binary : InfoResponse → Reply String
