-- ===== src/Bounds.antt =====
-- The machine-width bounds within which no message of src/contract/execute.rs panics.
pub mod Assets
pub mod Requests
pub mod Loans
pub mod Messages
use wasm_vault.Prelude.{ℕ, ◌+◌, ◌*◌, ◌^◌, ◌<◌, ◌≡◌, ◌≢◌, String, some, sum_of, flatten}
use wasm_vault.Types.{Addr, Coin, OpenInterest, ExecuteMsg, Env, MessageInfo}
use wasm_vault.Errors.{ok, panic}
use wasm_vault.Host.{Host, answer}
use wasm_vault.Storage.{Storage}
use wasm_vault.Helpers.{query_staking_rewards}
use wasm_vault.OpenInterest.Liquidation.{duration_or_default}

-- The amount that a message names, where an error would convert it to a `Uint128`.
abbrev pub amount_of : ExecuteMsg → ℕ
amount_of (ExecuteMsg.delegate validator amount) = amount
amount_of (ExecuteMsg.withdraw denom amount recipient) = amount
amount_of (ExecuteMsg.open_interest terms) = terms.collateral.amount
amount_of _ = 0

-- The sum over all denoms.
abbrev pub attached : MessageInfo → ℕ
attached info = sum_of (λ (coin : Coin). coin.amount) info.funds

-- `seconds` after `time` is a time in the 64 bits of a `Timestamp`.
abbrev pub IsTime : ℕ → ℕ → Type 0
IsTime time seconds = time + seconds * 1_000_000_000 < 2 ^ 64

pub record IsBounded {M : Type 0} (host : Host) (env : Env) (info : MessageInfo) (msg : ExecuteMsg)
    (s : Storage M) : Type 0 where
  pub clock : (time seconds : ℕ) → IsTime time seconds → host.plus_seconds time seconds ≢ panic
  pub balances :
      (addr : Addr) (denom : String) (balance : Coin)
      → host.query_balance addr denom ≡ answer balance
      → balance.amount < 2 ^ 128
  pub rewards : (total : ℕ) → query_staking_rewards host env ≡ ok total → total < 2 ^ 128
  pub funds : attached info < 2 ^ 256
  pub amount : amount_of msg < 2 ^ 128
  pub expiry :
      (terms : OpenInterest)
      → flatten s.open_interest ≡ some terms
      → IsTime env.time terms.expiry_duration
  pub delay :
      (last_time : ℕ)
      → flatten s.last_liquidation_unbonding ≡ some last_time
      → IsTime last_time (duration_or_default s.liquidation_unbonding_duration)
