-- ===== src/Helpers.antt =====
-- src/helpers.rs: who may call, and what the chain says of the stake.
pub mod Owner
pub mod Lock
use wasm_vault.Prelude.{
  ℕ, ◌-◌, String, Bool, not, Option, none, some, List, [], ◌∷◌, map, str_eq, if◌then◌else◌,
  filter_by, flatten,
}
use wasm_vault.Types.{Addr, Coin, OpenInterest, Env, MessageInfo}
use wasm_vault.Errors.{Result, ok, err, unauthorized, ◌>>=◌, ◌>>◌}
use wasm_vault.Uint.{checked_add}
use wasm_vault.Host.{Host, Delegation, DecCoin, try}
use wasm_vault.Storage.{Storage, load}

abbrev lender_or_unauthorized : Option Addr → Addr → Result Addr
lender_or_unauthorized none sender = err unauthorized
lender_or_unauthorized (some lender) sender =
    if str_eq sender lender then ok lender else err unauthorized

module _ {M : Type 0} where
  unfoldable pub require_owner : Storage M → MessageInfo → Result Addr
  require_owner s info = do
    owner ← load s.owner
    if not (str_eq info.sender owner) then err unauthorized else ok owner

  unfoldable pub require_owner_or_lender : Storage M → MessageInfo → Result Addr
  require_owner_or_lender s info = do
    owner ← load s.owner
    if str_eq info.sender owner
        then ok owner
        else lender_or_unauthorized (flatten s.lender) info.sender

-- `try_fold` of `checked_add`
unfoldable pub checked_sum : ℕ → List ℕ → Result ℕ
checked_sum acc [] = ok acc
checked_sum acc (x ∷ xs) = do acc' ← checked_add acc x; checked_sum acc' xs

unfoldable pub query_staking_rewards : Host → Env → Result ℕ
query_staking_rewards host env = do
  total ← try (host.query_delegation_total_rewards env.contract_address)
  checked_sum 0 (map (λ (coin : DecCoin). host.to_uint_floor coin.amount) total)

unfoldable pub query_staked_balance : Host → Env → String → Result ℕ
query_staked_balance host env denom = do
  delegations ← try (host.query_all_delegations env.contract_address)
  checked_sum 0 (
      map (λ (d : Delegation). d.amount.amount)
        (filter_by (λ (d : Delegation). str_eq d.amount.denom denom) delegations))

-- The lock where the collateral is in the bonded denom: what rewards and stake leave uncovered.
unfoldable pub uncovered_collateral : Host → Env → String → ℕ → Result ℕ
uncovered_collateral host env denom amount = do
  rewards ← query_staking_rewards host env
  staked ← query_staked_balance host env denom
  coverage ← checked_add rewards staked
  ok (amount - coverage)

unfoldable pub minimum_collateral_lock_for_denom :
    Host → Env → String → Option OpenInterest → Result ℕ
minimum_collateral_lock_for_denom host env denom none = ok 0
minimum_collateral_lock_for_denom host env denom (some interest) =
    if not (str_eq interest.collateral.denom denom) then ok 0 else do
      bonded_denom ← try host.query_bonded_denom
      if not (str_eq denom bonded_denom)
          then ok interest.collateral.amount
          else uncovered_collateral host env denom interest.collateral.amount
