-- ===== src/Bounds/Assets.antt =====
-- The handlers of stake, votes, ownership and withdrawals, within the bounds.
use wasm_vault.Prelude.{
  ℕ, ◌-◌, ◌<◌, ◌^◌, ◌≡◌, ◌≢◌, inl, inr, String, Option, none, some, List, arith, ◌==◌, Option-cases,
}
use wasm_vault.Types.{Coin, Addr, Env, MessageInfo, VoteOption, WeightedVoteOption}
use wasm_vault.Errors.{panic, bind-panic, fail_if, fail_if-ne-panic, invalid_delegation_amount}
use wasm_vault.Uint.{try_u128_of_lt}
use wasm_vault.Host.{Host, answer, try, try-ne-panic, Reply-cases}
use wasm_vault.Storage.{Storage, load}
use wasm_vault.Helpers.{require_owner}
use wasm_vault.Staking.Delegate
use wasm_vault.Staking.Delegate.{reserved_debt_for_denom}
use wasm_vault.Staking.Undelegate
use wasm_vault.Staking.Redelegate
use wasm_vault.Staking.Redelegate.{refuse_while_lent}
use wasm_vault.Staking.Claim
use wasm_vault.Withdraw
use wasm_vault.Withdraw.{available_to_withdraw}
use wasm_vault.Withdraw.Bounds.{execute-ne-panic as withdraw_stored-ne-panic}
use wasm_vault.Vote
use wasm_vault.Transfer

pub load-ne-panic {ℓ} : {A : Type ℓ} (item : Option A) → load item ≢ panic
load-ne-panic none h = ground arith
load-ne-panic (some a) h = ground arith

module _ {M : Type 0} (host : Host) (env : Env) (info : MessageInfo) (s : Storage M) where
  pub require_owner-ne-panic : require_owner s info ≢ panic
  unfolding require_owner
  require_owner-ne-panic h = ground arith

  pub vote-ne-panic :
      (proposal_id : ℕ) (option : VoteOption)
      → Vote.execute_vote env info proposal_id option s ≢ panic
  unfolding Vote.execute_vote
  vote-ne-panic proposal_id option h = ground (arith, require_owner-ne-panic)

  pub vote_weighted-ne-panic :
      (proposal_id : ℕ) (options : List WeightedVoteOption)
      → Vote.execute_weighted_vote env info proposal_id options s ≢ panic
  unfolding Vote.execute_weighted_vote
  vote_weighted-ne-panic proposal_id options h = ground (arith, require_owner-ne-panic)

  pub transfer-ne-panic : (new_owner : String) → Transfer.execute host info new_owner s ≢ panic
  unfolding Transfer.execute
  transfer-ne-panic new_owner h =
      ground (arith, require_owner-ne-panic, try-ne-panic (host.addr_validate new_owner))

  pub claim-ne-panic : Claim.execute host env info s ≢ panic
  unfolding Claim.execute
  claim-ne-panic h = ground (
    arith,
    require_owner-ne-panic,
    try-ne-panic (host.query_all_delegations env.contract_address),
  )

  pub undelegate-ne-panic :
      (validator : String) (amount : ℕ)
      → Undelegate.execute host env info validator amount s ≢ panic
  unfolding Undelegate.execute
  undelegate-ne-panic validator amount h =
      bind-panic (require_owner s info) _ h require_owner-ne-panic λ owner _ h1.
        elim (Reply-cases (host.addr_validate validator)) [
          | inl (addr, valid) ↦ ground (
            arith,
            try-ne-panic host.query_bonded_denom,
            try-ne-panic (host.query_delegation env.contract_address addr),
          )
          | inr (x, failed) ↦ ground arith
        ]

  pub redelegate-ne-panic :
      (src dst : String) (amount : ℕ) → Redelegate.execute host env info src dst amount s ≢ panic
  unfolding Redelegate.execute refuse_while_lent
  redelegate-ne-panic src dst amount h =
      bind-panic (require_owner s info) _ h require_owner-ne-panic λ owner _ h1.
        elim (Reply-cases (host.addr_validate src)) [
          | inl (src_addr, valid) ↦ elim (Reply-cases (host.addr_validate dst)) [
            | inl (dst_addr, is_valid) ↦ ground (
              arith,
              try-ne-panic host.query_bonded_denom,
              try-ne-panic (host.query_delegation env.contract_address src_addr),
              try-ne-panic (host.query_validator dst_addr),
            )
            | inr (x, failed) ↦ ground arith
          ]
          | inr (x, failed) ↦ ground arith
        ]

  reserved_debt-ne-panic : (denom : String) → reserved_debt_for_denom s denom ≢ panic
  unfolding reserved_debt_for_denom
  reserved_debt-ne-panic denom h = ground arith

  module _
      (small : (addr : Addr) (denom : String) (balance : Coin)
        → host.query_balance addr denom ≡ answer balance
        → balance.amount < 2 ^ 128) where
    pub delegate-ne-panic :
        (validator : String) (amount : ℕ)
        → amount < 2 ^ 128
        → Delegate.execute host env info validator amount s ≢ panic
    unfolding Delegate.execute reserved_debt_for_denom
    delegate-ne-panic validator amount fit h =
        bind-panic (require_owner s info) _ h require_owner-ne-panic λ owner _ h1.
          bind-panic (fail_if (amount == 0) invalid_delegation_amount) _ h1 (fail_if-ne-panic _ _)
            λ _ _ h2.
              bind-panic (try (host.addr_validate validator)) _ h2
                (try-ne-panic (host.addr_validate validator))
                λ addr _ h3.
                  bind-panic (try host.query_bonded_denom) _ h3
                    (try-ne-panic host.query_bonded_denom)
                    λ denom _ h4.
                      bind-panic (reserved_debt_for_denom s denom) _ h4
                        (reserved_debt-ne-panic denom)
                        λ reserved _ h5.
                          elim (Reply-cases (host.query_balance env.contract_address denom)) [
                            | inl (balance, told) ↦ ground (
                              arith,
                              small env.contract_address denom balance told,
                              try_u128_of_lt amount fit,
                              try_u128_of_lt (balance.amount - reserved),
                              try-ne-panic (host.query_validator addr),
                            )
                            | inr (x, failed) ↦ ground arith
                          ]

    pub withdraw-ne-panic :
        (denom : String) (amount : ℕ) (recipient : Option String)
        → amount < 2 ^ 128
        → Withdraw.execute host env info denom amount recipient s ≢ panic
    unfolding Withdraw.execute available_to_withdraw
    withdraw-ne-panic denom amount recipient fit h = elim (Option-cases s.open_interest) [
      | inl missing ↦
          bind-panic (require_owner s info) _ h require_owner-ne-panic λ owner _ h1. ground arith
      | inr (terms, stored) ↦ elim (Reply-cases (host.query_balance env.contract_address denom)) [
        | inl (balance, told) ↦
            withdraw_stored-ne-panic host env denom s terms balance stored told (small _ _ _ told)
              info amount recipient fit h
        | inr (x, failed) ↦
            bind-panic (require_owner s info) _ h require_owner-ne-panic λ owner _ h1. ground arith
      ]
    ]
