-- ===== src/Execute/Frames.antt =====
-- The handlers that write nothing, and the one that writes only the owner.
use wasm_vault.Prelude.{ℕ, ◌≡◌, String, Option, List, arith, is_some, true}
use wasm_vault.Types.{VoteOption, WeightedVoteOption, Env, MessageInfo, Response}
use wasm_vault.Errors.{ok}
use wasm_vault.Host.{Host}
use wasm_vault.Storage.{Storage}
use wasm_vault.Staking.Delegate
use wasm_vault.Staking.Undelegate
use wasm_vault.Staking.Redelegate
use wasm_vault.Staking.Claim
use wasm_vault.Withdraw
use wasm_vault.Vote
use wasm_vault.Transfer

module _ {M : Type 0} (host : Host) (env : Env) (info : MessageInfo) (s s' : Storage M)
    (r : Response) where
  pub delegate-unchanged :
      (validator : String) (amount : ℕ)
      → Delegate.execute host env info validator amount s ≡ ok (r, s')
      → s' ≡ s
  unfolding Delegate.execute
  delegate-unchanged validator amount h = ground arith

  pub undelegate-unchanged :
      (validator : String) (amount : ℕ)
      → Undelegate.execute host env info validator amount s ≡ ok (r, s')
      → s' ≡ s
  unfolding Undelegate.execute
  undelegate-unchanged validator amount h = ground arith

  pub redelegate-unchanged :
      (src dst : String) (amount : ℕ)
      → Redelegate.execute host env info src dst amount s ≡ ok (r, s')
      → s' ≡ s
  unfolding Redelegate.execute
  redelegate-unchanged src dst amount h = ground arith

  pub claim-unchanged : Claim.execute host env info s ≡ ok (r, s') → s' ≡ s
  unfolding Claim.execute
  claim-unchanged h = ground arith

  pub withdraw-unchanged :
      (denom : String) (amount : ℕ) (recipient : Option String)
      → Withdraw.execute host env info denom amount recipient s ≡ ok (r, s')
      → s' ≡ s
  unfolding Withdraw.execute
  withdraw-unchanged denom amount recipient h = ground arith

  pub vote-unchanged :
      (proposal_id : ℕ) (option : VoteOption)
      → Vote.execute_vote env info proposal_id option s ≡ ok (r, s')
      → s' ≡ s
  unfolding Vote.execute_vote
  vote-unchanged proposal_id option h = ground arith

  pub vote_weighted-unchanged :
      (proposal_id : ℕ) (options : List WeightedVoteOption)
      → Vote.execute_weighted_vote env info proposal_id options s ≡ ok (r, s')
      → s' ≡ s
  unfolding Vote.execute_weighted_vote
  vote_weighted-unchanged proposal_id options h = ground arith

  pub transfer-owner :
      (new_owner : String)
      → Transfer.execute host info new_owner s ≡ ok (r, s')
      → (s' ≡ record s { owner = s'.owner }) × (is_some s'.owner ≡ true)
  unfolding Transfer.execute
  transfer-owner new_owner h = ground arith
