-- ===== src/Vote.antt =====
-- src/contract/vote.rs: the owner votes with the vault's stake.
use wasm_vault.Prelude.{ℕ, List, [], ◌∷◌, length}
use wasm_vault.Types.{
  VoteOption, WeightedVoteOption, Env, MessageInfo, Response, respond, gov_vote, gov_vote_weighted,
  attr, text, num,
}
use wasm_vault.Errors.{Result, ok, ◌>>◌}
use wasm_vault.Storage.{Storage}
use wasm_vault.Helpers.{require_owner}

module _ {M : Type 0} where
  unfoldable pub execute_vote :
      Env → MessageInfo → ℕ → VoteOption → Storage M → Result (Response × Storage M)
  execute_vote env info proposal_id option s = do
    require_owner s info
    let attrs =
        attr "action" (text "vote")
        ∷ attr "proposal_id" (num proposal_id)
        ∷ attr "vote_type" (text "standard")
        ∷ []
    ok (respond (gov_vote proposal_id option ∷ []) attrs, s)

  unfoldable pub execute_weighted_vote :
      Env → MessageInfo → ℕ → List WeightedVoteOption → Storage M → Result (Response × Storage M)
  execute_weighted_vote env info proposal_id options s = do
    require_owner s info
    let attrs =
        attr "action" (text "vote")
        ∷ attr "proposal_id" (num proposal_id)
        ∷ attr "vote_type" (text "weighted")
        ∷ attr "option_count" (num (length options))
        ∷ []
    ok (respond (gov_vote_weighted proposal_id options ∷ []) attrs, s)
