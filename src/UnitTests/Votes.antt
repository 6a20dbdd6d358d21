-- ===== src/UnitTests/Votes.antt =====
-- The tests of src/contract/vote.rs.
use wasm_vault.Prelude.{ℕ, ◌*◌, ◌^◌, ◌≡◌, refl, some, List, [], ◌∷◌}
use wasm_vault.Types.{
  Addr, VoteOption, WeightedVoteOption, respond, gov_vote, gov_vote_weighted, attr, text, num,
}
use wasm_vault.Errors.{ok, err, unauthorized}
use wasm_vault.Helpers.{require_owner}
use wasm_vault.Vote.{execute_vote, execute_weighted_vote}
use wasm_vault.Tests.Fixtures.{Vault}
use wasm_vault.UnitTests.Mock.{Outcome, mock_env, message_info, storage}

abbrev setup_owner : Vault → Addr → Vault
setup_owner s owner = record s { owner = some owner }

abbrev ready : Vault
ready = setup_owner storage "owner"

-- A weight by the atomics of its decimal.
abbrev percent : VoteOption → ℕ → WeightedVoteOption
percent option hundredths = record { option = option; weight = hundredths * 10 ^ 16 }

abbrev standard_vote_requires_owner : Outcome
standard_vote_requires_owner = execute_vote mock_env (message_info "intruder" []) 42 "yes" ready

standard_vote_requires_owner_passes : standard_vote_requires_owner ≡ err unauthorized
unfolding execute_vote require_owner
standard_vote_requires_owner_passes = refl

abbrev creates_standard_vote_message : Outcome
creates_standard_vote_message = execute_vote mock_env (message_info "owner" []) 7 "no" ready

creates_standard_vote_message_passes :
    creates_standard_vote_message
    ≡ ok (
      respond (gov_vote 7 "no" ∷ []) (
          attr "action" (text "vote")
          ∷ attr "proposal_id" (num 7)
          ∷ attr "vote_type" (text "standard")
          ∷ []),
      ready,
    )
unfolding execute_vote require_owner
creates_standard_vote_message_passes = refl

abbrev weighted_vote_requires_owner : Outcome
weighted_vote_requires_owner =
    execute_weighted_vote mock_env (message_info "intruder" []) 12 (percent "yes" 100 ∷ []) ready

weighted_vote_requires_owner_passes : weighted_vote_requires_owner ≡ err unauthorized
unfolding execute_weighted_vote require_owner
weighted_vote_requires_owner_passes = refl

abbrev split : List WeightedVoteOption
split = percent "yes" 60 ∷ percent "no" 40 ∷ []

abbrev creates_weighted_vote_message : Outcome
creates_weighted_vote_message =
    execute_weighted_vote mock_env (message_info "owner" []) 9 split ready

creates_weighted_vote_message_passes :
    creates_weighted_vote_message
    ≡ ok (
      respond (gov_vote_weighted 9 split ∷ []) (
          attr "action" (text "vote")
          ∷ attr "proposal_id" (num 9)
          ∷ attr "vote_type" (text "weighted")
          ∷ attr "option_count" (num 2)
          ∷ []),
      ready,
    )
unfolding execute_weighted_vote require_owner
creates_weighted_vote_message_passes = refl
