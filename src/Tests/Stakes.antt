-- ===== src/Tests/Stakes.antt =====
-- What the owner may do with the stake.
use wasm_vault.Prelude.{
  ◌+◌, ◌<◌, ◌≤◌, ◌≡◌, ◌≢◌, ◌↔◌, is_some, true, refl, String, none, some, List, [], ◌∷◌,
}
use wasm_vault.Types.{
  Response, respond, attr, text, num, staking_delegate, staking_undelegate, staking_redelegate,
  withdraw_delegator_reward, MessageInfo,
}
use wasm_vault.Errors.{ok}
use wasm_vault.Host.{Host, Delegation, answer}
use wasm_vault.Helpers.{require_owner}
use wasm_vault.Staking.Delegate
use wasm_vault.Staking.Delegate.{reserved_debt_for_denom}
use wasm_vault.Staking.Delegate.Escrow.{execute-keeps-escrow, delegated, IsUnowed, delegation_iff}
use wasm_vault.Staking.Claim
use wasm_vault.Staking.Undelegate
use wasm_vault.Staking.Redelegate
use wasm_vault.Staking.Redelegate.{refuse_while_lent}
use wasm_vault.Staking.Bounds.{redelegate-IsBounded}
use wasm_vault.Tests.Fixtures.{
  Vault, coin, chain, at_time, from, requested, requested-IsConsistent, lent, listed,
}

abbrev owner : MessageInfo
owner = from "owner" []

abbrev stakes : List Delegation
stakes =
    record { validator = "val-a"; amount = coin 60 "ucosm" }
    ∷ record { validator = "val-b"; amount = coin 50 "ucosm" }
    ∷ []

-- The request with its escrow in the bonded denom.
abbrev escrowed : Vault
escrowed = record requested { outstanding_debt = some (some (coin 1700 "ucosm")) }

abbrev delegation : Response
delegation = respond (staking_delegate "val-a" (coin 300 "ucosm") ∷ []) (
    attr "action" (text "delegate")
    ∷ attr "validator" (text "val-a")
    ∷ attr "denom" (text "ucosm")
    ∷ attr "amount" (num 300)
    ∷ [])

delegate_run :
    Delegate.execute (chain 2000) (at_time 5) owner "val-a" 300 escrowed ≡ ok (delegation, escrowed)
unfolding Delegate.execute require_owner reserved_debt_for_denom
delegate_run = refl

execute-keeps-escrow_example :
    (escrowed.owner ≡ some "owner")
    × (0 < 300)
    × (escrowed.lender ≡ some none)
    × (1700 + 300 ≤ 2000)
    × (escrowed ≡ escrowed)
    × (delegation.messages ≡ staking_delegate "val-a" (coin 300 "ucosm") ∷ [])
execute-keeps-escrow_example =
    execute-keeps-escrow (chain 2000) (at_time 5) escrowed (coin 1700 "ucosm") (coin 2000 "ucosm")
      "val-a" refl refl refl owner "val-a" 300 refl delegation escrowed delegate_run

-- A loan that an earlier liquidation has paid in part.
abbrev owing : Vault
owing = record lent { outstanding_debt = some (some (coin 140 "ucosm")) }

-- A chain with the liquidity's denom bonded, where 1700 of 2000 are the escrow.
abbrev staking_liquidity : Host
staking_liquidity = record (chain 2000) { query_bonded_denom = answer "uusd" }

delegation_iff_example :
    (Delegate.execute staking_liquidity (at_time 5) owner "val-a" 300 requested
      ≡ ok (delegated requested "uusd" "val-a" 300, requested))
    ↔ ((requested.owner ≡ some "owner")
        × (0 < 300)
        × (is_some {A = String} (some "val-a") ≡ true)
        × (1700 + 300 ≤ 2000)
        × IsUnowed requested "uusd")
delegation_iff_example =
    delegation_iff requested "uusd" requested-IsConsistent staking_liquidity (at_time 5) owner
      "val-a" 300 "val-a" (coin 2000 "uusd") (some "val-a") refl refl refl refl

abbrev undelegation : Response
undelegation = respond (staking_undelegate "val-a" (coin 60 "ucosm") ∷ []) (
    attr "action" (text "undelegate")
    ∷ attr "validator" (text "val-a")
    ∷ attr "denom" (text "ucosm")
    ∷ attr "amount" (num 60)
    ∷ [])

undelegate_run :
    Undelegate.execute (chain 0) (at_time 5) owner "val-a" 60 owing ≡ ok (undelegation, owing)
unfolding Undelegate.execute require_owner
undelegate_run = refl

abbrev redelegation : Response
redelegation = respond (staking_redelegate "val-a" "val-b" (coin 20 "ucosm") ∷ []) (
    attr "action" (text "redelegate")
    ∷ attr "src_validator" (text "val-a")
    ∷ attr "dst_validator" (text "val-b")
    ∷ attr "denom" (text "ucosm")
    ∷ attr "amount" (num 20)
    ∷ [])

redelegate_run :
    Redelegate.execute (chain 0) (at_time 5) owner "val-a" "val-b" 20 lent ≡ ok (redelegation, lent)
unfolding Redelegate.execute require_owner refuse_while_lent
redelegate_run = refl

redelegate-IsBounded_example :
    (lent.owner ≡ some "owner")
    × (0 < 20)
    × (20 ≤ 60)
    × (◌≢◌ {A = String} "val-a" "val-b")
    × (lent ≡ lent)
    × (redelegation.messages ≡ staking_redelegate "val-a" "val-b" (coin 20 "ucosm") ∷ [])
redelegate-IsBounded_example =
    redelegate-IsBounded (chain 0) (at_time 5) owner 20 lent lent redelegation "val-a" "val-b"
      "val-a" "val-b" "ucosm" (some (record { validator = "val-a"; amount = coin 60 "ucosm" })) refl
      refl refl refl redelegate_run

abbrev claim : Response
claim =
    respond (withdraw_delegator_reward "val-a" ∷ withdraw_delegator_reward "val-b" ∷ [])
      (attr "action" (text "claim_delegator_rewards") ∷ attr "validator_count" (num 2) ∷ [])

claim_run : Claim.execute (chain 0) (at_time 5) owner owing ≡ ok (claim, owing)
unfolding Claim.execute require_owner
claim_run = refl
