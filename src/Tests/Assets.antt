-- ===== src/Tests/Assets.antt =====
-- What the owner may take out and offer as collateral.
use wasm_vault.Prelude.{
  ℕ, ◌+◌, ◌-◌, max, ◌<◌, ◌≤◌, ◌≡◌, ◌↔◌, refl, none, some, List, [], ◌∷◌, arith,
}
use wasm_vault.Types.{OpenInterest, bank_send, MessageInfo}
use wasm_vault.Errors.{ok, panic}
use wasm_vault.Uint.{fits, checked_add}
use wasm_vault.Host.{Delegation}
use wasm_vault.Helpers.{
  require_owner, minimum_collateral_lock_for_denom, uncovered_collateral, query_staking_rewards,
  query_staked_balance, checked_sum,
}
use wasm_vault.Helpers.Lock.{minimum_collateral_lock-value}
use wasm_vault.OpenInterest.Terms.{ensure_collateral_available}
use wasm_vault.OpenInterest.Terms.Collateral.{
  ensure_collateral_available_iff, ensure_collateral_available-panics,
  ensure_collateral_available-bonded,
}
use wasm_vault.OpenInterest.Execute as Opening
use wasm_vault.OpenInterest.Execute.Success.{IsOpenable, opened, execute_iff}
use wasm_vault.Withdraw
use wasm_vault.Withdraw.{available_to_withdraw, withdraw_response, debt_requirement}
use wasm_vault.Withdraw.Bounds as Bounds
use wasm_vault.Tests.Fixtures.{listed, coin, chain, at_time, from, asking, idle, requested}

abbrev owner : MessageInfo
owner = from "owner" []

-- 200 ucosm, of which the stake of 110 covers a part.
lock_run :
    (funds : ℕ)
    → minimum_collateral_lock_for_denom (chain funds) (at_time 5) "ucosm" (some (asking 1000))
      ≡ ok 90
unfolding minimum_collateral_lock_for_denom uncovered_collateral query_staking_rewards
    query_staked_balance checked_sum checked_add fits
lock_run funds = refl

abbrev stakes : List Delegation
stakes =
    record { validator = "val-a"; amount = coin 60 "ucosm" }
    ∷ record { validator = "val-b"; amount = coin 50 "ucosm" }
    ∷ []

minimum_collateral_lock-value_example : 90 ≡ 200 - (0 + 110)
minimum_collateral_lock-value_example =
    minimum_collateral_lock-value (chain 40) (at_time 5) (asking 1000) "ucosm" [] stakes 90 refl
      refl refl (lock_run 40)

ensure_collateral_available_iff_example :
    (ensure_collateral_available (chain 95) (at_time 5) (asking 1000) ≡ ok tt) ↔ (90 ≤ 95)
ensure_collateral_available_iff_example =
    ensure_collateral_available_iff (chain 95) (at_time 5) (asking 1000) (coin 95 "ucosm") 90 refl
      (lock_run 95)

execute_iff_example :
    (Opening.execute (chain 95) (at_time 5) owner (asking 1000) idle
      ≡ ok (opened (asking 1000) idle))
    ↔ IsOpenable owner (asking 1000) idle 95 90
execute_iff_example =
    execute_iff (chain 95) (at_time 5) owner (asking 1000) idle (coin 95 "ucosm") 90 refl
      (lock_run 95)

ensure_collateral_available-bonded_example :
    (ensure_collateral_available (chain 95) (at_time 5) (asking 1000) ≡ ok tt)
    ↔ (200 ≤ 95 + 0 + 110)
ensure_collateral_available-bonded_example =
    ensure_collateral_available-bonded (chain 95) (at_time 5) (asking 1000) (coin 95 "ucosm") 90 []
      stakes refl refl refl refl (lock_run 95)

-- A collateral of 2 ^ 128 in another denom.
abbrev huge : OpenInterest
huge = record (asking 1000) { collateral = coin 340282366920938463463374607431768211456 "uatom" }

huge_run :
    minimum_collateral_lock_for_denom (chain 40) (at_time 5) "uatom" (some huge)
    ≡ ok 340282366920938463463374607431768211456
unfolding minimum_collateral_lock_for_denom
huge_run = refl

ensure_collateral_available-panics_example :
    ensure_collateral_available (chain 40) (at_time 5) huge ≡ panic
ensure_collateral_available-panics_example =
    ensure_collateral_available-panics (chain 40) (at_time 5) huge (coin 40 "uatom")
      340282366920938463463374607431768211456 refl huge_run (omega arith) (omega arith)
      (omega arith)

withdraw_run :
    Withdraw.execute (chain 2000) (at_time 5) owner "uusd" 300 none requested
    ≡ ok (withdraw_response "uusd" 300 "owner", requested)
unfolding Withdraw.execute require_owner available_to_withdraw minimum_collateral_lock_for_denom
withdraw_run = refl

no_lock :
    minimum_collateral_lock_for_denom (chain 2000) (at_time 5) "uusd" (some (asking 1000)) ≡ ok 0
unfolding minimum_collateral_lock_for_denom
no_lock = refl

execute-leaves-requirements_example :
    (requested.owner ≡ some "owner")
    × (0 < 300)
    × (1700 + 300 ≤ 2000)
    × (0 + 300 ≤ 2000)
    × (requested ≡ requested)
    × ((withdraw_response "uusd" 300 "owner").messages
        ≡ bank_send "owner" (coin 300 "uusd" ∷ []) ∷ [])
execute-leaves-requirements_example =
    Bounds.execute-leaves-requirements (chain 2000) (at_time 5) "uusd" requested
      (some (asking 1000)) (some (coin 1700 "uusd")) (coin 2000 "uusd") 0 refl refl refl no_lock
      owner 300 none "owner" refl (withdraw_response "uusd" 300 "owner") requested withdraw_run

withdrawal_iff_example :
    (Withdraw.execute (chain 2000) (at_time 5) owner "uusd" 300 (some "leo") requested
      ≡ ok (withdraw_response "uusd" 300 "leo", requested))
    ↔ ((requested.owner ≡ some "owner") × (0 < 300) × (300 + max 1700 0 ≤ 2000))
withdrawal_iff_example =
    Bounds.withdrawal_iff (chain 2000) (at_time 5) "uusd" requested (some (asking 1000))
      (some (coin 1700 "uusd")) (coin 2000 "uusd") 0 refl refl refl no_lock owner 300 (some "leo")
      "leo" refl
