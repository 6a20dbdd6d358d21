-- ===== src/Lifecycle/Rounds.antt =====
-- The delay between the undelegations of one loan, src/contract/open_interest/liquidate.rs.
use wasm_vault.Prelude.{◌<◌, ◌≡◌, refl, sym, ap, subst, ◌∙◌, List, [], ◌∷◌, All, flatten, arith}
use wasm_vault.Types.{ExecuteMsg, Env, MessageInfo, Response}
use wasm_vault.Errors.{Result, ok, err, panic}
use wasm_vault.Host.{Host}
use wasm_vault.Storage.{OfferMap, Storage}
use wasm_vault.OpenInterest.Liquidation.{duration_or_default}
use wasm_vault.OpenInterest.Liquidation.Undelegations.{undelegated_in}
use wasm_vault.OpenInterest.Liquidation.Throttle.{IsSpaced}
use wasm_vault.OpenInterest.Liquidate.Rounds.{liquidate-round, can_schedule-IsSpaced}
use wasm_vault.Execute.{execute, Call, committed, step, run}
use wasm_vault.Lifecycle.{IsNeutral}
use wasm_vault.Lifecycle.Neutral.{neutral-frame}

-- Calls that are no part of the life of a loan.
abbrev pub AreNeutral : List Call → Type 0
AreNeutral = All (λ (c : Call). IsNeutral c.msg)

module _ {M : Type 0} ⦃offer_map : OfferMap M⦄ where
  IsTimed : Storage M → Storage M → Type 0
  IsTimed s s' =
      (s'.last_liquidation_unbonding ≡ s.last_liquidation_unbonding)
      × (s'.liquidation_unbonding_duration ≡ s.liquidation_unbonding_duration)

  committed-IsTimed :
      (c : Call) (s : Storage M) (result : Result (Response × Storage M))
      → IsNeutral c.msg
      → execute c.host c.env c.info c.msg s ≡ result
      → IsTimed s (committed s result)
  unfolding IsTimed
  committed-IsTimed c s (ok (r, s')) neutral e =
      ground (arith, neutral-frame c.host c.env c.info s s' r c.msg neutral e)
  committed-IsTimed c s (err x) neutral e = (refl, refl)
  committed-IsTimed c s panic neutral e = (refl, refl)

  run-IsTimed : (calls : List Call) (s : Storage M) → AreNeutral calls → IsTimed s (run calls s)
  unfolding run step IsTimed
  run-IsTimed [] s neutral = (refl, refl)
  run-IsTimed (c ∷ calls) s neutral =
      let first = committed-IsTimed c s (execute c.host c.env c.info c.msg s) neutral.0 refl in
      ground (arith, first, run-IsTimed calls (step c s) neutral.1)

  -- Two liquidations of one loan that both undelegate something, with any calls between them that are
  -- no part of the life of a loan, are at least the delay of the vault apart, where it is not zero: adding
  -- the delay to the time of the first is a time, and the second comes no sooner.
  pub liquidations-IsSpaced :
      (host later : Host) (env env' : Env) (info info' : MessageInfo) (calls : List Call)
      (s s' end : Storage M) (r r' : Response)
      → execute host env info ExecuteMsg.liquidate_open_interest s ≡ ok (r, s')
      → 0 < undelegated_in r.messages
      → AreNeutral calls
      → execute later env' info' ExecuteMsg.liquidate_open_interest (run calls s') ≡ ok (r', end)
      → 0 < undelegated_in r'.messages
      → 0 < duration_or_default s.liquidation_unbonding_duration
      → IsSpaced later env' (duration_or_default s.liquidation_unbonding_duration) env.time
  unfolding execute IsTimed
  liquidations-IsSpaced host later env env' info info' calls s s' end r r' h drawn neutral h' drawn'
        delay =
      let first = liquidate-round host env s info s' r h drawn in
      let kept = run-IsTimed calls s' neutral in
      let second = liquidate-round later env' (run calls s') info' end r' h' drawn' in
      let same : (run calls s').liquidation_unbonding_duration ≡ s.liquidation_unbonding_duration =
        kept.1 ∙ first.2 in
      subst (λ d. IsSpaced later env' (duration_or_default d) env.time) same
        (can_schedule-IsSpaced later env' (run calls s') second.0 env.time
          (ap flatten (kept.0 ∙ first.1)) (subst (λ d. 0 < duration_or_default d) (sym same) delay))
