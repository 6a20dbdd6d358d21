-- ===== src/Agreement/Histories.antt =====
-- An agreement over sequences of calls of src/contract/execute.rs, from src/contract/instantiate.rs on.
use wasm_vault.Prelude.{◌≡◌, ◌≢◌, refl, List, [], ◌∷◌, arith}
use wasm_vault.Types.{InstantiateMsg, Env, MessageInfo, Response}
use wasm_vault.Errors.{Result, ok, err, panic}
use wasm_vault.Host.{Host}
use wasm_vault.Storage.{OfferMap, Storage}
use wasm_vault.OpenInterest.Lending.{clear_active_lender}
use wasm_vault.Instantiate.{instantiate}
use wasm_vault.Execute.{execute, Call, step, run, committed}
use wasm_vault.Invariant.Defs.{IsConsistent}
use wasm_vault.Invariant.Histories.{step-IsConsistent, instantiate-IsConsistent}
use wasm_vault.Agreement.{vacant, deal_of, Does}
use wasm_vault.Agreement.Refinement.{execute-Does}

module _ {M : Type 0} ⦃offer_map : OfferMap M⦄ where
  -- The calls of a history one by one, with the vault before and after each: a call that is taken does
  -- to the agreement what its own message does with what it sends, and a call that is not taken leaves
  -- the vault as it was.
  pub data Follows : List Call → Storage M → Storage M → Type 0 where
    done : (s : Storage M) → Follows [] s s
    taken :
        (c : Call) {calls : List Call} {s middle s' : Storage M} (r : Response)
        → execute c.host c.env c.info c.msg s ≡ ok (r, middle)
        → Does c.host c.env c.info (deal_of s) c.msg r.messages (deal_of middle)
        → Follows calls middle s'
        → Follows (c ∷ calls) s s'
    refused :
        (c : Call) {calls : List Call} {s s' : Storage M}
        → ((done : Response × Storage M) → execute c.host c.env c.info c.msg s ≢ ok done)
        → Follows calls s s'
        → Follows (c ∷ calls) s s'

  call-Follows :
      (c : Call) (calls : List Call) (s s' : Storage M) (result : Result (Response × Storage M))
      → IsConsistent s
      → execute c.host c.env c.info c.msg s ≡ result
      → Follows calls (committed s result) s'
      → Follows (c ∷ calls) s s'
  call-Follows c calls s s' (ok (r, middle)) v e rest =
      Follows.taken c r e (execute-Does c.host c.env c.info s middle r v c.msg e) rest
  call-Follows c calls s s' (err x) v e rest = Follows.refused c (λ d h. ground (arith, e, h)) rest
  call-Follows c calls s s' panic v e rest = Follows.refused c (λ d h. ground (arith, e, h)) rest

  run-Follows : (calls : List Call) (s : Storage M) → IsConsistent s → Follows calls s (run calls s)
  unfolding run step
  run-Follows [] s v = Follows.done s
  run-Follows (c ∷ calls) s v =
      call-Follows c calls s (run calls (step c s)) (execute c.host c.env c.info c.msg s) v refl
        (run-Follows calls (step c s) (step-IsConsistent c s v))

  new-vacant :
      (host : Host) (env : Env) (info : MessageInfo) (msg : InstantiateMsg) (s s' : Storage M)
      (r : Response)
      → instantiate host env info msg s ≡ ok (r, s')
      → deal_of s' ≡ vacant
  unfolding instantiate clear_active_lender
  new-vacant host env info msg s s' r h = ground arith

  -- A vault that a successful instantiation made in an empty storage has no agreement, and any calls by
  -- anyone, one by one and in their order, follow it: each call that is taken does to the agreement what
  -- its own message does, and each call that fails leaves the vault as it was.
  pub history-Follows :
      (host : Host) (env : Env) (info : MessageInfo) (msg : InstantiateMsg) (s s' : Storage M)
      (r : Response) (calls : List Call)
      → offer_map.range s.counter_offers ≡ []
      → instantiate host env info msg s ≡ ok (r, s')
      → (deal_of s' ≡ vacant) × Follows calls s' (run calls s')
  history-Follows host env info msg s s' r calls empty h = (
    new-vacant host env info msg s s' r h,
    run-Follows calls s' (instantiate-IsConsistent host env info msg s s' r empty h),
  )
