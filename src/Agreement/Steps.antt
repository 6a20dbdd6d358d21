-- ===== src/Agreement/Steps.antt =====
-- A step of the agreement between the states of a vault.
use wasm_vault.Prelude.{◌≡◌, sym, subst, List}
use wasm_vault.Types.{CosmosMsg, ExecuteMsg, Env, MessageInfo, Response}
use wasm_vault.Host.{Host}
use wasm_vault.Storage.{OfferMap, Storage}
use wasm_vault.Agreement.{Deal, deal_of, Does}

module _ {M : Type 0} ⦃offer_map : OfferMap M⦄ (host : Host) (env : Env) (info : MessageInfo)
    (s s' : Storage M) (r : Response) where
  abbrev DoesIt : ExecuteMsg → Type 0
  DoesIt msg = Does host env info (deal_of s) msg r.messages (deal_of s')

  pub does :
      {a b : Deal} {ms : List CosmosMsg} (msg : ExecuteMsg)
      → Does host env info a msg ms b
      → deal_of s ≡ a
      → r.messages ≡ ms
      → deal_of s' ≡ b
      → DoesIt msg
  does {a} {b} {ms} msg d p m q =
      subst (λ x. Does host env info x msg r.messages (deal_of s')) (sym p)
        (subst (λ x. Does host env info a msg x (deal_of s')) (sym m)
          (subst (λ x. Does host env info a msg ms x) (sym q) d))
