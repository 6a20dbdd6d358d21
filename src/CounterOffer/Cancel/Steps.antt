-- ===== src/CounterOffer/Cancel/Steps.antt =====
-- What a cancelled counter offer has passed, step by step.
use wasm_vault.Prelude.{◌≡◌, some, [], ◌∷◌, flatten, Option, arith}
use wasm_vault.Types.{Coin, OpenInterest, Env, MessageInfo, Response}
use wasm_vault.Errors.{ok, ok_or, no_open_interest, counter_offer_not_found, bind-ok}
use wasm_vault.Storage.{OfferMap, Storage, load}
use wasm_vault.OpenInterest.Lending.{refund}
use wasm_vault.CounterOffer.Helpers.{release_outstanding_debt, released_debt}
use wasm_vault.CounterOffer.Cancel.{cancel, cancel_response}

module _ {M : Type 0} ⦃offer_map : OfferMap M⦄ (env : Env) (info : MessageInfo)
    (s : Storage M) where
  pub record IsCancelled (r : Response) (s' : Storage M) : Type 0 where
    pub active : OpenInterest
    pub offer : OpenInterest
    pub debt : Option Coin
    pub requested : s.open_interest ≡ some (some active)
    pub found : offer_map.may_load s.counter_offers info.sender ≡ some offer
    pub released : released_debt (flatten s.outstanding_debt) offer.liquidity_coin ≡ ok debt
    pub sent : r.messages ≡ refund (info.sender, offer) ∷ []
    pub stored : s' ≡ record s {
      outstanding_debt = some debt;
      counter_offers = offer_map.remove s.counter_offers info.sender;
    }

  pub cancel-IsCancelled :
      (r : Response) (s' : Storage M) → cancel env info s ≡ ok (r, s') → IsCancelled r s'
  unfolding cancel release_outstanding_debt
  cancel-IsCancelled r s' h = bind-ok (load s.open_interest) _ h λ stored is_stored h1.
      bind-ok (ok_or stored no_open_interest) _ h1 λ active is_active h2.
        bind-ok
          (ok_or (offer_map.may_load s.counter_offers info.sender)
            (counter_offer_not_found info.sender))
          _ h2
          λ offer found h3.
            bind-ok (release_outstanding_debt s offer.liquidity_coin) _ h3
              λ released is_released h4.
                bind-ok (released_debt (flatten s.outstanding_debt) offer.liquidity_coin) _
                  is_released
                  λ debt is_debt h5. record {
                    active = active;
                    offer = offer;
                    debt = debt;
                    requested = ground arith;
                    found = ground arith;
                    released = is_debt;
                    sent = ground arith;
                    stored = ground arith;
                  }

  -- And what suffices for it.
  pub cancel_succeeds :
      (active offer : OpenInterest) (debt : Option Coin)
      → s.open_interest ≡ some (some active)
      → offer_map.may_load s.counter_offers info.sender ≡ some offer
      → released_debt (flatten s.outstanding_debt) offer.liquidity_coin ≡ ok debt
      → cancel env info s
        ≡ ok (
          cancel_response info.sender offer,
          record s {
            outstanding_debt = some debt;
            counter_offers = offer_map.remove s.counter_offers info.sender;
          },
        )
  unfolding cancel release_outstanding_debt
  cancel_succeeds active offer debt requested found released = ground arith
