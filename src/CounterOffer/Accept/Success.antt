-- ===== src/CounterOffer/Accept/Success.antt =====
-- When an acceptance succeeds, src/contract/counter_offer/accept.rs.
use wasm_vault.Prelude.{ℕ, ◌≡◌, String, some, none, arith, eq_refl}
use wasm_vault.Types.{Addr, OpenInterest, Env, MessageInfo}
use wasm_vault.Types.Equality.{open_interest_eq_refl}
use wasm_vault.Errors.{ok}
use wasm_vault.Host.{Host, answer}
use wasm_vault.Storage.{OfferMap, Storage}
use wasm_vault.Helpers.{require_owner}
use wasm_vault.CounterOffer.Accept.{accept, accept_response, other_offers}

module _ {M : Type 0} ⦃offer_map : OfferMap M⦄ (host : Host) (env : Env) (info : MessageInfo)
    (active offer : OpenInterest) (s : Storage M) where
  -- The owner of a request without a lender can accept any stored offer, named with its exact terms,
  -- where the expiry is a time that the chain can hold.
  pub accept_of_offer :
      (proposer : String) (lender : Addr) (expiry : ℕ)
      → s.owner ≡ some info.sender
      → s.open_interest ≡ some (some active)
      → s.lender ≡ some none
      → host.addr_validate proposer ≡ answer lender
      → offer_map.may_load s.counter_offers lender ≡ some offer
      → host.plus_seconds env.time offer.expiry_duration ≡ ok expiry
      → accept host env info proposer offer s
        ≡ ok (
          accept_response lender offer (other_offers lender (offer_map.range s.counter_offers)),
          record s {
            counter_offers = offer_map.clear s.counter_offers;
            open_interest = some (some offer);
            outstanding_debt = some none;
            lender = some (some lender);
            open_interest_expiry = some (some expiry);
          },
        )
  unfolding accept require_owner
  accept_of_offer proposer lender expiry o i l v f x =
      ground (arith, eq_refl info.sender, open_interest_eq_refl offer)
