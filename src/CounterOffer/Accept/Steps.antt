-- ===== src/CounterOffer/Accept/Steps.antt =====
-- What an accepted counter offer has passed, step by step.
use wasm_vault.Prelude.{ℕ, String, ◌≡◌, not, none, some, map, is_some, arith}
use wasm_vault.Types.{Addr, OpenInterest, open_interest_eq, Env, MessageInfo, Response}
use wasm_vault.Types.Equality.{open_interest_eq→eq}
use wasm_vault.Errors.{
  ok, ok_or, fail_if, no_open_interest, lender_already_set, counter_offer_not_found,
  counter_offer_mismatch, bind-ok,
}
use wasm_vault.Host.{Host, answer, try}
use wasm_vault.Storage.{OfferMap, Storage, load}
use wasm_vault.Helpers.{require_owner}
use wasm_vault.OpenInterest.Lending.{refund}
use wasm_vault.CounterOffer.Accept.{accept, other_offers}

module _ {M : Type 0} ⦃offer_map : OfferMap M⦄ (host : Host) (env : Env) (info : MessageInfo)
    (proposer : String) (terms : OpenInterest) (s : Storage M) where
  pub record IsAccepted (r : Response) (s' : Storage M) : Type 0 where
    pub active : OpenInterest
    pub owner : Addr
    pub lender : Addr
    pub expiry : ℕ
    pub authorised : require_owner s info ≡ ok owner
    pub requested : s.open_interest ≡ some (some active)
    pub unfunded : s.lender ≡ some none
    pub validated : host.addr_validate proposer ≡ answer lender
    pub found : offer_map.may_load s.counter_offers lender ≡ some terms
    pub expires : host.plus_seconds env.time terms.expiry_duration ≡ ok expiry
    pub sent : r.messages ≡ map refund (other_offers lender (offer_map.range s.counter_offers))
    pub stored : s' ≡ record s {
      counter_offers = offer_map.clear s.counter_offers;
      open_interest = some (some terms);
      outstanding_debt = some none;
      lender = some (some lender);
      open_interest_expiry = some (some expiry);
    }

  pub accept-IsAccepted :
      (r : Response) (s' : Storage M)
      → accept host env info proposer terms s ≡ ok (r, s')
      → IsAccepted r s'
  unfolding accept
  accept-IsAccepted r s' h = bind-ok (require_owner s info) _ h λ owner authorised h1.
      bind-ok (load s.open_interest) _ h1 λ stored is_stored h2.
        bind-ok (ok_or stored no_open_interest) _ h2 λ active is_active h3.
          bind-ok (load s.lender) _ h3 λ present is_present h4.
            bind-ok (fail_if (is_some present) lender_already_set) _ h4 λ _ unfunded h5.
              bind-ok (try (host.addr_validate proposer)) _ h5 λ lender validated h6.
                bind-ok
                  (ok_or (offer_map.may_load s.counter_offers lender)
                    (counter_offer_not_found proposer))
                  _ h6
                  λ offer found h7.
                    bind-ok
                      (fail_if (not (open_interest_eq offer terms))
                        (counter_offer_mismatch proposer))
                      _ h7
                      λ _ agreed h8.
                        bind-ok (host.plus_seconds env.time offer.expiry_duration) _ h8
                          λ expiry expires h9.
                            let same : offer ≡ terms =
                              open_interest_eq→eq offer terms (ground arith) in
                            record {
                              active = active;
                              owner = owner;
                              lender = lender;
                              expiry = expiry;
                              authorised = authorised;
                              requested = ground arith;
                              unfunded = ground arith;
                              validated = ground arith;
                              found = ground arith;
                              expires = ground arith;
                              sent = ground arith;
                              stored = ground arith;
                            }
