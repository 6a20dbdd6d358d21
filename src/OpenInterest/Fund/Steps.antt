-- ===== src/OpenInterest/Fund/Steps.antt =====
-- What a funding that succeeds has passed, and what it leaves.
use wasm_vault.Prelude.{ℕ, ◌≡◌, not, none, some, map, is_some, arith}
use wasm_vault.Types.{OpenInterest, open_interest_eq, Env, MessageInfo, Response}
use wasm_vault.Types.Equality.{open_interest_eq→eq}
use wasm_vault.Errors.{
  ok, ok_or, fail_if, no_open_interest, lender_already_set, open_interest_mismatch, bind-ok,
}
use wasm_vault.Host.{Host}
use wasm_vault.Storage.{OfferMap, Storage, load}
use wasm_vault.OpenInterest.Lending.{refund, validate_liquidity_funding}
use wasm_vault.OpenInterest.Fund.{fund}

module _ {M : Type 0} ⦃offer_map : OfferMap M⦄ (host : Host) (env : Env) (info : MessageInfo)
    (terms : OpenInterest) (s : Storage M) where
  pub record IsFunded (r : Response) (s' : Storage M) : Type 0 where
    pub expiry : ℕ
    pub requested : s.open_interest ≡ some (some terms)
    pub unfunded : s.lender ≡ some none
    pub paid : validate_liquidity_funding info terms.liquidity_coin ≡ ok tt
    pub expires : host.plus_seconds env.time terms.expiry_duration ≡ ok expiry
    pub sent : r.messages ≡ map refund (offer_map.range s.counter_offers)
    pub stored : s' ≡ record s {
      lender = some (some info.sender);
      open_interest_expiry = some (some expiry);
      counter_offers = offer_map.clear s.counter_offers;
      outstanding_debt = some none;
    }

  pub fund-IsFunded :
      (r : Response) (s' : Storage M) → fund host env info terms s ≡ ok (r, s') → IsFunded r s'
  unfolding fund
  fund-IsFunded r s' h = bind-ok (load s.open_interest) _ h λ stored is_stored h1.
      bind-ok (ok_or stored no_open_interest) _ h1 λ active is_active h2.
        bind-ok (load s.lender) _ h2 λ present is_present h3.
          bind-ok (fail_if (is_some present) lender_already_set) _ h3 λ _ unfunded h4.
            bind-ok (fail_if (not (open_interest_eq active terms)) open_interest_mismatch) _ h4
              λ _ agreed h5.
                bind-ok (validate_liquidity_funding info active.liquidity_coin) _ h5 λ _ paid h6.
                  bind-ok (host.plus_seconds env.time active.expiry_duration) _ h6
                    λ expiry expires h7.
                      let same : active ≡ terms = open_interest_eq→eq active terms (ground arith) in
                      record {
                        expiry = expiry;
                        requested = ground arith;
                        unfunded = ground arith;
                        paid = ground arith;
                        expires = ground arith;
                        sent = ground arith;
                        stored = ground arith;
                      }
