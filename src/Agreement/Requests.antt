-- ===== src/Agreement/Requests.antt =====
-- The beginning and the end of a request, src/contract/open_interest/execute.rs, fund.rs and close.rs.
use wasm_vault.Prelude.{◌≡◌, refl, some, is_some, arith}
use wasm_vault.Types.{OpenInterest, ExecuteMsg, Env, MessageInfo, Response}
use wasm_vault.Errors.{ok, bind-ok, fail_if, ok_or, lender_already_set, no_open_interest}
use wasm_vault.Host.{Host}
use wasm_vault.Storage.{OfferMap, Storage, load}
use wasm_vault.Helpers.{require_owner}
use wasm_vault.OpenInterest.Execute as Opening
use wasm_vault.OpenInterest.Fund.Steps.{fund-IsFunded}
use wasm_vault.OpenInterest.Close.{close}
use wasm_vault.Execute.{execute}
use wasm_vault.Invariant.Defs.{IsConsistent}
use wasm_vault.Escrow.Endings.{fund-refunds, close-refunds}
use wasm_vault.Agreement.{deal_of, book_of, Does}
use wasm_vault.Agreement.Book.{may_load-clear, all-Refunds}
use wasm_vault.Agreement.Steps.{does}

module _ {M : Type 0} ⦃offer_map : OfferMap M⦄ (host : Host) (env : Env) (info : MessageInfo)
    (s s' : Storage M) (r : Response) (v : IsConsistent s) where
  abbrev DoesIt : ExecuteMsg → Type 0
  DoesIt msg = Does host env info (deal_of s) msg r.messages (deal_of s')

  pub open-Does :
      (terms : OpenInterest)
      → Opening.execute host env info terms s ≡ ok (r, s')
      → DoesIt (ExecuteMsg.open_interest terms)
  unfolding Opening.execute
  open-Does terms h =
      does host env info s s' r (ExecuteMsg.open_interest terms)
        (Does.opens terms (book_of s') (λ q. ground (arith, may_load-clear s.counter_offers q)))
        (ground arith) (ground arith) (ground (arith, v.phase))

  pub fund-Does :
      (terms : OpenInterest)
      → execute host env info (ExecuteMsg.fund_open_interest terms) s ≡ ok (r, s')
      → DoesIt (ExecuteMsg.fund_open_interest terms)
  unfolding execute
  fund-Does terms h =
      let f = fund-IsFunded host env info terms s r s' h in
      let exact = fund-refunds s s' r terms v f.requested host env info h in
      does host env info s s' r (ExecuteMsg.fund_open_interest terms)
        (Does.funds terms (book_of s) f.expiry r.messages exact.0 f.expires
          (all-Refunds s r.messages v f.sent))
        (ground (arith, f.requested, f.unfunded)) refl (ground (arith, f.requested, f.stored))

  pub close-Does :
      execute host env info ExecuteMsg.close_open_interest s ≡ ok (r, s')
      → DoesIt ExecuteMsg.close_open_interest
  unfolding execute close
  close-Does h = bind-ok (require_owner s info) _ h λ owner _ h1.
      bind-ok (load s.lender) _ h1 λ present is_present h2.
        bind-ok (fail_if (is_some present) lender_already_set) _ h2 λ _ free h3.
          bind-ok (load s.open_interest) _ h3 λ stored is_stored h4.
            bind-ok (ok_or stored no_open_interest) _ h4 λ active is_active h5.
              let asked : s.open_interest ≡ some (some active) = ground arith in
              let refunds = close-refunds s s' r active v asked info h in
              does host env info s s' r ExecuteMsg.close_open_interest
                (Does.closes active (book_of s) r.messages (all-Refunds s r.messages v refunds.1))
                (ground arith) refl (ground (arith, refunds.4))
