-- ===== src/Tests/Endings.antt =====
-- A request with two offers is funded, closed, or settled by one of the offers.
use wasm_vault.Prelude.{◌+◌, ◌≡◌, refl, none, some, [], ◌∷◌, ◌++◌, map}
use wasm_vault.BTreeMap
use wasm_vault.BTreeMap.{get, remove}
use wasm_vault.Types.{Response, respond, attr, text, num, MessageInfo}
use wasm_vault.Errors.{ok}
use wasm_vault.Uint.{fits, add_u256}
use wasm_vault.Helpers.{require_owner}
use wasm_vault.OpenInterest.Terms.{open_interest_attributes}
use wasm_vault.OpenInterest.Lending.{
  refund, received_funds, add_amounts, validate_liquidity_funding,
}
use wasm_vault.OpenInterest.Fund.{fund}
use wasm_vault.OpenInterest.Close.{close}
use wasm_vault.CounterOffer.Accept.{accept}
use wasm_vault.Invariant.Defs.{IsOfferFor}
use wasm_vault.Escrow.Counting.{amount_in, sent_in, escrow_of}
use wasm_vault.Escrow.Endings.{fund-refunds, close-refunds, accept-refunds}
use wasm_vault.Tests.Fixtures.{
  listed, Vault, coin, chain, at_time, from, asking, idle, requested, requested-IsConsistent,
}

abbrev leo : MessageInfo
leo = from "leo" (coin 1000 "uusd" ∷ coin 3 "ujuno" ∷ [])

abbrev funded : Vault
funded = record idle {
  open_interest = some (some (asking 1000));
  lender = some (some "leo");
  open_interest_expiry = some (some 86_500_000_000_000);
}

abbrev funding : Response
funding = respond (map refund requested.counter_offers) (
    open_interest_attributes "fund_open_interest" (asking 1000)
    ++ attr "lender" (text "leo") ∷ attr "refunded_offers" (num 2) ∷ [])

fund_run : fund (chain 500) (at_time 100) leo (asking 1000) requested ≡ ok (funding, funded)
unfolding fund validate_liquidity_funding received_funds add_amounts add_u256 fits
fund_run = refl

fund-refunds_example :
    (amount_in "uusd" leo.funds ≡ 1000)
    × (funded.lender ≡ some (some "leo"))
    × (funding.messages ≡ map refund requested.counter_offers)
    × (sent_in "uusd" funding.messages ≡ escrow_of requested)
    × (funded.counter_offers ≡ [])
    × (funded.outstanding_debt ≡ some none)
fund-refunds_example =
    fund-refunds requested funded funding (asking 1000) requested-IsConsistent refl (chain 500)
      (at_time 100) leo fund_run

abbrev owner : MessageInfo
owner = from "owner" []

abbrev closing : Response
closing =
    respond (map refund requested.counter_offers)
      (open_interest_attributes "close_open_interest" (asking 1000))

close_run : close owner requested ≡ ok (closing, idle)
unfolding close require_owner
close_run = refl

close-refunds_example :
    (requested.owner ≡ some "owner")
    × (closing.messages ≡ map refund requested.counter_offers)
    × (sent_in "uusd" closing.messages ≡ escrow_of requested)
    × (idle.counter_offers ≡ [])
    × (idle.open_interest ≡ some none)
    × (idle.outstanding_debt ≡ some none)
close-refunds_example =
    close-refunds requested idle closing (asking 1000) requested-IsConsistent refl owner close_run

abbrev accepted : Vault
accepted = record idle {
  open_interest = some (some (asking 800));
  lender = some (some "bob");
  open_interest_expiry = some (some 86_500_000_000_000);
}

abbrev acceptance : Response
acceptance = respond (refund ("ann", asking 900) ∷ []) (
    attr "action" (text "accept_counter_offer")
    ∷ attr "lender" (text "bob")
    ∷ attr "liquidity_amount" (num 800)
    ∷ attr "refunded_offers" (num 1)
    ∷ [])

accept_run :
    accept (chain 500) (at_time 100) owner "bob" (asking 800) requested ≡ ok (acceptance, accepted)
unfolding accept require_owner BTreeMap.get
accept_run = refl

accept-refunds_example :
    (get "bob" requested.counter_offers ≡ some (asking 800))
    × (acceptance.messages ≡ map refund (remove "bob" requested.counter_offers))
    × (sent_in "uusd" acceptance.messages + 800 ≡ escrow_of requested)
    × IsOfferFor (asking 1000) (asking 800)
    × (accepted.open_interest ≡ some (some (asking 800)))
    × (accepted.lender ≡ some (some "bob"))
    × (accepted.outstanding_debt ≡ some none)
    × (accepted.counter_offers ≡ [])
accept-refunds_example =
    accept-refunds requested accepted acceptance (asking 1000) requested-IsConsistent refl
      (chain 500) (at_time 100) owner "bob" (asking 800) "bob" refl accept_run
