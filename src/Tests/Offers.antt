-- ===== src/Tests/Offers.antt =====
-- Counter offers on a request: proposals, evictions, cancellations, acceptances.
use wasm_vault.Prelude.{◌+◌, ◌≡◌, refl, none, some, [], ◌∷◌, map, arith}
use wasm_vault.BTreeMap
use wasm_vault.BTreeMap.{remove}
use wasm_vault.Types.{Response, respond, attr, text, num, MessageInfo}
use wasm_vault.Errors.{ok}
use wasm_vault.Uint.{fits, checked_add, checked_sub, add_u256, increment_u8}
use wasm_vault.OpenInterest.Lending.{refund, received_funds, add_amounts}
use wasm_vault.CounterOffer.Helpers
use wasm_vault.CounterOffer.Propose.{propose, evict}
use wasm_vault.CounterOffer.Accept.{accept}
use wasm_vault.CounterOffer.Cancel.{cancel, cancel_response}
use wasm_vault.Escrow.Counting.{amount_in, sent_in, escrow_of}
use wasm_vault.Escrow.Offers.{cancel-conserves, propose-conserves}
use wasm_vault.Escrow.Roundtrip.{propose-cancel, propose-accept}
use wasm_vault.Tests.Fixtures.{
  listed, Vault, coin, chain, at_time, from, asking, requested, requested-IsConsistent,
}

abbrev cat : MessageInfo
cat = from "cat" (coin 700 "uusd" ∷ [])

-- The request with a third offer.
abbrev proposed : Vault
proposed = record requested {
  counter_offers = ("ann", asking 900) ∷ ("bob", asking 800) ∷ ("cat", asking 700) ∷ [];
  outstanding_debt = some (some (coin 2400 "uusd"));
}

abbrev proposal : Response
proposal = respond [] (
    attr "action" (text "propose_counter_offer")
    ∷ attr "proposer" (text "cat")
    ∷ attr "liquidity_amount" (num 700)
    ∷ [])

propose_run : propose (at_time 5) cat (asking 700) requested ≡ ok (proposal, proposed)
unfolding propose evict Helpers.validate_counter_offer Helpers.validate_counter_offer_escrow
    received_funds add_amounts add_u256 Helpers.determine_eviction_candidate
    Helpers.snapshot_counter_offer_capacity Helpers.worst_offer increment_u8 fits Helpers.evict_from
    Helpers.add_outstanding_debt Helpers.added_debt checked_add BTreeMap.get BTreeMap.insert
propose_run = refl

propose-conserves_example :
    (amount_in "uusd" (coin 700 "uusd" ∷ []) ≡ 700)
    × (escrow_of proposed + sent_in "uusd" proposal.messages
        ≡ escrow_of requested + amount_in "uusd" (coin 700 "uusd" ∷ []))
propose-conserves_example =
    propose-conserves requested proposed proposal (at_time 5) cat (asking 700) (asking 1000)
      requested-IsConsistent refl propose_run

abbrev pub bob : MessageInfo
bob = from "bob" []

abbrev pub cancelled : Vault
cancelled = record requested {
  counter_offers = ("ann", asking 900) ∷ [];
  outstanding_debt = some (some (coin 900 "uusd"));
}

pub cancel_run :
    cancel (at_time 6) bob requested ≡ ok (cancel_response "bob" (asking 800), cancelled)
unfolding cancel Helpers.release_outstanding_debt Helpers.released_debt checked_sub BTreeMap.get
    BTreeMap.remove
cancel_run = refl

cancel-conserves_example :
    ((cancel_response "bob" (asking 800)).messages ≡ refund ("bob", asking 800) ∷ [])
    × (escrow_of cancelled + 800 ≡ escrow_of requested)
    × (cancelled.counter_offers ≡ remove "bob" requested.counter_offers)
unfolding BTreeMap.get
cancel-conserves_example =
    cancel-conserves requested cancelled (cancel_response "bob" (asking 800)) (at_time 6) bob
      (asking 800) refl refl cancel_run

propose-cancel_example :
    (back : Response) × (final : Vault) × (cancel (at_time 6) cat proposed ≡ ok (back, final))
    × (back.messages ≡ refund ("cat", asking 700) ∷ [])
    × (final.counter_offers ≡ requested.counter_offers)
    × (final.outstanding_debt ≡ requested.outstanding_debt)
    × (final.open_interest ≡ requested.open_interest)
    × (final.lender ≡ requested.lender)
propose-cancel_example =
    propose-cancel requested proposed proposal (at_time 5) (at_time 6) cat (asking 700)
      requested-IsConsistent (omega arith) propose_run

propose-accept_example :
    (taken : Response) × (final : Vault) × (accept
        (chain 700)
        (at_time 6)
        (from "owner" [])
        "cat"
        (asking 700)
        proposed
      ≡ ok (taken, final))
    × (taken.messages ≡ map refund requested.counter_offers)
    × (final.lender ≡ some (some "cat"))
    × (final.open_interest ≡ some (some (asking 700)))
    × (final.open_interest_expiry ≡ some (some 86_406_000_000_000))
    × (final.counter_offers ≡ [])
    × (final.outstanding_debt ≡ some none)
propose-accept_example =
    propose-accept requested proposed proposal (at_time 5) (at_time 6) cat (asking 700)
      requested-IsConsistent (omega arith) propose_run (chain 700) (from "owner" [])
      86_406_000_000_000 refl refl refl
