-- ===== src/Agreement/Book.antt =====
-- The stored counter offers as a book.
use wasm_vault.Prelude.{
  ◌≡◌, String, none, List, map, str_eq, if◌then◌else◌, arith, eq_iff, Bool-cases, inl, inr,
}
use wasm_vault.BTreeMap
use wasm_vault.BTreeMap.{get, remove, insert, IsAscending, BTreeMap}
use wasm_vault.Types.{Addr, OpenInterest, CosmosMsg}
use wasm_vault.Storage.{OfferMap, Storage}
use wasm_vault.OpenInterest.Lending.{refund}
use wasm_vault.Invariant.Defs.{IsConsistent}
use wasm_vault.Agreement.{entered, struck, book_of, Refunds}

get-remove :
    {V : Type 0} (k q : String) (m : BTreeMap V)
    → IsAscending m
    → get q (remove k m) ≡ (if str_eq q k then none else get q m)
get-remove k q m ascending = elim (Bool-cases (str_eq q k)) [
  | inl same ↦ ground (arith, same, eq_iff q k, BTreeMap.get-remove_self k m ascending)
  | inr other ↦ ground (arith, other, BTreeMap.get-remove_ne k q m)
]

module _ {M : Type 0} ⦃offer_map : OfferMap M⦄ where
  pub may_load-save :
      (m : M) (k : Addr) (offer : OpenInterest) (q : Addr)
      → offer_map.may_load (offer_map.save m k offer) q ≡ entered k offer (offer_map.may_load m) q
  may_load-save m k offer q = ground (
    arith,
    offer_map.may_load_lem (offer_map.save m k offer) q,
    offer_map.may_load_lem m q,
    offer_map.range-save m k offer,
    BTreeMap.get-insert k q offer (offer_map.range m),
  )

  pub may_load-remove :
      (m : M) (k q : Addr)
      → IsAscending (offer_map.range m)
      → offer_map.may_load (offer_map.remove m k) q ≡ struck k (offer_map.may_load m) q
  may_load-remove m k q ascending = ground (
    arith,
    offer_map.may_load_lem (offer_map.remove m k) q,
    offer_map.may_load_lem m q,
    offer_map.range-remove m k,
    get-remove k q (offer_map.range m) ascending,
  )

  pub may_load-clear : (m : M) (q : Addr) → offer_map.may_load (offer_map.clear m) q ≡ none
  unfolding get
  may_load-clear m q =
      ground (arith, offer_map.may_load_lem (offer_map.clear m) q, offer_map.range-clear m)

  pub all-Refunds :
      (s : Storage M) (messages : List CosmosMsg)
      → IsConsistent s
      → messages ≡ map refund (offer_map.range s.counter_offers)
      → Refunds (book_of s) messages
  all-Refunds s messages v paid = record {
    offers = offer_map.range s.counter_offers;
    ordered = v.ascending;
    listed = λ q. ground (arith, offer_map.may_load_lem s.counter_offers q);
    paid = paid;
  }

  pub other-Refunds :
      (s : Storage M) (messages : List CosmosMsg) (k : Addr)
      → IsConsistent s
      → messages ≡ map refund (remove k (offer_map.range s.counter_offers))
      → Refunds (struck k (book_of s)) messages
  other-Refunds s messages k v paid = record {
    offers = remove k (offer_map.range s.counter_offers);
    ordered = BTreeMap.remove-IsAscending k (offer_map.range s.counter_offers) v.ascending;
    listed = λ q. ground (
      arith,
      offer_map.may_load_lem s.counter_offers q,
      get-remove k q (offer_map.range s.counter_offers) v.ascending,
    );
    paid = paid;
  }
