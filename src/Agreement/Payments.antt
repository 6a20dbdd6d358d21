-- ===== src/Agreement/Payments.antt =====
-- What the refunds of a book pay to one address.
use wasm_vault.Prelude.{
  ℕ, ◌≡◌, refl, String, Option, none, some, List, [], ◌∷◌, map, sum_of, str_eq, eq_iff, eq_refl,
  if◌then◌else◌, arith, All,
}
use wasm_vault.BTreeMap
use wasm_vault.BTreeMap.{get, IsAscending}
use wasm_vault.Types.{Addr, OpenInterest, CosmosMsg, bank_send}
use wasm_vault.OpenInterest.Lending.{refund}
use wasm_vault.CounterOffer.Helpers.{Offer}
use wasm_vault.Escrow.Counting.{amount_in}
use wasm_vault.Agreement.{Book, Refunds}

-- What a message pays to the address, in the denom.
abbrev pub payment : Addr → String → CosmosMsg → ℕ
payment k denom (bank_send to_address coins) =
    if str_eq to_address k then amount_in denom coins else 0
payment k denom _ = 0

abbrev pub paid_to : Addr → String → List CosmosMsg → ℕ
paid_to k denom = sum_of (payment k denom)

-- What an offer holds, if there is one.
abbrev pub held_by : Option OpenInterest → ℕ
held_by none = 0
held_by (some offer) = offer.liquidity_coin.amount

-- The offers of the book are in the denom.
abbrev pub HasDenom : String → Book → Type 0
HasDenom denom book =
    (q : Addr) (offer : OpenInterest) → book q ≡ some offer → offer.liquidity_coin.denom ≡ denom

module _ (denom : String) where
  abbrev HaveDenom : List Offer → Type 0
  HaveDenom = All (λ (o : Offer). o.1.liquidity_coin.denom ≡ denom)

  get-HaveDenom : (m : List Offer) → IsAscending m → HasDenom denom (λ q. get q m) → HaveDenom m
  unfolding get
  get-HaveDenom [] ascending f = tt
  get-HaveDenom ((k, o) ∷ m) ascending f = (
    f k o (ground (arith, eq_refl k)),
    get-HaveDenom m ascending.1 (λ q offer found.
        f q offer (ground (arith, found, eq_iff q k, BTreeMap.get_below k m ascending.0))),
  )

  paid_to-refunds :
      (k : Addr) (m : List Offer)
      → IsAscending m
      → HaveDenom m
      → paid_to k denom (map refund m) ≡ held_by (get k m)
  unfolding get
  paid_to-refunds k [] ascending all = refl
  paid_to-refunds k ((j, o) ∷ m) ascending all = ground (
    arith,
    eq_iff j k,
    eq_iff k j,
    all.0,
    eq_refl denom,
    BTreeMap.get_below j m ascending.0,
    paid_to-refunds k m ascending.1 all.1,
  )

  -- The refunds of a book pay each address what its offer holds.
  pub Refunds-paid_to :
      (k : Addr) (book : Book) (messages : List CosmosMsg)
      → HasDenom denom book
      → Refunds book messages
      → paid_to k denom messages ≡ held_by (book k)
  Refunds-paid_to k book messages same f =
      let all =
        get-HaveDenom f.offers f.ordered
          (λ q offer found. same q offer (ground (arith, f.listed q, found))) in
      ground (arith, f.paid, f.listed k, paid_to-refunds k f.offers f.ordered all)
