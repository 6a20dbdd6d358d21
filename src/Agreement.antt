-- ===== src/Agreement.antt =====
-- What the messages of src/contract/execute.rs promise, without the stored items: an agreement between
-- the owner, the proposers and a lender. The offers are a function of the proposer, whatever the order
-- and the form in which they are kept.
pub mod Book
pub mod Payments
pub mod Steps
pub mod Requests
pub mod Offers
pub mod Loans
pub mod Refinement
pub mod Fairness
pub mod Histories
use wasm_vault.Prelude.{
  ℕ, ◌+◌, ◌<◌, ◌≤◌, ◌≡◌, String, Option, none, some, List, [], ◌∷◌, map, str_eq, flatten,
  if◌then◌else◌,
}
use wasm_vault.BTreeMap.{get, IsAscending}
use wasm_vault.Types.{Addr, Coin, OpenInterest, CosmosMsg, bank_send, ExecuteMsg, Env, MessageInfo}
use wasm_vault.Errors.{ok}
use wasm_vault.Host.{Host, answer}
use wasm_vault.Storage.{OfferMap, Storage}
use wasm_vault.OpenInterest.Lending.{refund}
use wasm_vault.OpenInterest.Terms.Repayment.{owed_coins}
use wasm_vault.CounterOffer.Helpers.{Offer}
use wasm_vault.Invariant.Defs.{IsOfferFor}
use wasm_vault.Invariant.Liquidations.{owed_or_collateral}
use wasm_vault.Escrow.Counting.{amount_in, sent_in}
use wasm_vault.Lifecycle.{IsNeutral}

abbrev pub Book : Type 0
Book = Addr → Option OpenInterest

abbrev pub entered : Addr → OpenInterest → Book → Book
entered k offer book = λ q. if str_eq q k then some offer else book q

abbrev pub struck : Addr → Book → Book
struck k book = λ q. if str_eq q k then none else book q

-- Nothing; a request with its offers; a loan with its lender, its expiry and what is owed of the
-- collateral if it is not repaid.
pub data Deal : Type 0 where
  vacant : Deal
  auction : OpenInterest → Book → Deal
  loan : OpenInterest → Addr → ℕ → ℕ → Deal

abbrev pub time_of : Option ℕ → ℕ
time_of none = 0
time_of (some time) = time

abbrev pub deal : Option OpenInterest → Option Addr → Option Coin → Option ℕ → Book → Deal
deal none lender debt expiry book = vacant
deal (some terms) none debt expiry book = auction terms book
deal (some terms) (some lender) debt expiry book =
    loan terms lender (time_of expiry) (owed_or_collateral debt terms)

module _ {M : Type 0} ⦃offer_map : OfferMap M⦄ where
  abbrev pub book_of : Storage M → Book
  book_of s = offer_map.may_load s.counter_offers

  abbrev pub deal_of : Storage M → Deal
  deal_of s =
      deal (flatten s.open_interest) (flatten s.lender) (flatten s.outstanding_debt)
        (flatten s.open_interest_expiry) (book_of s)

-- Every offer of the book is paid back once, in the order of the addresses.
pub record Refunds (book : Book) (messages : List CosmosMsg) : Type 0 where
  pub offers : List Offer
  pub ordered : IsAscending offers
  pub listed : (q : Addr) → get q offers ≡ book q
  pub paid : messages ≡ map refund offers

-- What a message that succeeds does to the agreement, and what it sends.
pub data Does (host : Host) (env : Env) (info : MessageInfo)
    : Deal → ExecuteMsg → List CosmosMsg → Deal → Type 0 where
  keeps :
      (d : Deal) (msg : ExecuteMsg) (messages : List CosmosMsg)
      → IsNeutral msg
      → Does host env info d msg messages d
  opens :
      (terms : OpenInterest) (book : Book)
      → ((q : Addr) → book q ≡ none)
      → Does host env info vacant (ExecuteMsg.open_interest terms) [] (auction terms book)
  proposes :
      (terms offer : OpenInterest) (book book' : Book)
      → IsOfferFor terms offer
      → amount_in terms.liquidity_coin.denom info.funds ≡ offer.liquidity_coin.amount
      → book info.sender ≡ none
      → ((q : Addr) → book' q ≡ entered info.sender offer book q)
      → Does host env info
          (auction terms book)
          (ExecuteMsg.propose_counter_offer offer)
          []
          (auction terms book')
  outbids :
      (terms offer beaten : OpenInterest) (k : Addr) (book book' : Book)
      → IsOfferFor terms offer
      → amount_in terms.liquidity_coin.denom info.funds ≡ offer.liquidity_coin.amount
      → book info.sender ≡ none
      → book k ≡ some beaten
      → beaten.liquidity_coin.amount < offer.liquidity_coin.amount
      → ((q : Addr) → book' q ≡ entered info.sender offer (struck k book) q)
      → Does host env info
          (auction terms book)
          (ExecuteMsg.propose_counter_offer offer)
          (refund (k, beaten) ∷ [])
          (auction terms book')
  cancels :
      (terms offer : OpenInterest) (book book' : Book)
      → book info.sender ≡ some offer
      → ((q : Addr) → book' q ≡ struck info.sender book q)
      → Does host env info
          (auction terms book)
          ExecuteMsg.cancel_counter_offer
          (refund (info.sender, offer) ∷ [])
          (auction terms book')
  closes :
      (terms : OpenInterest) (book : Book) (messages : List CosmosMsg)
      → Refunds book messages
      → Does host env info (auction terms book) ExecuteMsg.close_open_interest messages vacant
  funds :
      (terms : OpenInterest) (book : Book) (expiry : ℕ) (messages : List CosmosMsg)
      → amount_in terms.liquidity_coin.denom info.funds ≡ terms.liquidity_coin.amount
      → host.plus_seconds env.time terms.expiry_duration ≡ ok expiry
      → Refunds book messages
      → Does host env info
          (auction terms book)
          (ExecuteMsg.fund_open_interest terms)
          messages
          (loan terms info.sender expiry terms.collateral.amount)
  accepts :
      (terms offer : OpenInterest) (book : Book) (proposer : String) (k : Addr) (expiry : ℕ)
      (messages : List CosmosMsg)
      → host.addr_validate proposer ≡ answer k
      → book k ≡ some offer
      → host.plus_seconds env.time offer.expiry_duration ≡ ok expiry
      → Refunds (struck k book) messages
      → Does host env info
          (auction terms book)
          (ExecuteMsg.accept_counter_offer proposer offer)
          messages
          (loan offer k expiry offer.collateral.amount)
  repays :
      (terms : OpenInterest) (lender : Addr) (expiry : ℕ) (coins : List Coin)
      → ((d : String) → amount_in d coins ≡ amount_in d (owed_coins terms))
      → Does host env info
          (loan terms lender expiry terms.collateral.amount)
          ExecuteMsg.repay_open_interest
          (bank_send lender coins ∷ [])
          vacant
  settles :
      (terms : OpenInterest) (lender : Addr) (expiry owed : ℕ) (messages : List CosmosMsg)
      → expiry ≤ env.time
      → sent_in terms.collateral.denom messages ≡ owed
      → Does host env info
          (loan terms lender expiry owed)
          ExecuteMsg.liquidate_open_interest
          messages
          vacant
  pays_part :
      (terms : OpenInterest) (lender : Addr) (expiry owed left : ℕ) (messages : List CosmosMsg)
      → expiry ≤ env.time
      → 0 < left
      → sent_in terms.collateral.denom messages + left ≡ owed
      → Does host env info
          (loan terms lender expiry owed)
          ExecuteMsg.liquidate_open_interest
          messages
          (loan terms lender expiry left)
