-- ===== src/Agreement/Fairness.antt =====
-- Each address's coins in a request, over src/contract/open_interest/fund.rs, close.rs and
-- src/contract/counter_offer.
use wasm_vault.Prelude.{
  ℕ, ◌+◌, ◌≡◌, refl, sym, subst, String, none, some, List, str_eq, eq_iff, eq_refl, if◌then◌else◌,
  arith,
}
use wasm_vault.BTreeMap
use wasm_vault.BTreeMap.{get}
use wasm_vault.Types.{Addr, OpenInterest, CosmosMsg, ExecuteMsg, Env, MessageInfo, Response}
use wasm_vault.Errors.{ok}
use wasm_vault.Host.{Host}
use wasm_vault.Storage.{OfferMap, Storage}
use wasm_vault.Execute.{execute}
use wasm_vault.Invariant.Defs.{IsConsistent, IsOfferFor}
use wasm_vault.Invariant.Proposals.{IsConsistent-IsRequest}
use wasm_vault.Escrow.Counting.{amount_in}
use wasm_vault.Lifecycle.{IsNeutral}
use wasm_vault.Ledger.Settling.{PaysRefunds}
use wasm_vault.Agreement.{
  Book, struck, Deal, vacant, auction, loan, deal_of, Does, keeps, opens, proposes, outbids,
  cancels, closes, funds, accepts, repays, settles, pays_part,
}
use wasm_vault.Agreement.Payments.{paid_to, held_by, HasDenom, Refunds-paid_to}
use wasm_vault.Agreement.Refinement.{execute-Does}

-- What an address has in the agreement: its offer, or as the lender the liquidity of the loan.
abbrev pub stake : Deal → Addr → ℕ
stake vacant k = 0
stake (auction terms book) k = held_by (book k)
stake (loan terms lender expiry owed) k = if str_eq k lender then terms.liquidity_coin.amount else 0

-- What an address brings to it with a message.
abbrev pub brought : ExecuteMsg → MessageInfo → String → Addr → ℕ
brought (ExecuteMsg.propose_counter_offer terms) info denom k =
    if str_eq k info.sender then amount_in denom info.funds else 0
brought (ExecuteMsg.fund_open_interest terms) info denom k =
    if str_eq k info.sender then amount_in denom info.funds else 0
brought _ info denom k = 0

-- The coins of an agreement are in the denom.
abbrev IsPriced : String → Deal → Type 0
IsPriced denom vacant = Unit
IsPriced denom (auction terms book) = (terms.liquidity_coin.denom ≡ denom) × HasDenom denom book
IsPriced denom (loan terms lender expiry owed) = Unit

neutral_pays : (msg : ExecuteMsg) → IsNeutral msg → PaysRefunds msg → ⊥
neutral_pays (ExecuteMsg.fund_open_interest terms) n p = n
neutral_pays ExecuteMsg.close_open_interest n p = n
neutral_pays (ExecuteMsg.propose_counter_offer terms) n p = n
neutral_pays (ExecuteMsg.accept_counter_offer proposer terms) n p = n
neutral_pays ExecuteMsg.cancel_counter_offer n p = n
neutral_pays msg n p = p

struck-HasDenom :
    (denom : String) (j : Addr) (book : Book) → HasDenom denom book → HasDenom denom (struck j book)
struck-HasDenom denom j book same q offer found = same q offer (ground arith)

module _ (host : Host) (env : Env) (info : MessageInfo) (denom : String) (k : Addr) where
  Does-fair :
      {d d' : Deal} {msg : ExecuteMsg} {messages : List CosmosMsg}
      → Does host env info d msg messages d'
      → IsPriced denom d
      → PaysRefunds msg
      → paid_to k denom messages + stake d' k ≡ stake d k + brought msg info denom k
  Does-fair (keeps d msg messages n) priced p = absurd (neutral_pays msg n p)
  Does-fair (opens terms book empty) priced p = absurd p
  Does-fair (proposes terms offer book book' fits exact absent listed) priced p =
      ground (arith, listed k, absent, exact, priced.0, eq_iff k info.sender)
  Does-fair (outbids terms offer beaten j book book' fits exact absent found less listed) priced p =
      ground (
        arith,
        listed k,
        absent,
        found,
        exact,
        priced.0,
        priced.1 j beaten found,
        eq_iff k info.sender,
        eq_iff k j,
        eq_iff j k,
        eq_refl denom,
      )
  Does-fair (cancels terms offer book book' found listed) priced p = ground (
    arith,
    listed k,
    found,
    priced.1 info.sender offer found,
    eq_iff k info.sender,
    eq_iff info.sender k,
    eq_refl denom,
  )
  Does-fair (closes terms book messages f) priced p =
      ground (arith, Refunds-paid_to denom k book messages priced.1 f)
  Does-fair (funds terms book expiry messages exact time f) priced p =
      ground (arith, Refunds-paid_to denom k book messages priced.1 f, exact, priced.0)
  Does-fair (accepts terms offer book proposer j expiry messages valid found time f) priced p =
      ground (
        arith,
        Refunds-paid_to denom k (struck j book) messages (struck-HasDenom denom j book priced.1) f,
        found,
        eq_iff k j,
      )
  Does-fair (repays terms lender expiry coins paid) priced p = absurd p
  Does-fair (settles terms lender expiry owed messages time sent) priced p = absurd p
  Does-fair (pays_part terms lender expiry owed left messages time more sent) priced p = absurd p

module _ {M : Type 0} ⦃offer_map : OfferMap M⦄ (host : Host) (env : Env) (info : MessageInfo)
    (s s' : Storage M) (r : Response) where
  request-IsPriced :
      (active : OpenInterest)
      → IsConsistent s
      → s.open_interest ≡ some (some active)
      → s.lender ≡ some none
      → (q : Addr) (offer : OpenInterest) → offer_map.may_load s.counter_offers q ≡ some offer
      → offer.liquidity_coin.denom ≡ active.liquidity_coin.denom
  request-IsPriced active v asked unfunded q offer found =
      let all = (IsConsistent-IsRequest s active v asked unfunded).all in
      let stored : get q (offer_map.range s.counter_offers) ≡ some offer =
        ground (arith, found, offer_map.may_load_lem s.counter_offers q) in
      (BTreeMap.All-get (IsOfferFor active) q offer (offer_map.range s.counter_offers) all
        stored).same_denom

  -- Nobody loses or gains a coin by a request: over a proposal, an acceptance, a cancellation, a funding
  -- or a close that a consistent vault with a request takes, what is paid to an address in the denom of the
  -- liquidity, with what it has in the agreement afterwards (its offer, or as the lender the liquidity of
  -- the loan), is what it had in it and what it brought with a proposal or a funding.
  pub execute-fair :
      (active : OpenInterest) (msg : ExecuteMsg) (k : Addr)
      → IsConsistent s
      → s.open_interest ≡ some (some active)
      → s.lender ≡ some none
      → PaysRefunds msg
      → execute host env info msg s ≡ ok (r, s')
      → paid_to k active.liquidity_coin.denom r.messages + stake (deal_of s') k
        ≡ stake (deal_of s) k + brought msg info active.liquidity_coin.denom k
  execute-fair active msg k v asked unfunded p h =
      let denom = active.liquidity_coin.denom in
      let request : deal_of s ≡ auction active (offer_map.may_load s.counter_offers) =
        ground (arith, asked, unfunded) in
      Does-fair host env info denom k (execute-Does host env info s s' r v msg h)
        (subst (IsPriced denom) (sym request) (refl, request-IsPriced active v asked unfunded)) p
