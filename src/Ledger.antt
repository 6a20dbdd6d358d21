-- ===== src/Ledger.antt =====
-- The vault among the coins that it holds: what the chain does around a call of src/contract/execute.rs.
-- The funds of a message are the vault's before the handler runs, the messages of its response are
-- carried out in their order, and the transaction is undone where one of them cannot be.
pub mod Delivery
pub mod Outlays
pub mod Handlers
pub mod Solvency
pub mod Refunds
pub mod Settling
use wasm_vault.Prelude.{
  ℕ, ◌+◌, ◌-◌, ◌≡◌, Option, none, some, List, [], ◌∷◌, String, str_eq, ltb, if◌then◌else◌,
}
use wasm_vault.Types.{
  Addr, Coin, CosmosMsg, bank_send, staking_delegate, Response, MessageInfo, Env,
}
use wasm_vault.Errors.{Result, ok, err, panic}
use wasm_vault.Host.{answer}
use wasm_vault.Storage.{OfferMap, Storage}
use wasm_vault.Execute.{execute, Call}
use wasm_vault.Escrow.Counting.{amount_in}

-- The vault's balance of each denom.
abbrev pub Balance : Type 0
Balance = String → ℕ

abbrev pub credit : List Coin → Balance → Balance
credit coins balance = λ denom. balance denom + amount_in denom coins

abbrev pub debit : Coin → Balance → Balance
debit coin balance =
    λ denom. if str_eq coin.denom denom then balance denom - coin.amount else balance denom

-- Coins leave one after the other; one that is not covered stops them all.
unfoldable pub spend : List Coin → Balance → Option Balance
spend [] balance = some balance
spend (coin ∷ coins) balance =
    let rest = spend coins (debit coin balance) in
    if ltb (balance coin.denom) coin.amount then none else rest

abbrev returned : Balance → Option Balance → Option Balance
returned balance none = none
returned balance (some left) = some balance

-- What a message takes out. A payment to the vault itself comes back.
unfoldable pub outlay : Addr → CosmosMsg → Balance → Option Balance
outlay vault (bank_send to_address coins) balance =
    let spent = spend coins balance in
    if str_eq to_address vault then returned balance spent else spent
outlay vault (staking_delegate validator coin) balance = spend (coin ∷ []) balance
outlay vault _ balance = some balance

-- `gains` is what the chain pays out with a message: the staking module pays rewards with every change
-- of a delegation.
unfoldable pub deliver : Addr → (CosmosMsg → Balance) → List CosmosMsg → Balance → Option Balance
deliver vault gains [] balance = some balance
deliver vault gains (message ∷ messages) balance = elim (outlay vault message balance) [
  | none ↦ none
  | some left ↦ deliver vault gains messages (λ denom. left denom + gains message denom)
]

pub record World (M : Type 0) : Type 0 where
  pub vault : Storage M
  pub balance : Balance

-- The chain answers a query of the vault's balances with what it holds, the funds of the call included.
abbrev pub IsTruthful : Call → Balance → Type 0
IsTruthful c balance =
    (denom : String)
    → c.host.query_balance c.env.contract_address denom
      ≡ answer (record { amount = credit c.info.funds balance denom; denom = denom })

module _ {M : Type 0} ⦃offer_map : OfferMap M⦄ where
  abbrev pub settle : World M → Storage M → Option Balance → World M
  settle w s' none = w
  settle w s' (some balance) = record { vault = s'; balance = balance }

  abbrev pub carry_out :
      Call → (CosmosMsg → Balance) → World M → Result (Response × Storage M) → World M
  carry_out c gains w (ok (r, s')) =
      settle w s' (deliver c.env.contract_address gains r.messages (credit c.info.funds w.balance))
  carry_out c gains w (err e) = w
  carry_out c gains w panic = w

  -- A transaction that calls the vault.
  unfoldable pub transact : Call → (CosmosMsg → Balance) → World M → World M
  transact c gains w = carry_out c gains w (execute c.host c.env c.info c.msg w.vault)

  -- What may happen: a call, by anyone, or coins that reach the vault otherwise (a deposit, stake that
  -- has come free).
  pub data Happens (w w' : World M) : Type 0 where
    called :
        (c : Call) (gains : CosmosMsg → Balance)
        → IsTruthful c w.balance
        → w' ≡ transact c gains w
        → Happens w w'
    received :
        (coins : List Coin) → w' ≡ record w { balance = credit coins w.balance } → Happens w w'

  pub data Evolves (w : World M) : World M → Type 0 where
    here : Evolves w w
    next : {t u : World M} → Evolves w t → Happens t u → Evolves w u
