-- ===== src/Ledger/Delivery.antt =====
-- What the delivery of messages leaves of a balance.
use wasm_vault.Prelude.{
  ℕ, ◌+◌, ◌≤◌, ◌≡◌, inl, inr, some, List, [], ◌∷◌, String, ltb, sum_of, arith, eq_iff, Option-cases,
  Bool-cases,
}
use wasm_vault.Types.{Addr, Coin, CosmosMsg, bank_send, staking_delegate}
use wasm_vault.Escrow.Counting.{amount_in}
use wasm_vault.Ledger.{Balance, debit, spend, outlay, deliver}

-- What a message can take out of the vault in the denom.
abbrev pub outgoing : String → CosmosMsg → ℕ
outgoing denom (bank_send to_address coins) = amount_in denom coins
outgoing denom (staking_delegate validator coin) = amount_in denom (coin ∷ [])
outgoing denom _ = 0

abbrev pub outgoing_in : String → List CosmosMsg → ℕ
outgoing_in denom = sum_of (outgoing denom)

module _ (denom : String) where
  spend-left :
      (coins : List Coin) (balance left : Balance)
      → spend coins balance ≡ some left
      → left denom + amount_in denom coins ≡ balance denom
  unfolding spend
  spend-left [] balance left h = ground arith
  spend-left (c ∷ coins) balance left h = elim (Bool-cases (ltb (balance c.denom) c.amount)) [
    | inl short ↦ absurd (ground arith)
    | inr enough ↦ ground (arith, eq_iff c.denom denom, spend-left coins (debit c balance) left)
  ]

  outlay-left :
      (vault : Addr) (message : CosmosMsg) (balance left : Balance)
      → outlay vault message balance ≡ some left
      → balance denom ≤ left denom + outgoing denom message
  unfolding outlay
  outlay-left vault (bank_send to_address coins) balance left h =
      elim (Option-cases (spend coins balance)) [
        | inl short ↦ absurd (ground arith)
        | inr (spent, found) ↦ ground (arith, spend-left coins balance spent found)
      ]
  outlay-left vault (staking_delegate validator coin) balance left h =
      ground (arith, spend-left (coin ∷ []) balance left h)
  outlay-left vault message balance left h = ground arith

  -- A delivery takes out no more than the messages name.
  pub deliver-left :
      (vault : Addr) (gains : CosmosMsg → Balance) (messages : List CosmosMsg)
      (balance left : Balance)
      → deliver vault gains messages balance ≡ some left
      → balance denom ≤ left denom + outgoing_in denom messages
  unfolding deliver
  deliver-left vault gains [] balance left h = ground arith
  deliver-left vault gains (m ∷ messages) balance left h =
      elim (Option-cases (outlay vault m balance)) [
        | inl short ↦ absurd (ground arith)
        | inr (rest, found) ↦
            let grown : Balance = λ d. rest d + gains m d in
            ground (
              arith,
              outlay-left vault m balance rest found,
              deliver-left vault gains messages grown left (ground arith),
            )
      ]
