-- ===== src/Withdraw/Bounds.antt =====
-- What a withdrawal, src/contract/withdraw.rs, may take and when it is paid.
use wasm_vault.Prelude.{
  ℕ, ◌+◌, ◌^◌, ◌<◌, ◌≤◌, ◌≡◌, ◌≢◌, ◌↔◌, String, Option, none, some, [], ◌∷◌, arith, ◌==◌, eq_iff,
  eq_refl, max,
}
use wasm_vault.Types.{Coin, OpenInterest, Env, MessageInfo, Response, bank_send}
use wasm_vault.Errors.{
  ok, panic, bind-ok, bind-panic, fail_if, fail_if-ne-panic, invalid_withdrawal_amount,
}
use wasm_vault.Uint.{try_u128_of_lt}
use wasm_vault.Host.{Host, answer, try-ne-panic}
use wasm_vault.Storage.{Storage}
use wasm_vault.Helpers.{require_owner, minimum_collateral_lock_for_denom}
use wasm_vault.Helpers.Lock.{minimum_collateral_lock-ne-panic}
use wasm_vault.Withdraw.{
  execute, available_to_withdraw, debt_requirement, recipient_or, withdraw_response,
}

module _ {M : Type 0} (host : Host) (env : Env) (denom : String) (s : Storage M)
    (terms : Option OpenInterest) where
  -- A withdrawal that succeeds is the owner's, is of more than nothing, leaves the balance at or
  -- above the debt in its denom and also at or above the collateral lock, changes no state and sends
  -- one payment of the amount asked for to the recipient, or to the owner where none is named.
  pub execute-leaves-requirements :
      (debt : Option Coin) (balance : Coin) (lock : ℕ)
      → s.outstanding_debt ≡ some debt
      → s.open_interest ≡ some terms
      → host.query_balance env.contract_address denom ≡ answer balance
      → minimum_collateral_lock_for_denom host env denom terms ≡ ok lock
      → (info : MessageInfo) (amount : ℕ) (recipient : Option String) (to : String)
      → recipient_or host recipient info.sender ≡ ok to
      → (r : Response) (s' : Storage M)
      → execute host env info denom amount recipient s ≡ ok (r, s')
      → (s.owner ≡ some info.sender)
        × (0 < amount)
        × (debt_requirement debt denom + amount ≤ balance.amount)
        × (lock + amount ≤ balance.amount)
        × (s' ≡ s)
        × (r.messages ≡ bank_send to (record { amount = amount; denom = denom } ∷ []) ∷ [])
  unfolding execute require_owner available_to_withdraw
  execute-leaves-requirements debt balance lock d t b l info amount recipient to to-eq r s' h =
      bind-ok (require_owner s info) _ h
        λ owner owner-eq h1. ground (arith, ◌==◌, eq_iff info.sender owner)

  -- Where the chain answers, and the named recipient's address is valid or none is named, a withdrawal
  -- succeeds, with one payment to the recipient (the owner where none is named) and the state as it was,
  -- exactly when it is the owner's, of more than nothing, and together with the larger of the debt in its
  -- denom and the collateral lock stays within the balance.
  pub withdrawal_iff :
      (debt : Option Coin) (balance : Coin) (lock : ℕ)
      → s.outstanding_debt ≡ some debt
      → s.open_interest ≡ some terms
      → host.query_balance env.contract_address denom ≡ answer balance
      → minimum_collateral_lock_for_denom host env denom terms ≡ ok lock
      → (info : MessageInfo) (amount : ℕ) (recipient : Option String) (to : String)
      → recipient_or host recipient info.sender ≡ ok to
      → (execute host env info denom amount recipient s ≡ ok (withdraw_response denom amount to, s))
        ↔ ((s.owner ≡ some info.sender)
            × (0 < amount)
            × (amount + max (debt_requirement debt denom) lock ≤ balance.amount))
  unfolding execute require_owner available_to_withdraw
  withdrawal_iff debt balance lock d t b l info amount recipient to named = (
    λ h.
        let left =
          execute-leaves-requirements debt balance lock d t b l info amount recipient to named
            (withdraw_response denom amount to) s h in
        (left.0, left.1, omega (arith, left)),
    λ h. ground (arith, h, named, eq_refl info.sender),
  )

  require_owner-ne-panic : (info : MessageInfo) → require_owner s info ≢ panic
  unfolding require_owner
  require_owner-ne-panic info h = ground arith

  recipient_or-ne-panic :
      (recipient : Option String) (owner : String) → recipient_or host recipient owner ≢ panic
  recipient_or-ne-panic none owner h = ground arith
  recipient_or-ne-panic (some addr) owner h = try-ne-panic (host.addr_validate addr) h

  available_to_withdraw-ne-panic :
      s.open_interest ≡ some terms → available_to_withdraw host env denom s ≢ panic
  unfolding available_to_withdraw
  available_to_withdraw-ne-panic i h = ground (
    arith,
    try-ne-panic (host.query_balance env.contract_address denom),
    minimum_collateral_lock-ne-panic host env denom terms,
  )

  available_to_withdraw-le :
      (balance : Coin) (available : ℕ)
      → host.query_balance env.contract_address denom ≡ answer balance
      → available_to_withdraw host env denom s ≡ ok available
      → available ≤ balance.amount
  unfolding available_to_withdraw
  available_to_withdraw-le balance available b h = ground arith

  -- A withdrawal never panics where the amount asked for and the balance fit 128 bits, and an open
  -- interest, or its absence, has been stored.
  pub execute-ne-panic :
      (balance : Coin)
      → s.open_interest ≡ some terms
      → host.query_balance env.contract_address denom ≡ answer balance
      → balance.amount < 2 ^ 128
      → (info : MessageInfo) (amount : ℕ) (recipient : Option String) → amount < 2 ^ 128
      → execute host env info denom amount recipient s ≢ panic
  unfolding execute
  execute-ne-panic balance i b b-lt info amount recipient a-lt h =
      bind-panic (require_owner s info) _ h (require_owner-ne-panic info) λ owner _ h1.
        bind-panic (fail_if (amount == 0) invalid_withdrawal_amount) _ h1 (fail_if-ne-panic _ _)
          λ _ _ h2.
            bind-panic (available_to_withdraw host env denom s) _ h2
              (available_to_withdraw-ne-panic i)
              λ available available-eq h3. ground (
                arith,
                available_to_withdraw-le balance available b available-eq,
                try_u128_of_lt amount a-lt,
                try_u128_of_lt available,
                recipient_or-ne-panic recipient owner,
              )
