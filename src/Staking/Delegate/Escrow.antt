-- ===== src/Staking/Delegate/Escrow.antt =====
-- What a delegation, src/contract/staking/delegate.rs, leaves in the vault.
use wasm_vault.Prelude.{
  ℕ, ◌+◌, ◌<◌, ◌≤◌, ◌≡◌, String, Option, ◌⊎◌, inl, inr, flatten, Option-cases, ◌↔◌, is_some, true,
  ◌==◌, none, some, [], ◌∷◌, arith, eq_iff, eq_refl,
}
use wasm_vault.Types.{
  Coin, Addr, Env, MessageInfo, Response, respond, attr, text, num, staking_delegate,
}
use wasm_vault.Errors.{ok, invalid_delegation_amount, fail_if, bind-ok}
use wasm_vault.Host.{Host, answer, try}
use wasm_vault.Storage.{OfferMap, Storage}
use wasm_vault.Helpers.{require_owner}
use wasm_vault.Withdraw.{debt_requirement}
use wasm_vault.Invariant.Defs.{IsConsistent}
use wasm_vault.Staking.Delegate.{execute, reserved_debt_for_denom}

module _ {M : Type 0} (host : Host) (env : Env) (s : Storage M) (debt : Coin) where
  -- Where a debt in the bonded denom is recorded, a delegation that succeeds is the owner's, on a
  -- request that no lender has funded, and leaves the debt, the escrow of the counter offers, in the
  -- balance. It changes no state and sends one delegation of the amount asked for.
  pub execute-keeps-escrow :
      (balance : Coin) (validator_addr : Addr)
      → s.outstanding_debt ≡ some (some debt)
      → host.query_bonded_denom ≡ answer debt.denom
      → host.query_balance env.contract_address debt.denom ≡ answer balance
      → (info : MessageInfo) (validator : String) (amount : ℕ)
      → host.addr_validate validator ≡ answer validator_addr
      → (r : Response) (s' : Storage M) → execute host env info validator amount s ≡ ok (r, s')
      → (s.owner ≡ some info.sender)
        × (0 < amount)
        × (s.lender ≡ some none)
        × (debt.amount + amount ≤ balance.amount)
        × (s' ≡ s)
        × (r.messages
            ≡ staking_delegate validator_addr (record { amount = amount; denom = debt.denom }) ∷ [])
  unfolding execute require_owner reserved_debt_for_denom
  execute-keeps-escrow balance validator_addr d n b info validator amount v r s' h =
      bind-ok (require_owner s info) _ h
        λ owner owner-eq h1. ground (arith, eq_iff info.sender owner, eq_refl debt.denom)

module _ {M : Type 0} ⦃offer_map : OfferMap M⦄ (s : Storage M) (denom : String) where
  -- The part of the debt that is in this denom.
  abbrev pub debt_in : ℕ
  debt_in = debt_requirement (flatten s.outstanding_debt) denom

  -- No lender is owed anything in this denom.
  abbrev pub IsUnowed : Type 0
  IsUnowed = (debt_in ≡ 0) ⊎ (s.lender ≡ some none)

  reserved-eq_ok : (n : ℕ) → reserved_debt_for_denom s denom ≡ ok n → (n ≡ debt_in) × IsUnowed
  unfolding reserved_debt_for_denom
  reserved-eq_ok n h = elim (Option-cases (flatten s.lender)) [
    | inl unlent ↦ ground (arith, eq_refl denom)
    | inr (lender, lent) ↦ ground (arith, eq_refl denom)
  ]

  reserved_of_unowed : IsConsistent s → IsUnowed → reserved_debt_for_denom s denom ≡ ok debt_in
  unfolding reserved_debt_for_denom
  reserved_of_unowed v (inl nothing) = ground (arith, v.phase, v.saved, eq_refl denom)
  reserved_of_unowed v (inr unlent) = ground (arith, v.phase, v.saved, eq_refl denom)

  -- One delegation of the amount, with the attributes of the answer.
  abbrev pub delegated : Addr → ℕ → Response
  delegated validator_addr amount =
      respond (staking_delegate validator_addr (record { amount = amount; denom = denom }) ∷ []) (
        attr "action" (text "delegate")
        ∷ attr "validator" (text validator_addr)
        ∷ attr "denom" (text denom)
        ∷ attr "amount" (num amount)
        ∷ [])

  -- Of a consistent vault, where the chain answers: a delegation succeeds, sending one delegation of the
  -- amount and changing no state, exactly when it is the owner's, of more than nothing, to a validator
  -- that the chain knows, no lender is owed a debt in the bonded denom, and the balance covers it on top
  -- of the debt in that denom.
  pub delegation_iff :
      IsConsistent s
      → (host : Host) (env : Env) (info : MessageInfo) (validator : String) (amount : ℕ)
        (validator_addr : Addr) (balance : Coin) (known : Option String)
      → host.query_bonded_denom ≡ answer denom
      → host.query_balance env.contract_address denom ≡ answer balance
      → host.addr_validate validator ≡ answer validator_addr
      → host.query_validator validator_addr ≡ answer known
      → (execute host env info validator amount s ≡ ok (delegated validator_addr amount, s)) ↔ (
          (s.owner ≡ some info.sender)
          × (0 < amount)
          × (is_some known ≡ true)
          × (debt_in + amount ≤ balance.amount)
          × IsUnowed)
  unfolding execute require_owner
  delegation_iff v host env info validator amount validator_addr balance known b q a k = (
    λ h. bind-ok (require_owner s info) _ h λ owner owned h1.
        bind-ok (fail_if (amount == 0) invalid_delegation_amount) _ h1 λ _ positive h2.
          bind-ok (try (host.addr_validate validator)) _ h2 λ addr named h3.
            bind-ok (try host.query_bonded_denom) _ h3 λ bonded answered h4.
              bind-ok (reserved_debt_for_denom s bonded) _ h4 λ reserved found h5.
                let debt = reserved-eq_ok reserved (ground (arith, answered, found)) in
                (
                  ground (arith, eq_iff info.sender owner),
                  ground arith,
                  ground (arith, named, answered, h5),
                  ground (arith, named, answered, h5, debt),
                  debt.1,
                ),
    λ (caller, positive, is_known, covered, unowed).
        ground (arith, caller, is_known, covered, reserved_of_unowed v unowed, eq_refl info.sender),
  )
