-- ===== src/Ledger/Outlays.antt =====
-- What the messages of the handlers take out, against the escrow of the counter offers.
use wasm_vault.Prelude.{
  ℕ, ◌+◌, ◌≤◌, ◌≡◌, refl, inl, inr, Option, none, some, List, [], ◌∷◌, map, String, flatten, arith,
  eq_iff,
}
use wasm_vault.Types.{
  Addr, Coin, OpenInterest, CosmosMsg, Env, MessageInfo, Response, VoteOption, WeightedVoteOption,
  withdraw_delegator_reward,
}
use wasm_vault.Errors.{ok, bind-ok}
use wasm_vault.Host.{Host, Delegation, answer, try, Reply-cases}
use wasm_vault.Storage.{OfferMap, Storage}
use wasm_vault.Helpers.{require_owner}
use wasm_vault.Staking.Delegate
use wasm_vault.Staking.Delegate.{reserved_debt_for_denom}
use wasm_vault.Staking.Undelegate
use wasm_vault.Staking.Redelegate
use wasm_vault.Staking.Claim
use wasm_vault.Vote
use wasm_vault.Transfer
use wasm_vault.Withdraw
use wasm_vault.Withdraw.{available_to_withdraw}
use wasm_vault.OpenInterest.Lending.{refund}
use wasm_vault.CounterOffer.Helpers.{Offer}
use wasm_vault.CounterOffer.Propose.{eviction_refund}
use wasm_vault.Invariant.Proposals.{IsConsistent-IsRequest}
use wasm_vault.Invariant.Defs.{IsConsistent}
use wasm_vault.Escrow.Counting.{sent_in, escrow_of}
use wasm_vault.Ledger.{Balance}
use wasm_vault.Ledger.Delivery.{outgoing_in}

-- While there is no lender, the balance covers the recorded debt, in its denom.
abbrev pub HasEscrow : Option Addr → Option Coin → Balance → Type 0
HasEscrow (some lender) debt balance = Unit
HasEscrow none none balance = Unit
HasEscrow none (some debt) balance = debt.amount ≤ balance debt.denom

abbrev pub HasEscrowOf : {M : Type 0} → Storage M → Balance → Type 0
HasEscrowOf s balance = HasEscrow (flatten s.lender) (flatten s.outstanding_debt) balance

-- After the messages, the rest covers the debt.
abbrev pub Leaves : Option Addr → Option Coin → List CosmosMsg → Balance → Type 0
Leaves (some lender) debt messages balance = Unit
Leaves none none messages balance = Unit
Leaves none (some debt) messages balance =
    debt.amount + outgoing_in debt.denom messages ≤ balance debt.denom

claims-quiet :
    (denom : String) (ds : List Delegation)
    → outgoing_in denom (map (λ (d : Delegation). withdraw_delegator_reward d.validator) ds) ≡ 0
claims-quiet denom [] = refl
claims-quiet denom (d ∷ ds) = omega (arith, claims-quiet denom ds)

pub Leaves-of_quiet :
    (lender : Option Addr) (debt : Option Coin) (messages : List CosmosMsg) (balance : Balance)
    → HasEscrow lender debt balance
    → ((denom : String) → outgoing_in denom messages ≡ 0)
    → Leaves lender debt messages balance
Leaves-of_quiet (some lender) debt messages balance h q = tt
Leaves-of_quiet none none messages balance h q = tt
Leaves-of_quiet none (some debt) messages balance h q = omega (arith, q debt.denom)

module _ {M : Type 0} (host : Host) (env : Env) (info : MessageInfo) (s s' : Storage M)
    (r : Response) where
  pub undelegate-quiet :
      (validator : String) (amount : ℕ)
      → Undelegate.execute host env info validator amount s ≡ ok (r, s')
      → (denom : String) → outgoing_in denom r.messages ≡ 0
  unfolding Undelegate.execute
  undelegate-quiet validator amount h denom = ground arith

  pub redelegate-quiet :
      (src dst : String) (amount : ℕ)
      → Redelegate.execute host env info src dst amount s ≡ ok (r, s')
      → (denom : String) → outgoing_in denom r.messages ≡ 0
  unfolding Redelegate.execute
  redelegate-quiet src dst amount h denom = ground arith

  pub claim-quiet :
      Claim.execute host env info s ≡ ok (r, s')
      → (denom : String) → outgoing_in denom r.messages ≡ 0
  unfolding Claim.execute
  claim-quiet h denom = bind-ok (require_owner s info) _ h λ owner _ h1.
      bind-ok (try (host.query_all_delegations env.contract_address)) _ h1
        λ ds _ h2. ground (arith, claims-quiet denom ds)

  pub vote-quiet :
      (proposal_id : ℕ) (option : VoteOption)
      → Vote.execute_vote env info proposal_id option s ≡ ok (r, s')
      → (denom : String) → outgoing_in denom r.messages ≡ 0
  unfolding Vote.execute_vote
  vote-quiet proposal_id option h denom = ground arith

  pub vote_weighted-quiet :
      (proposal_id : ℕ) (options : List WeightedVoteOption)
      → Vote.execute_weighted_vote env info proposal_id options s ≡ ok (r, s')
      → (denom : String) → outgoing_in denom r.messages ≡ 0
  unfolding Vote.execute_weighted_vote
  vote_weighted-quiet proposal_id options h denom = ground arith

  pub transfer-quiet :
      (new_owner : String)
      → Transfer.execute host info new_owner s ≡ ok (r, s')
      → (denom : String) → outgoing_in denom r.messages ≡ 0
  unfolding Transfer.execute
  transfer-quiet new_owner h denom = ground arith

module _ {M : Type 0} (host : Host) (env : Env) (info : MessageInfo) (s s' : Storage M)
    (r : Response) (balance : Balance) (debt : Coin) (owes : s.outstanding_debt ≡ some (some debt))
    (covered : debt.amount ≤ balance debt.denom) where
  pub withdraw-leaves :
      (denom : String) (amount : ℕ) (recipient : Option String)
      → host.query_balance env.contract_address denom
        ≡ answer (record { amount = balance denom; denom = denom })
      → Withdraw.execute host env info denom amount recipient s ≡ ok (r, s')
      → debt.amount + outgoing_in debt.denom r.messages ≤ balance debt.denom
  unfolding Withdraw.execute available_to_withdraw
  withdraw-leaves denom amount recipient told h =
      bind-ok (require_owner s info) _ h
        λ owner _ h1. ground (arith, eq_iff denom debt.denom, eq_iff debt.denom denom)

  pub delegate-leaves :
      (validator : String) (amount : ℕ)
      → ((denom : String)
          → host.query_balance env.contract_address denom
            ≡ answer (record { amount = balance denom; denom = denom }))
      → Delegate.execute host env info validator amount s ≡ ok (r, s')
      → debt.amount + outgoing_in debt.denom r.messages ≤ balance debt.denom
  unfolding Delegate.execute reserved_debt_for_denom
  delegate-leaves validator amount told h = bind-ok (require_owner s info) _ h λ owner _ h1.
      elim (Reply-cases host.query_bonded_denom) [
        | inl (denom, bonded) ↦
            ground (arith, told denom, eq_iff denom debt.denom, eq_iff debt.denom denom)
        | inr (fault, failed) ↦ absurd (ground arith)
      ]

module _ {M : Type 0} ⦃offer_map : OfferMap M⦄ (s : Storage M) (active : OpenInterest)
    (v : IsConsistent s) (asked : s.open_interest ≡ some (some active))
    (unfunded : s.lender ≡ some none) (balance : Balance) where
  -- On a request the debt and the balance are in the denom of the liquidity.
  pub escrow-covered : HasEscrowOf s balance → escrow_of s ≤ balance active.liquidity_coin.denom
  escrow-covered h =
      let q = IsConsistent-IsRequest s active v asked unfunded in ground (arith, q.escrow, unfunded)

  pub Leaves-of_escrow :
      (messages : List CosmosMsg)
      → escrow_of s + outgoing_in active.liquidity_coin.denom messages
        ≤ balance active.liquidity_coin.denom
      → Leaves (flatten s.lender) (flatten s.outstanding_debt) messages balance
  Leaves-of_escrow messages h =
      let q = IsConsistent-IsRequest s active v asked unfunded in ground (arith, q.escrow, unfunded)

pub outgoing_in-refunds :
    (denom : String) (offers : List Offer)
    → outgoing_in denom (map refund offers) ≡ sent_in denom (map refund offers)
outgoing_in-refunds denom [] = refl
outgoing_in-refunds denom (o ∷ offers) = omega (arith, outgoing_in-refunds denom offers)

pub outgoing_in-eviction :
    (denom : String) (candidate : Option Offer)
    → outgoing_in denom (eviction_refund candidate) ≡ sent_in denom (eviction_refund candidate)
outgoing_in-eviction denom none = refl
outgoing_in-eviction denom (some o) = refl
