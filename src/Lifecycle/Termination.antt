-- ===== src/Lifecycle/Termination.antt =====
-- The liquidations of one loan, src/contract/open_interest/liquidate.rs: however many calls they take.
use wasm_vault.Prelude.{ℕ, suc, ◌+◌, ◌<◌, ◌≤◌, ◌≡◌, inl, inr, none, some, flatten, arith}
use wasm_vault.Types.{OpenInterest, ExecuteMsg, Env, MessageInfo, Response}
use wasm_vault.Errors.{ok}
use wasm_vault.Host.{Host}
use wasm_vault.Storage.{OfferMap, Storage}
use wasm_vault.OpenInterest.Liquidate.Settlement.{liquidate-settles}
use wasm_vault.Invariant.Liquidations.{owed_or_collateral}
use wasm_vault.Execute.{execute, Call}
use wasm_vault.Escrow.Counting.{sent_in}
use wasm_vault.Lifecycle.{IsNeutral}
use wasm_vault.Lifecycle.Neutral.{neutral-frame}

-- What is still owed on an open interest: its debt, or before the first liquidation its collateral.
abbrev pub outstanding_of : {M : Type 0} → Storage M → ℕ
outstanding_of s = elim (flatten s.open_interest) [
  | none ↦ 0
  | some terms ↦ owed_or_collateral (flatten s.outstanding_debt) terms
]

module _ {M : Type 0} ⦃offer_map : OfferMap M⦄ where
  -- Calls that succeed: liquidations, of which `n` pay something and all together `paid`, and between
  -- them messages that are no part of the life of a loan.
  pub data Liquidates (s : Storage M) : ℕ → ℕ → Storage M → Type 0 where
    none_yet : Liquidates s 0 0 s
    pays :
        {n paid : ℕ} {t u : Storage M}
        → Liquidates s n paid t
        → (host : Host) (env : Env) (info : MessageInfo) (terms : OpenInterest) (r : Response)
        → execute host env info ExecuteMsg.liquidate_open_interest t ≡ ok (r, u)
        → t.open_interest ≡ some (some terms)
        → 0 < sent_in terms.collateral.denom r.messages
        → Liquidates s (suc n) (paid + sent_in terms.collateral.denom r.messages) u
    pays_nothing :
        {n paid : ℕ} {t u : Storage M}
        → Liquidates s n paid t
        → (host : Host) (env : Env) (info : MessageInfo) (terms : OpenInterest) (r : Response)
        → execute host env info ExecuteMsg.liquidate_open_interest t ≡ ok (r, u)
        → t.open_interest ≡ some (some terms)
        → sent_in terms.collateral.denom r.messages ≡ 0
        → Liquidates s n paid u
    apart :
        {n paid : ℕ} {t u : Storage M}
        → Liquidates s n paid t
        → (c : Call) (r : Response) → IsNeutral c.msg
        → execute c.host c.env c.info c.msg t ≡ ok (r, u)
        → Liquidates s n paid u

  liquidate-outstanding :
      (host : Host) (env : Env) (info : MessageInfo) (terms : OpenInterest) (t u : Storage M)
      (r : Response)
      → execute host env info ExecuteMsg.liquidate_open_interest t ≡ ok (r, u)
      → t.open_interest ≡ some (some terms)
      → sent_in terms.collateral.denom r.messages + outstanding_of u ≡ outstanding_of t
  unfolding execute
  liquidate-outstanding host env info terms t u r h asked =
      let settled = liquidate-settles host env info t u r terms asked h in
      elim settled.4 [
        | inl (nothing, closed) ↦ ground (arith, settled.3, closed.open_interest)
        | inr (part, bonded) ↦ ground (arith, settled.3, part.debt, part.open_interest)
      ]

  neutral-outstanding :
      (host : Host) (env : Env) (info : MessageInfo) (msg : ExecuteMsg) (t u : Storage M)
      (r : Response)
      → IsNeutral msg
      → execute host env info msg t ≡ ok (r, u)
      → outstanding_of u ≡ outstanding_of t
  neutral-outstanding host env info msg t u r neutral h =
      ground (arith, neutral-frame host env info t u r msg neutral h)

  -- However many calls a loan is liquidated in, and whatever else is done between them that is no part
  -- of the life of a loan: what the liquidations pay in the denom of the collateral, with what is still
  -- owed, is what was owed at first; so at most as many of them pay something as coins were owed.
  pub Liquidates-end :
      (s u : Storage M) (n paid : ℕ)
      → Liquidates s n paid u
      → (paid + outstanding_of u ≡ outstanding_of s) × (n ≤ paid) × (n ≤ outstanding_of s)
  Liquidates-end s u n paid none_yet = (omega arith, omega arith, omega arith)
  Liquidates-end s u n paid
        (pays {n = m} {paid = before} {t = t} r host env info terms response h asked some_paid) =
      let earlier = Liquidates-end s t m before r in
      let now = liquidate-outstanding host env info terms t u response h asked in
      ground (arith, earlier, now)
  Liquidates-end s u n paid
        (pays_nothing {t = t} r host env info terms response h asked none_paid) =
      let earlier = Liquidates-end s t n paid r in
      let now = liquidate-outstanding host env info terms t u response h asked in
      ground (arith, earlier, now)
  Liquidates-end s u n paid (apart {t = t} r c response neutral h) =
      let earlier = Liquidates-end s t n paid r in
      let now = neutral-outstanding c.host c.env c.info c.msg t u response neutral h in
      ground (arith, earlier, now)
