-- ===== src/Lifecycle.antt =====
-- The abstract view of a vault, as the messages of src/contract/execute.rs drive it: its stage, and the
-- moves from one stage to another.
pub mod Refinement
pub mod Neutral
pub mod Termination
pub mod Rounds
use wasm_vault.Prelude.{◌≡◌, Option, none, some, flatten}
use wasm_vault.Types.{Addr, Coin, OpenInterest, ExecuteMsg}
use wasm_vault.Storage.{Storage}

-- Nothing asked for; a request without a lender; a loan; a loan that a liquidation has paid in part.
pub data Stage : Type 0 where
  idle : Stage
  requested : Stage
  lent : Stage
  owing : Stage

-- What the other items are is forgotten.
abbrev pub stage : Option OpenInterest → Option Addr → Option Coin → Stage
stage none lender debt = idle
stage (some terms) none debt = requested
stage (some terms) (some lender) none = lent
stage (some terms) (some lender) (some debt) = owing

abbrev pub stage_of : {M : Type 0} → Storage M → Stage
stage_of s = stage (flatten s.open_interest) (flatten s.lender) (flatten s.outstanding_debt)

-- Messages that are no part of the life of a loan.
abbrev pub IsNeutral : ExecuteMsg → Type 0
IsNeutral (ExecuteMsg.open_interest terms) = ⊥
IsNeutral (ExecuteMsg.fund_open_interest terms) = ⊥
IsNeutral (ExecuteMsg.propose_counter_offer terms) = ⊥
IsNeutral (ExecuteMsg.accept_counter_offer proposer terms) = ⊥
IsNeutral ExecuteMsg.cancel_counter_offer = ⊥
IsNeutral ExecuteMsg.close_open_interest = ⊥
IsNeutral ExecuteMsg.repay_open_interest = ⊥
IsNeutral ExecuteMsg.liquidate_open_interest = ⊥
IsNeutral _ = Unit

-- Where a lender waits for the coins.
abbrev pub IsLoanStage : Stage → Type 0
IsLoanStage idle = ⊥
IsLoanStage requested = ⊥
IsLoanStage lent = Unit
IsLoanStage owing = Unit

-- The moves that a message may make.
pub data Moves : Stage → ExecuteMsg → Stage → Type 0 where
  stays : {a : Stage} (msg : ExecuteMsg) → IsNeutral msg → Moves a msg a
  opens : (terms : OpenInterest) → Moves idle (ExecuteMsg.open_interest terms) requested
  proposes :
      (terms : OpenInterest) → Moves requested (ExecuteMsg.propose_counter_offer terms) requested
  cancels : Moves requested ExecuteMsg.cancel_counter_offer requested
  closes : Moves requested ExecuteMsg.close_open_interest idle
  funds : (terms : OpenInterest) → Moves requested (ExecuteMsg.fund_open_interest terms) lent
  accepts :
      (proposer : Addr) (terms : OpenInterest)
      → Moves requested (ExecuteMsg.accept_counter_offer proposer terms) lent
  repays : Moves lent ExecuteMsg.repay_open_interest idle
  settles : {a : Stage} → IsLoanStage a → Moves a ExecuteMsg.liquidate_open_interest idle
  pays_part : {a : Stage} → IsLoanStage a → Moves a ExecuteMsg.liquidate_open_interest owing

-- Any number of moves.
pub data Reaches : Stage → Stage → Type 0 where
  here : {a : Stage} → Reaches a a
  after : {a b c : Stage} (msg : ExecuteMsg) → Moves a msg b → Reaches b c → Reaches a c
