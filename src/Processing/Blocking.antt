-- ===== src/Processing/Blocking.antt =====
-- When the budget of a case stops a job (`isBlocked` in `ProcessingRepository.claim`), and what a
-- claim answers and writes then.
use lex_os.Prelude.{ℕ, ◌+◌, ◌≤◌, ◌<◌, ◌≡◌, ◌⊎◌, some, String}
use lex_os.Processing.Rows.{Job, CaseRow, BudgetStatus}
use lex_os.Processing.Store.{Store}
use lex_os.Processing.Target.{Claimed}
use lex_os.Processing.Claim.{Call, ClaimResult, process, budget_limit_reached}

-- The job is handed out, and it and its case `k` hold `amount` more.
pub record Starts (j : Job) (k : String) (c : CaseRow) (amount : ℕ) (r : ClaimResult) (s' : Store)
    : Type 0 where
  pub claimed : Claimed
  pub result : r ≡ process claimed
  pub reserved : claimed.job.reserved_cost ≡ j.reserved_cost + amount
  pub budget : s'.cases k ≡ some (record c { reserved = c.reserved + amount })

-- The job is stopped, and its case says that the limit was reached.
pub record Stops (call : Call) (k : String) (c : CaseRow) (r : ClaimResult) (s' : Store)
    : Type 0 where
  pub result : r ≡ budget_limit_reached
  pub budget :
      s'.cases k
      ≡ some (record c {
        budget_status = BudgetStatus.limit_reached;
        limit_reached_at = some call.now;
      })

-- The limit has been reached, or the quote does not fit in what is left.
abbrev pub Exceeds : ℕ → CaseRow → Type 0
Exceeds quoted c =
    (c.budget_status ≡ BudgetStatus.limit_reached) ⊎ (c.limit < c.spent + c.reserved + quoted)

abbrev pub Fits : ℕ → CaseRow → Type 0
Fits quoted c = (c.budget_status ≡ BudgetStatus.active) × (c.spent + c.reserved + quoted ≤ c.limit)

-- What a claim of a waiting job does, by what the job holds and by the budget of its case.
abbrev pub Decides : Call → ℕ → Job → String → CaseRow → ClaimResult → Store → Type 0
Decides call quoted j k c r s' =
    ((0 < j.reserved_cost) × Starts j k c 0 r s')
    ⊎ (((j.reserved_cost ≡ 0) × Fits quoted c × Starts j k c quoted r s')
        ⊎ ((j.reserved_cost ≡ 0) × Exceeds quoted c × Stops call k c r s'))
