-- ===== src/Processing/Limit.antt =====
-- The limit that a person sets for the processing of a case: `updateProcessingBudget` of
-- apps/api/src/cases/cases.repository.ts. It shares the budget with the worker.
use lex_os.Prelude.{ℕ, ◌+◌, ◌&&◌, Bool, none, some, String, ok, ltb, leb, ◌==◌, if◌then◌else◌}
use lex_os.Processing.Rows.{CaseRow, active, limit_reached}
use lex_os.Processing.Store.{Tx, lock_case, update_row}

pub data LimitOutcome : Type 0 where
  not_found below_committed_cost : LimitOutcome
  updated : CaseRow → LimitOutcome

abbrev is_used_up : ℕ → CaseRow → Bool
is_used_up limit c = c.reserved == 0 && (ltb 0 limit && leb limit c.spent)

unfoldable pub with_limit : ℕ → ℕ → CaseRow → CaseRow
with_limit now limit c =
    let reached = is_used_up limit c in
    record c {
      limit = limit;
      budget_status = if reached then limit_reached else active;
      limit_reached_at = if reached then some now else none;
    }

unfoldable pub update_processing_budget : ℕ → String → String → ℕ → Tx LimitOutcome
unfolding with_limit lock_case
update_processing_budget now organization_id id limit s = elim (lock_case organization_id id s) [
  | none ↦ ok (not_found, s)
  | some c ↦
      if ltb limit (c.spent + c.reserved)
      then ok (below_committed_cost, s)
      else ok (
        updated (with_limit now limit c),
        record s { cases = update_row id (with_limit now limit) s.cases },
      )
]
