-- ===== src/Processing/Budget.antt =====
-- The budget of a case when an execution ends (apps/worker/src/processing/
-- processing.repository.ts): its measured cost is spent and its reservation released.
use lex_os.Prelude.{
  ℕ, ◌+◌, ◌-◌, ◌&&◌, ◌||◌, Bool, Option, none, some, String, err, ltb, leb, if◌then◌else◌, or_else,
}
use lex_os.Processing.Rows.{CaseRow, active, limit_reached}
use lex_os.Processing.Store.{Tx, ◌>>◌, return, refuse_if, lock_case, update_case}
use lex_os.Processing.Claim.{is_limit_reached}

-- What is written: computed from the locked row. `-` is exact, since a larger release throws.
pub record Settlement : Type 0 where
  pub spent : ℕ
  pub reserved : ℕ
  pub reached : Bool
  pub reached_at : Option ℕ
  pub was_reached : Bool

unfoldable pub settle : ℕ → ℕ → ℕ → CaseRow → Settlement
settle now actual released c =
    let spent = c.spent + actual in
    let reserved = c.reserved - released in
    let reached =
      is_limit_reached c.budget_status || (ltb 0 c.limit && leb c.limit (spent + reserved)) in
    record {
      spent = spent;
      reserved = reserved;
      reached = reached;
      reached_at = if reached then some (or_else c.limit_reached_at now) else none;
      was_reached = is_limit_reached c.budget_status;
    }

abbrev pub settled : Settlement → CaseRow → CaseRow
settled t c = record c {
  spent = t.spent;
  reserved = t.reserved;
  budget_status = if t.reached then limit_reached else active;
  limit_reached_at = t.reached_at;
}

-- The lock, the checks and the update; the messages are the caller's. `accepts` is its check of
-- the locked row.
unfoldable pub settle_in : String → ℕ → ℕ → ℕ → String → String → CaseRow → Tx Settlement
settle_in negative now actual released organization_id case_id c =
    let t = settle now actual released c in
    do
      refuse_if (ltb c.reserved released) negative
      update_case organization_id case_id (settled t)
      return t

unfoldable pub settle_case :
    (CaseRow → Bool) → String → String → ℕ → ℕ → ℕ → String → String → Tx Settlement
unfolding lock_case settle_in
settle_case accepts refused negative now actual released organization_id case_id s =
    elim (lock_case organization_id case_id s) [
      | none ↦ err refused
      | some c ↦
          if accepts c
          then settle_in negative now actual released organization_id case_id c s
          else err refused
    ]
