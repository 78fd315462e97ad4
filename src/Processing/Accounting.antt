-- ===== src/Processing/Accounting.antt =====
-- The accounting of money: for each case, the reservation that the case shows is the sum of those
-- that its jobs hold, and what is spent and reserved stays within the limit. The worker reads a
-- row without a lock and writes it under the guard of its version, so the invariant also speaks of
-- the rows that were read earlier (`views`).
pub mod Moves
pub mod Frame
pub mod Booked
pub mod Claim
pub mod Reserve
pub mod Settle
pub mod Release
pub mod Cancel
pub mod Stored
pub mod Complete
pub mod Interleaving
use lex_os.Prelude.{
  ℕ, ◌+◌, ◌≤◌, ◌<◌, ◌≡◌, ◌⊎◌, Bool, true, Option, none, some, List, String, text_eq, if◌then◌else◌,
  any_where, count_where, sum_of, All,
}
use lex_os.Processing.Rows.{Job, CaseRow}

abbrev pub has_id : String → Job → Bool
has_id id j = text_eq j.id id

-- What a job holds of the budget of a case.
unfoldable pub held_for : String → Job → ℕ
held_for k j = elim j.case_id [ none ↦ 0 | some i ↦ if text_eq i k then j.reserved_cost else 0 ]

-- A row that was read earlier and the row that the table has now: the version has grown, or
-- nothing that the accounting reads has changed.
abbrev pub Agrees : Job → Job → Type 0
Agrees v j =
    (v.version < j.version)
    ⊎ ((j.version ≡ v.version) × (j.reserved_cost ≡ v.reserved_cost) × (j.case_id ≡ v.case_id))

pub record Fresh (jobs : List Job) (v : Job) : Type 0 where
  pub present : any_where (has_id v.id) jobs ≡ true
  pub agrees : All (λ j. has_id v.id j ≡ true → Agrees v j) jobs

abbrev pub Within : (String → Option CaseRow) → Type 0
Within cases = (k : String) (c : CaseRow) → cases k ≡ some c → c.spent + c.reserved ≤ c.limit

pub record Sound (jobs : List Job) (cases : String → Option CaseRow) (views : List Job)
    : Type 0 where
  pub unique : (id : String) → count_where (has_id id) jobs ≤ 1
  pub accounted :
      (k : String) (c : CaseRow) → cases k ≡ some c → c.reserved ≡ sum_of (held_for k) jobs
  pub within : Within cases
  pub fresh : All (Fresh jobs) views
