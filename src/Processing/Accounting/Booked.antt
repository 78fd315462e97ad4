-- ===== src/Processing/Accounting/Booked.antt =====
-- What a transaction leaves of a job and of the budget of its case: the amounts that it books, and
-- the row that it writes (`complete`, `retry`, `fail` and `cancel` of
-- apps/worker/src/processing/processing.repository.ts).
use lex_os.Prelude.{
  ℕ, ◌+◌, ◌≤◌, ◌≡◌, ◌∙◌, ap, inl, inr, Bool, true, Option, some, List, [], ◌∷◌, String, ok, text_eq,
  text_eq_iff, if◌then◌else◌, any_where, count_where, update_where, find_first, find_first-holds,
  All-find_first, arith, Bool-cases, any_where-update_where, find_first_of_count,
  found_row-update_where,
}
use lex_os.Processing.Status.{JobStatus}
use lex_os.Processing.Rows.{Job, CaseRow}
use lex_os.Processing.Store.{Store, lock_case, update_case}
use lex_os.Processing.Accounting.{has_id, Fresh}
use lex_os.Processing.Accounting.Moves.{
  IsWrite, guard_of, guarded-has_id, found-view, locked-case, updated-case,
}

-- Of the budget of the case `k`, `spends` more is spent and `releases` less is reserved; its limit
-- and every other case stay as they were.
pub record Booked (k : String) (spends releases : ℕ) (cases cases' : String → Option CaseRow)
    : Type 0 where
  pub before : CaseRow
  pub after : CaseRow
  pub was : cases k ≡ some before
  pub spent : after.spent ≡ before.spent + spends
  pub reserved : after.reserved + releases ≡ before.reserved
  pub limit : after.limit ≡ before.limit
  pub rows : (i : String) → cases' i ≡ (if text_eq i k then some after else cases i)

-- The table has one row of the job `v`, and it is as `P` says.
abbrev pub LeftAs : Job → (Job → Type 0) → List Job → Type 0
LeftAs v P jobs = (r : Job) × (find_first (has_id v.id) jobs ≡ some r) × P r

pub Booked-update_case :
    (organization_id k : String) (f : CaseRow → CaseRow) (c : CaseRow) (spends releases : ℕ)
    (s t : Store)
    → lock_case organization_id k s ≡ some c
    → (f c).spent ≡ c.spent + spends
    → (f c).reserved + releases ≡ c.reserved
    → (f c).limit ≡ c.limit
    → update_case organization_id k f s ≡ ok (tt, t)
    → Booked k spends releases s.cases t.cases
Booked-update_case organization_id k f c spends releases s t locked spent reserved limit e =
    let (found, live) = locked-case organization_id k c s locked in
    let (jobs, cases) = updated-case organization_id k f s t e in
    record {
      before = c;
      after = f c;
      was = found;
      spent = spent;
      reserved = reserved;
      limit = limit;
      rows = λ i. elim (Bool-cases (text_eq i k)) [
        | inl same ↦
            let here : i ≡ k = (text_eq_iff i k).0 same in
            let old : s.cases i ≡ some c = rw here found in ground (arith, cases i)
        | inr other ↦ ground (arith, cases i)
      ];
    }

find_first_of_any {ℓ} :
    {A : Type ℓ} (p : A → Bool) (xs : List A)
    → any_where p xs ≡ true
    → (x : A) × (find_first p xs ≡ some x)
find_first_of_any p [] h = absurd (cc)
find_first_of_any p (x ∷ xs) h = elim (Bool-cases (p x)) [
  | inl hit ↦ (x, rw hit)
  | inr miss ↦ let (y, found) = find_first_of_any p xs (ground arith) in (y, rw miss found)
]

-- A write that counts one row leaves the row that the guard found, as the write makes it.
pub LeftAs-write :
    (f : Job → Job) (write : IsWrite f) (v : Job) (status : JobStatus) (jobs : List Job)
    → Fresh jobs v
    → count_where (guard_of v status) jobs ≡ 1
    → count_where (has_id v.id) jobs ≤ 1
    → (r : Job) × (r.reserved_cost ≡ v.reserved_cost)
      × (find_first (has_id v.id) (update_where (guard_of v status) f jobs) ≡ some (f r))
LeftAs-write f write v status jobs fresh one unique =
    let (r, found) = find_first_of_count (guard_of v status) jobs one in
    let same_id : (j : Job) → has_id v.id (f j) ≡ has_id v.id j =
      λ j. ap (λ i. text_eq i v.id) (write.id j) in
    let (y, there) =
      find_first_of_any (has_id v.id) (update_where (guard_of v status) f jobs)
        (any_where-update_where (has_id v.id) (guard_of v status) f jobs same_id ∙ fresh.present) in
    let is_r : y ≡ f r =
      All-find_first (λ z. has_id v.id z ≡ true → z ≡ f r) (has_id v.id)
        (update_where (guard_of v status) f jobs) y
        (found_row-update_where (has_id v.id) (guard_of v status) f (guarded-has_id v status)
          same_id jobs r unique found)
        there (find_first-holds (has_id v.id) (update_where (guard_of v status) f jobs) there) in
    (r, (found-view v status jobs r fresh found).0, there ∙ ap some is_r)
