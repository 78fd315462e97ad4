-- ===== src/Processing/Accounting/Release.antt =====
-- What a cancellation finds, and what its release does to the budgets (`cancel` of
-- apps/worker/src/processing/processing.repository.ts).
use lex_os.Prelude.{
  ℕ, ◌≤◌, ◌≡◌, ◌⊎◌, refl, subst, ap, inl, inr, true, Option, none, some, List, String, ok, arith,
  ◌==◌, ==_iff, text_eq_iff, text_eq_refl, count_where, find_first-holds, All-map, Bool-cases,
  Option-cases, found_row, any_where_of_find_first, count_where_one,
}
use lex_os.Processing.Status.{same_status_iff}
use lex_os.Processing.Rows.{Job, CaseRow}
use lex_os.Processing.Store.{Store, by_id, find_job, at_version, lock_case}
use lex_os.Processing.Settle.{release_in, release_from, release}
use lex_os.Processing.Accounting.{has_id, Agrees, Fresh, Within, Sound}
use lex_os.Processing.Accounting.Moves.{
  guard_of, guarded-has_id, Moves, Moves-refl, Moves-update_case, locked-case,
}
use lex_os.Processing.Accounting.Booked.{Booked, Booked-update_case}
use lex_os.Processing.Accounting.Frame.{then-eq-ok, refuse-eq-ok}

-- A row of the table is a view of it.
pub found-Fresh :
    (organization_id id : String) (jobs : List Job) (j : Job)
    → ((i : String) → count_where (has_id i) jobs ≤ 1)
    → find_job organization_id id jobs ≡ some j
    → Fresh jobs j
unfolding find_job
found-Fresh organization_id id jobs j unique e =
    let named : (k : Job) → by_id organization_id id k ≡ true → has_id id k ≡ true =
      λ k h. ground arith in
    let own : j.id ≡ id =
      (text_eq_iff j.id id).0 (named j (find_first-holds (by_id organization_id id) jobs e)) in
    record {
      present =
          rw own (any_where_of_find_first (has_id id) (by_id organization_id id) jobs j named e);
      agrees = rw own (
          All-map (λ k. has_id id k ≡ true → k ≡ j) (λ k. has_id id k ≡ true → Agrees j k) jobs
            (λ k same hit. inr (
              ap (λ (r : Job). r.version) (same hit),
              ap (λ (r : Job). r.reserved_cost) (same hit),
              ap (λ (r : Job). r.case_id) (same hit),
            ))
            (found_row (has_id id) (by_id organization_id id) jobs j named (unique id) e));
    }

own-guard : (j : Job) → guard_of j j.status j ≡ true
unfolding at_version
own-guard j =
    rw (text_eq_refl, text_eq_refl, (same_status_iff j.status j.status).1 refl)
      ((==_iff j.version j.version).1 refl)

-- What a release does to the budgets: nothing where the job holds nothing, and otherwise its case
-- has the reservation back.
abbrev pub Released : Job → (String → Option CaseRow) → (String → Option CaseRow) → Type 0
Released j cases cases' =
    ((j.reserved_cost ≡ 0) × (cases' ≡ cases))
    ⊎ ((k : String) × (j.case_id ≡ some k) × Booked k 0 j.reserved_cost cases cases')

release_in-Moves :
    (j : Job) (k : String) (c : CaseRow) (s t : Store)
    → Within s.cases
    → j.case_id ≡ some k
    → lock_case j.organization_id k s ≡ some c
    → release_in j k c s ≡ ok (tt, t)
    → (t.jobs ≡ s.jobs) × Booked k 0 j.reserved_cost s.cases t.cases × Moves j 0 s.cases t.cases
unfolding release_in
release_in-Moves j k c s t within linked locked e =
    let (u, checked, updated) = then-eq-ok _ _ s t tt e in
    let (enough, same) = refuse-eq-ok _ _ s u checked in
    let room = within k c (locked-case j.organization_id k c s locked).0 in
    let (jobs, moves) =
      Moves-update_case j 0 j.organization_id k _ c s t within linked locked (ground arith)
        (omega arith) (rw same at updated) in
    let booked =
      Booked-update_case j.organization_id k _ c 0 j.reserved_cost s t locked (omega arith)
        (ground arith) refl (rw same at updated) in
    (jobs, booked, moves)

release_from-Moves :
    (j : Job) (o : Option String) (s t : Store)
    → Within s.cases
    → j.case_id ≡ o
    → release_from j o s ≡ ok (tt, t)
    → (t.jobs ≡ s.jobs) × Released j s.cases t.cases × Moves j 0 s.cases t.cases
unfolding release_from
release_from-Moves j none s t within linked e = absurd (cc)
release_from-Moves j (some k) s t within linked e =
    elim (Option-cases (lock_case j.organization_id k s)) [
      | inl gone ↦ absurd (cc (rw (gone, release_from) at e))
      | inr (c, locked) ↦
          let (jobs, booked, moves) =
            release_in-Moves j k c s t within linked locked (rw (locked, release_from) at e) in
          (jobs, inr (k, linked, booked), moves)
    ]

-- The guard of a row that was just read finds that row and no other.
pub count-own :
    (organization_id id : String) (jobs : List Job) (j : Job)
    → ((i : String) → count_where (has_id i) jobs ≤ 1)
    → find_job organization_id id jobs ≡ some j
    → count_where (guard_of j j.status) jobs ≡ 1
unfolding find_job
count-own organization_id id jobs j unique e =
    count_where_one (has_id j.id) (by_id organization_id id) (guard_of j j.status) jobs j
      (guarded-has_id j j.status) (own-guard j) (unique j.id) e

-- What the release of a reservation does to the budget of the case.
pub release-Moves :
    (j : Job) (s t : Store) (views : List Job)
    → Sound s.jobs s.cases views
    → release j s ≡ ok (tt, t)
    → (t.jobs ≡ s.jobs) × Released j s.cases t.cases × Moves j 0 s.cases t.cases
unfolding release
release-Moves j s t views sound e = elim (Bool-cases (j.reserved_cost == 0)) [
  | inl free ↦
      let none_held : j.reserved_cost ≡ 0 = (==_iff j.reserved_cost 0).0 free in
      let same : t ≡ s = ground arith in
      let moves = Moves-refl j s.jobs s.cases views sound in
      rw same
        (refl, inl (none_held, refl), subst (λ (n : ℕ). Moves j n s.cases s.cases) none_held moves)
  | inr holds ↦ release_from-Moves j j.case_id s t sound.within refl (ground arith)
]
