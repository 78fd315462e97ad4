-- ===== src/Processing/Accounting/Claim.antt =====
-- A claim keeps the accounting, whatever happened since its row was read.
use lex_os.Prelude.{ℕ, ◌+◌, ◌≡◌, refl, ◌∙◌, some, List, ◌∷◌, ok, count_where, update_where}
use lex_os.Processing.Rows.{Job, CaseRow}
use lex_os.Processing.Store.{Store, stamped, lock_case}
use lex_os.Processing.Target.{Claimed}
use lex_os.Processing.Claim.{
  Call, ClaimResult, process, budget_limit_reached, started, start_row, start, block,
  cancel_blocked,
}
use lex_os.Processing.Accounting.{Fresh, Within, Sound}
use lex_os.Processing.Accounting.Moves.{
  IsWrite, guard_of, Moves, Moves-update_case, locked-case, lock_case-same, Sound-write,
  Fresh-write,
}
use lex_os.Processing.Accounting.Frame.{
  frame, ends, then-eq-ok, lift-eq-ok, write-eq-ok, then-end, write-end,
}

start_row-IsWrite :
    (call : Call) (j : Job) (amount : ℕ) → IsWrite (stamped call.now (start_row call j amount))
start_row-IsWrite call j amount = record {
  id = λ k. refl;
  version = λ k. refl;
  case_id = λ k. refl;
}

pub start-eq-ok :
    (call : Call) (h : Claimed) (to_add : ℕ) (s s' : Store) (r : ClaimResult)
    → start call h to_add s ≡ ok (r, s')
    → (count_where (guard_of h.job h.job.status) s.jobs ≡ 1)
      × (s'.jobs
          ≡ update_where
              (guard_of h.job h.job.status)
              (stamped call.now (start_row call h.job (h.job.reserved_cost + to_add)))
              s.jobs)
      × (s'.cases ≡ s.cases)
      × (r ≡ process (record h { job = started call (h.job.reserved_cost + to_add) h.job }))
unfolding start
start-eq-ok call h to_add s s' r e =
    let result = process (record h { job = started call (h.job.reserved_cost + to_add) h.job }) in
    write-end _ _ _ _ _ result s s' r (search frame) (search ends) e

-- The views after a claim: a job that is to be processed is one.
abbrev pub with_claimed : ClaimResult → List Job → List Job
with_claimed (process h) views = h.job ∷ views
with_claimed _ views = views

pub start-Sound :
    (call : Call) (h : Claimed) (to_add : ℕ) (s t s' : Store) (r : ClaimResult) (views : List Job)
    → Sound s.jobs s.cases views
    → Fresh s.jobs h.job
    → t.jobs ≡ s.jobs
    → Moves h.job (h.job.reserved_cost + to_add) s.cases t.cases
    → start call h to_add t ≡ ok (r, s')
    → Sound s'.jobs s'.cases (with_claimed r views)
start-Sound call h to_add s t s' r views sound fresh same moves e =
    let (one', jobs', cases, result) = start-eq-ok call h to_add t s' r e in
    let amount = h.job.reserved_cost + to_add in
    let f = stamped call.now (start_row call h.job amount) in
    let write = start_row-IsWrite call h.job amount in
    let one : count_where (guard_of h.job h.job.status) s.jobs ≡ 1 = rw (← same) one' in
    let jobs : s'.jobs ≡ update_where (guard_of h.job h.job.status) f s.jobs = rw (← same) jobs' in
    let after =
      Sound-write f write h.job h.job.status s.jobs fresh one amount s.cases t.cases views sound
        (λ j e. refl) moves in
    let view =
      Fresh-write f write h.job h.job.status s.jobs fresh one (started call amount h.job)
        (sound.unique h.job.id) refl refl refl (λ j e. refl) in
    rw (result, jobs, cases)
      (record {
        unique = after.unique;
        accounted = after.accounted;
        within = after.within;
        fresh = (view, after.fresh);
      })

cancel_blocked-IsWrite : (call : Call) → IsWrite (stamped call.now (cancel_blocked call))
cancel_blocked-IsWrite call = record { id = λ k. refl; version = λ k. refl; case_id = λ k. refl }

-- A job that is blocked keeps its reservation, and the budget its amounts.
pub block-Sound :
    (call : Call) (h : Claimed) (c : CaseRow) (s s' : Store) (r : ClaimResult) (views : List Job)
    → Sound s.jobs s.cases views
    → Fresh s.jobs h.job
    → h.job.case_id ≡ some h.case_id
    → lock_case h.job.organization_id h.case_id s ≡ some c
    → block call h s ≡ ok (r, s')
    → Sound s'.jobs s'.cases (with_claimed r views)
unfolding block
block-Sound call h c s s' r views sound fresh linked locked e =
    let j = h.job in
    let f = stamped call.now (cancel_blocked call) in
    let (t, lifted, rest) = then-eq-ok _ _ s s' r e in
    let (_, same) = lift-eq-ok _ s t tt lifted in
    let (one', (u, jobs', cases', rest')) = write-eq-ok _ _ _ _ _ t s' r rest in
    let one : count_where (guard_of j j.status) s.jobs ≡ 1 = rw same at one' in
    let jobs : u.jobs ≡ update_where (guard_of j j.status) f s.jobs = rw same at jobs' in
    let cases : u.cases ≡ s.cases = rw same at cases' in
    let (w, updated, kept_jobs, kept_cases, result) =
      then-end _ _ budget_limit_reached u s' r (search frame) (search ends) rest' in
    let within : Within u.cases = rw cases sound.within in
    let (same_jobs, moves) =
      Moves-update_case j j.reserved_cost j.organization_id h.case_id _ c u w within linked
        (lock_case-same j.organization_id h.case_id s u cases ∙ locked) refl
        (sound.within h.case_id c (locked-case j.organization_id h.case_id c s locked).0) updated in
    rw (result, kept_jobs, kept_cases, same_jobs, jobs)
      (Sound-write f (cancel_blocked-IsWrite call) j j.status s.jobs fresh one j.reserved_cost
        s.cases w.cases views sound (λ k same_cost. same_cost) (rw cases at moves))
