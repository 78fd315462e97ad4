-- ===== src/Processing/Accounting/Settle.antt =====
-- A retry and a failure of a claimed job keep the accounting.
use lex_os.Prelude.{
  ℕ, ◌+◌, ◌≤◌, ◌≡◌, refl, sym, ap, subst, ◌∙◌, or_else, find_first, update_where, inl, inr, Bool,
  false, some, List, String, ok, arith, ltb, count_where, Bool-cases, Option-cases,
}
use lex_os.Processing.Status.{JobStatus}
use lex_os.Processing.Cost.{cost_decimal}
use lex_os.Processing.Rows.{Job, CaseRow}
use lex_os.Processing.Store.{Store, ◌>>=◌, stamped, lock_case}
use lex_os.Processing.Target.{Claimed}
use lex_os.Processing.Budget.{Settlement, settle, settle_in, settle_case}
use lex_os.Processing.Completion.{MeasuredCost}
use lex_os.Processing.Settle.{
  Failure, retrying_row, retry, failed_row, settle_failure, finish_failure, failure_cost, fail,
}
use lex_os.Processing.Accounting.{has_id, Fresh, Within, Sound}
use lex_os.Processing.Accounting.Moves.{
  IsWrite, guard_of, Moves, Moves-refl, Moves-update_case, locked-case, Sound-write,
}
use lex_os.Processing.Accounting.Booked.{Booked, LeftAs, Booked-update_case, LeftAs-write}
use lex_os.Processing.Accounting.Frame.{
  frame, ends, bind-eq-ok, then-eq-ok, then-end, lift-eq-ok, return-eq-ok, refuse-eq-ok, write-keep,
}

retrying_row-IsWrite : (e : Failure) → IsWrite (stamped e.now (retrying_row e))
retrying_row-IsWrite e = record { id = λ k. refl; version = λ k. refl; case_id = λ k. refl }

-- From a sound state, a retry that returns, of a job whose snapshot is fresh, ends in a sound
-- state: no budget changes, and the row of the job waits for the next attempt with the reservation
-- of the snapshot.
pub retry-Sound :
    (x : Failure) (h : Claimed) (s s' : Store) (views : List Job)
    → Sound s.jobs s.cases views
    → Fresh s.jobs h.job
    → retry x h s ≡ ok (tt, s')
    → Sound s'.jobs s'.cases views
      × (s'.cases ≡ s.cases)
      × LeftAs h.job
          (λ r. (r.status ≡ JobStatus.retrying) × (r.reserved_cost ≡ h.job.reserved_cost))
          s'.jobs
unfolding retry
retry-Sound x h s s' views sound fresh e =
    let (t, lifted, rest) = then-eq-ok _ _ s s' tt e in
    let (_, same) = lift-eq-ok _ s t tt lifted in
    let (one', jobs', cases') = write-keep _ _ _ _ _ t s' tt (search frame) rest in
    let one : count_where (guard_of h.job JobStatus.processing) s.jobs ≡ 1 = rw same at one' in
    let f = stamped x.now (retrying_row x) in
    let (r, held, there) =
      LeftAs-write f (retrying_row-IsWrite x) h.job JobStatus.processing s.jobs fresh one
        (sound.unique h.job.id) in
    rw (jobs', cases', same)
      (
        Sound-write f (retrying_row-IsWrite x) h.job JobStatus.processing s.jobs fresh one
            h.job.reserved_cost s.cases s.cases views sound (λ k same_cost. same_cost)
            (Moves-refl h.job s.jobs s.cases views sound),
        refl,
        (f r, there, (refl, held)),
      )

settle_in-Moves :
    (negative : String) (now actual : ℕ) (v : Job) (organization_id k : String) (c : CaseRow)
    (s t : Store) (x : Settlement)
    → Within s.cases
    → v.case_id ≡ some k
    → lock_case organization_id k s ≡ some c
    → actual ≤ v.reserved_cost
    → settle_in negative now actual v.reserved_cost organization_id k c s ≡ ok (x, t)
    → (t.jobs ≡ s.jobs)
      × Booked k actual v.reserved_cost s.cases t.cases
      × Moves v 0 s.cases t.cases
unfolding settle_in settle
settle_in-Moves negative now actual v organization_id k c s t x within linked locked fits e =
    let (u, checked, rest) = then-eq-ok _ _ s t x e in
    let (enough, same) = refuse-eq-ok _ negative s u checked in
    let (w, updated, jobs, cases, _) =
      then-end _ _ (settle now actual v.reserved_cost c) u t x (search frame) (search ends) rest in
    let room = within k c (locked-case organization_id k c s locked).0 in
    let (same_jobs, moves) =
      Moves-update_case v 0 organization_id k _ c s w within linked locked (ground arith)
        (ground arith) (rw same at updated) in
    let booked =
      Booked-update_case organization_id k _ c actual v.reserved_cost s w locked refl (ground arith)
        refl (rw same at updated) in
    (jobs ∙ same_jobs, rw cases booked, rw cases moves)

-- A settlement within the reservation books its amounts, and takes nothing from the room of the
-- budget.
pub settle_case-Moves :
    (accepts : CaseRow → Bool) (refused negative : String) (now actual : ℕ) (v : Job)
    (organization_id k : String) (s t : Store) (x : Settlement)
    → Within s.cases
    → v.case_id ≡ some k
    → actual ≤ v.reserved_cost
    → settle_case accepts refused negative now actual v.reserved_cost organization_id k s
      ≡ ok (x, t)
    → (t.jobs ≡ s.jobs)
      × Booked k actual v.reserved_cost s.cases t.cases
      × Moves v 0 s.cases t.cases
unfolding settle_case settle_in settle
settle_case-Moves accepts refused negative now actual v organization_id k s t x within linked fits
      e =
    elim (Option-cases (lock_case organization_id k s)) [
      | inl gone ↦ absurd (cc (rw (gone, settle_case) at e))
      | inr (c, locked) ↦ elim (Bool-cases (accepts c)) [
        | inr other ↦ absurd (cc (rw (other) at (rw (locked, settle_case) at e)))
        | inl same ↦
            settle_in-Moves negative now actual v organization_id k c s t x within linked locked
              fits (rw same at (rw (locked, settle_case) at e))
      ]
    ]

failed_row-IsWrite :
    (x : Failure) (h : Claimed) (n : ℕ) → IsWrite (stamped x.now (failed_row x h n))
failed_row-IsWrite x h n = record { id = λ k. refl; version = λ k. refl; case_id = λ k. refl }

pub within-reservation : (actual reserved : ℕ) → ltb reserved actual ≡ false → actual ≤ reserved
within-reservation actual reserved e = ground arith

pub failure_cost-eq-ok :
    (h : Claimed) (measured : MeasuredCost) (s t : Store) (actual : ℕ)
    → failure_cost h measured s ≡ ok (actual, t)
    → (t ≡ s) × (cost_decimal measured.amount ≡ ok actual) × (actual ≤ h.job.reserved_cost)
unfolding failure_cost
failure_cost-eq-ok h measured s t actual e =
    let (s1, checked, e1) = then-eq-ok _ _ s t actual e in
    let (_, same1) = refuse-eq-ok _ _ s s1 checked in
    let (n, s2, parsed, e2) = bind-eq-ok _ _ s1 t actual e1 in
    let (reads, same2) = lift-eq-ok _ s1 s2 n parsed in
    let (s3, bounded, e3) = then-eq-ok _ _ s2 t actual e2 in
    let (fits, same3) = refuse-eq-ok _ _ s2 s3 bounded in
    let (same_n, same4) = return-eq-ok n s3 t actual e3 in
    (
      same4 ∙ same3 ∙ same2 ∙ same1,
      reads ∙ ap ok (sym same_n),
      rw same_n (within-reservation n h.job.reserved_cost fits),
    )

-- What a failure leaves behind: the measured cost is spent and the reservation released, in the
-- budget of the case, and the row has failed, with no reservation and with the cost added.
pub record Failed (h : Claimed) (measured : MeasuredCost) (s s' : Store) : Type 0 where
  pub actual : ℕ
  pub read : cost_decimal measured.amount ≡ ok actual
  pub booked : Booked h.case_id actual h.job.reserved_cost s.cases s'.cases
  pub row :
      LeftAs h.job
        (λ r.
          (r.status ≡ JobStatus.failed)
          × (r.reserved_cost ≡ 0)
          × (r.cost ≡ some (or_else h.job.cost 0 + actual)))
        s'.jobs

finish_failure-Sound :
    (x : Failure) (h : Claimed) (measured : MeasuredCost) (actual : ℕ) (s t s' : Store)
    (views : List Job)
    → Sound s.jobs s.cases views
    → Fresh s.jobs h.job
    → cost_decimal measured.amount ≡ ok actual
    → t.jobs ≡ s.jobs
    → Booked h.case_id actual h.job.reserved_cost s.cases t.cases
    → Moves h.job 0 s.cases t.cases
    → finish_failure x h actual t ≡ ok (tt, s')
    → Sound s'.jobs s'.cases views × Failed h measured s s'
unfolding finish_failure
finish_failure-Sound x h measured actual s t s' views sound fresh reads same booked moves e =
    let (one', jobs', cases') = write-keep _ _ _ _ _ t s' tt (search frame) e in
    let one : count_where (guard_of h.job JobStatus.processing) s.jobs ≡ 1 = rw same at one' in
    let f = stamped x.now (failed_row x h actual) in
    let (r, held, there) =
      LeftAs-write f (failed_row-IsWrite x h actual) h.job JobStatus.processing s.jobs fresh one
        (sound.unique h.job.id) in
    let jobs : s'.jobs ≡ update_where (guard_of h.job JobStatus.processing) f s.jobs =
      rw same at jobs' in
    (
      rw (jobs, cases')
          (Sound-write f (failed_row-IsWrite x h actual) h.job JobStatus.processing s.jobs fresh one
            0 s.cases t.cases views sound (λ k same_cost. refl) moves),
      record {
        actual = actual;
        read = reads;
        booked = rw cases' booked;
        row = (f r, ap (find_first (has_id h.job.id)) jobs ∙ there, (refl, refl, refl));
      },
    )

settle_failure-Sound :
    (x : Failure) (h : Claimed) (measured : MeasuredCost) (actual : ℕ) (s s' : Store)
    (views : List Job)
    → Sound s.jobs s.cases views
    → Fresh s.jobs h.job
    → h.job.case_id ≡ some h.case_id
    → cost_decimal measured.amount ≡ ok actual
    → actual ≤ h.job.reserved_cost
    → (do settlement ← settle_failure x h actual; finish_failure x h actual) s ≡ ok (tt, s')
    → Sound s'.jobs s'.cases views × Failed h measured s s'
settle_failure-Sound x h measured actual s s' views sound fresh linked reads fits e =
    let (settlement, t, settles, rest) = bind-eq-ok _ _ s s' tt e in
    let (same, booked, moves) =
      settle_case-Moves _ _ _ x.now actual h.job h.job.organization_id h.case_id s t settlement
        sound.within linked fits settles in
    finish_failure-Sound x h measured actual s t s' views sound fresh reads same booked moves rest

-- From a sound state, a failure that returns, of a job whose snapshot is fresh and names its
-- case, ends in a sound state. The budget of the case has spent the measured cost more and reserved
-- what the job held less, its limit and the other cases stay; the row of the job has failed, holds
-- nothing and has the measured cost added to the cost of the snapshot.
pub fail-Sound :
    (x : Failure) (h : Claimed) (measured : MeasuredCost) (s s' : Store) (views : List Job)
    → Sound s.jobs s.cases views
    → Fresh s.jobs h.job
    → h.job.case_id ≡ some h.case_id
    → fail x h measured s ≡ ok (tt, s')
    → Sound s'.jobs s'.cases views × Failed h measured s s'
unfolding fail
fail-Sound x h measured s s' views sound fresh linked e =
    let (s1, lifted, e1) = then-eq-ok _ _ s s' tt e in
    let (_, same1) = lift-eq-ok _ s s1 tt lifted in
    let (actual, s2, measures, e2) = bind-eq-ok _ _ s1 s' tt e1 in
    let (same2, reads, fits) = failure_cost-eq-ok h measured s1 s2 actual measures in
    settle_failure-Sound x h measured actual s s' views sound fresh linked reads fits (
      subst
        (λ w.
          (do settlement ← settle_failure x h actual; finish_failure x h actual) w ≡ ok (tt, s'))
        (same2 ∙ same1) e2)
