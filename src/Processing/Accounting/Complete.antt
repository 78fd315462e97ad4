-- ===== src/Processing/Accounting/Complete.antt =====
-- A completion keeps the accounting, and books what it measured.
use lex_os.Prelude.{
  ℕ, ◌+◌, or_else, find_first, ◌≤◌, ◌≡◌, refl, sym, subst, ◌∙◌, ap, ◌⊎◌, inl, inr, Bool, false,
  Option, none, some, List, [], ◌∷◌, ◌++◌, String, ok, arith, any_where, count_where, update_where,
  true, Bool-cases,
}
use lex_os.Processing.Status.{JobStatus, JobType}
use lex_os.Processing.Cost.{cost_decimal}
use lex_os.Processing.Rows.{Job, CaseRow, DocumentStatus}
use lex_os.Processing.Store.{Store, ◌>>=◌, stamped}
use lex_os.Processing.Target.{Claimed}
use lex_os.Processing.Budget.{Settlement}
use lex_os.Processing.Completion.{StageCompletion, Runtime}
use lex_os.Processing.Complete.{
  NextJob, Stored, note_limit, child_row, create_job, create_next, completed_row, set_final_status,
  settle_completion, finish_job, completion_cost, close, complete,
}
use lex_os.Processing.Accounting.{has_id, Sound}
use lex_os.Processing.Accounting.Moves.{IsWrite, guard_of, Moves, Sound-write, Sound-append}
use lex_os.Processing.Accounting.Booked.{Booked, LeftAs, LeftAs-write}
use lex_os.Processing.Accounting.Frame.{
  Keeps, frame, bind-eq-ok, then-eq-ok, lift-eq-ok, return-eq-ok, refuse-eq-ok, write-keep,
  return-Keeps, audit-Keeps, update_document-Keeps,
}
use lex_os.Processing.Accounting.Settle.{settle_case-Moves, within-reservation}
use lex_os.Processing.Accounting.Stored.{store_result-Keeps}

completed_row-IsWrite :
    (env : Runtime) (h : Claimed) (c : StageCompletion) (n : ℕ) (r : Stored) (next : Option NextJob)
    → IsWrite (stamped env.now (completed_row env h c n r next))
completed_row-IsWrite env h c n r next = record {
  id = λ k. refl;
  version = λ k. refl;
  case_id = λ k. refl;
}

completion_cost-eq-ok :
    (h : Claimed) (c : StageCompletion) (s t : Store) (actual : ℕ)
    → completion_cost h c s ≡ ok (actual, t)
    → (t ≡ s) × (cost_decimal c.cost.amount ≡ ok actual) × (actual ≤ h.job.reserved_cost)
unfolding completion_cost
completion_cost-eq-ok h c s t actual e =
    let (n, s1, parsed, e1) = bind-eq-ok _ _ s t actual e in
    let (reads, same1) = lift-eq-ok _ s s1 n parsed in
    let (s2, checked, e2) = then-eq-ok _ _ s1 t actual e1 in
    let (_, same2) = refuse-eq-ok _ _ s1 s2 checked in
    let (s3, bounded, e3) = then-eq-ok _ _ s2 t actual e2 in
    let (fits, same3) = refuse-eq-ok _ _ s2 s3 bounded in
    let (same_n, same4) = return-eq-ok n s3 t actual e3 in
    (
      same4 ∙ same3 ∙ same2 ∙ same1,
      reads ∙ ap ok (sym same_n),
      rw same_n (within-reservation n h.job.reserved_cost fits),
    )

note_limit-Keeps :
    (env : Runtime) (h : Claimed) (c : StageCompletion) (t : Settlement)
    → Keeps (note_limit env h c t)
unfolding note_limit
note_limit-Keeps env h c t = elim (Bool-cases t.reached) [
  | inr room ↦ rw (room, note_limit) (return-Keeps tt)
  | inl reached ↦ elim (Bool-cases t.was_reached) [
    | inl old ↦ rw (reached, old, note_limit) (search frame)
    | inr new ↦ rw (reached, new, note_limit) (search frame)
  ]
]

-- The table after the next job is queued, if one is.
abbrev Grows : List Job → List Job → Type 0
Grows jobs jobs' =
    (jobs' ≡ jobs)
    ⊎ ((n : Job) × (any_where (has_id n.id) jobs ≡ false)
        × (n.reserved_cost ≡ 0)
        × (jobs' ≡ jobs ++ n ∷ []))

Grows-Sound :
    (jobs jobs' : List Job) (cases : String → Option CaseRow) (views : List Job)
    → Grows jobs jobs'
    → Sound jobs cases views
    → Sound jobs' cases views
Grows-Sound jobs jobs' cases views (inl same) h = rw same h
Grows-Sound jobs jobs' cases views (inr (n, free, none_held, same)) h =
    rw same (Sound-append n jobs free cases views none_held h)

create_job-Grows :
    (n : Job) (s s' : Store)
    → create_job n s ≡ ok (tt, s')
    → n.reserved_cost ≡ 0
    → Grows s.jobs s'.jobs × (s'.cases ≡ s.cases)
unfolding create_job
create_job-Grows n s s' e free = elim (Bool-cases (any_where (has_id n.id) s.jobs)) [
  | inl taken ↦ absurd (cc (rw taken at e))
  | inr new ↦ let e' = rw new at e in (inr (n, new, free, ground arith), ground arith)
]

create_next-Grows :
    (env : Runtime) (h : Claimed) (type : Option JobType) (reached : Bool) (s s' : Store)
    (next : Option NextJob)
    → create_next env h type reached s ≡ ok (next, s')
    → Grows s.jobs s'.jobs × (s'.cases ≡ s.cases)
unfolding create_next
create_next-Grows env h none reached s s' next e =
    let (_, same) = return-eq-ok none s s' next e in rw same (inl refl, refl)
create_next-Grows env h (some type) true s s' next e =
    let (_, same) = return-eq-ok none s s' next e in rw same (inl refl, refl)
create_next-Grows env h (some type) false s s' next e =
    let (t, created, rest) = then-eq-ok _ _ s s' next e in
    let (_, same) = return-eq-ok _ t s' next rest in
    rw same (create_job-Grows (child_row env h type) s t created refl)

set_final_status-Keeps :
    (h : Claimed) (status : Option DocumentStatus) → Keeps (set_final_status h status)
unfolding set_final_status
set_final_status-Keeps h none = return-Keeps tt
set_final_status-Keeps h (some status) = update_document-Keeps _ _ _

finish_job-eq-ok :
    (env : Runtime) (h : Claimed) (c : StageCompletion) (n : ℕ) (t : Settlement) (r : Stored)
    (next : Option NextJob) (s s' : Store)
    → finish_job env h c n t r next s ≡ ok (tt, s')
    → (count_where (guard_of h.job JobStatus.processing) s.jobs ≡ 1)
      × (s'.jobs
          ≡ update_where
              (guard_of h.job JobStatus.processing)
              (stamped env.now (completed_row env h c n r next))
              s.jobs)
      × (s'.cases ≡ s.cases)
unfolding finish_job
finish_job-eq-ok env h c n t r next s s' e =
    let (u, set, rest) = then-eq-ok _ _ s s' tt e in
    let (jobs, cases) = (set_final_status-Keeps h c.final_document_status).keeps s u tt set in
    let (one, jobs', cases') = write-keep _ _ _ _ _ u s' tt (audit-Keeps _) rest in
    (rw jobs at one, rw jobs at jobs', cases' ∙ cases)

-- What a completion leaves behind: the measured cost is spent and the reservation released, in the
-- budget of the case, and the row is completed, with no reservation and with the cost added.
pub record Completed (h : Claimed) (c : StageCompletion) (s s' : Store) : Type 0 where
  pub actual : ℕ
  pub read : cost_decimal c.cost.amount ≡ ok actual
  pub booked : Booked h.case_id actual h.job.reserved_cost s.cases s'.cases
  pub row :
      LeftAs h.job
        (λ r.
          (r.status ≡ JobStatus.completed)
          × (r.reserved_cost ≡ 0)
          × (r.cost ≡ some (or_else h.job.cost 0 + actual)))
        s'.jobs

close_steps-Sound :
    (env : Runtime) (h : Claimed) (c : StageCompletion) (n : ℕ) (r : Stored) (t : Settlement)
    (next : Option NextJob) (s u v w s' : Store) (views : List Job)
    → Sound s.jobs s.cases (h.job ∷ views)
    → u.jobs ≡ s.jobs
    → Moves h.job 0 s.cases u.cases
    → Grows u.jobs v.jobs × (v.cases ≡ u.cases)
    → cost_decimal c.cost.amount ≡ ok n
    → Booked h.case_id n h.job.reserved_cost s.cases u.cases
    → finish_job env h c n t r next v ≡ ok (tt, w)
    → s' ≡ w
    → Sound s'.jobs s'.cases (h.job ∷ views) × Completed h c s s'
close_steps-Sound env h c n r t next s u v w s' views sound same moves (grown, kept) reads booked
      finished last =
    let (one, jobs, cases) = finish_job-eq-ok env h c n t r next v w finished in
    let grows : Grows s.jobs v.jobs = subst (λ js. Grows js v.jobs) same grown in
    let sound' = Grows-Sound s.jobs v.jobs s.cases (h.job ∷ views) grows sound in
    let f = stamped env.now (completed_row env h c n r next) in
    let moves' : Moves h.job 0 s.cases v.cases = rw kept moves in
    let write = completed_row-IsWrite env h c n r next in
    let (row, held, there) =
      LeftAs-write f write h.job JobStatus.processing v.jobs sound'.fresh.0 one
        (sound'.unique h.job.id) in
    let all_jobs : s'.jobs ≡ update_where (guard_of h.job JobStatus.processing) f v.jobs =
      ap (λ (z : Store). z.jobs) last ∙ jobs in
    let all_cases : s'.cases ≡ u.cases = ap (λ (z : Store). z.cases) last ∙ cases ∙ kept in
    (
      rw (last, jobs, cases)
          (Sound-write f write h.job JobStatus.processing v.jobs sound'.fresh.0 one 0 s.cases
            v.cases (h.job ∷ views) sound' (λ k same_cost. refl) moves'),
      record {
        actual = n;
        read = reads;
        booked = rw all_cases booked;
        row = (f row, ap (find_first (has_id h.job.id)) all_jobs ∙ there, (refl, refl, refl));
      },
    )

-- From the settled budget on: the next job is queued and the job is finished.
close-Sound :
    (env : Runtime) (h : Claimed) (c : StageCompletion) (n : ℕ) (r : Stored) (t : Settlement)
    (s u s' : Store) (next : Option NextJob) (views : List Job)
    → Sound s.jobs s.cases (h.job ∷ views)
    → u.jobs ≡ s.jobs
    → Moves h.job 0 s.cases u.cases
    → cost_decimal c.cost.amount ≡ ok n
    → Booked h.case_id n h.job.reserved_cost s.cases u.cases
    → close env h c n r t u ≡ ok (next, s')
    → Sound s'.jobs s'.cases (h.job ∷ views) × Completed h c s s'
unfolding close
close-Sound env h c n r t s u s' next views sound same moves reads booked e =
    let (u1, noted, e1) = then-eq-ok _ _ u s' next e in
    let (jobs1, cases1) = (note_limit-Keeps env h c t).keeps u u1 tt noted in
    let (made, u2, queued, e2) = bind-eq-ok _ _ u1 s' next e1 in
    let (u3, finished, e3) = then-eq-ok _ _ u2 s' next e2 in
    let (_, last) = return-eq-ok made u3 s' next e3 in
    close_steps-Sound env h c n r t made s u1 u2 u3 s' views sound (jobs1 ∙ same) (rw cases1 moves)
      (create_next-Grows env h c.next_job_type t.reached u1 u2 made queued) reads (rw cases1 booked)
      finished last

settle_and_close-Sound :
    (env : Runtime) (h : Claimed) (c : StageCompletion) (n : ℕ) (r : Stored) (s s' : Store)
    (next : Option NextJob) (views : List Job)
    → Sound s.jobs s.cases (h.job ∷ views)
    → h.job.case_id ≡ some h.case_id
    → cost_decimal c.cost.amount ≡ ok n
    → n ≤ h.job.reserved_cost
    → (do t ← settle_completion env h c n; close env h c n r t) s ≡ ok (next, s')
    → Sound s'.jobs s'.cases (h.job ∷ views) × Completed h c s s'
settle_and_close-Sound env h c n r s s' next views sound linked reads fits e =
    let (t, u, settles, rest) = bind-eq-ok _ _ s s' next e in
    let (same, booked, moves) =
      settle_case-Moves _ _ _ env.now n h.job h.job.organization_id h.case_id s u t sound.within
        linked fits settles in
    close-Sound env h c n r t s u s' next views sound same moves reads booked rest

-- From a sound state, a completion that returns, of a job whose snapshot is among the views and
-- names its case, ends in a sound state, with whatever result it stores and whether or not it
-- queues a next job. The budget of the case has spent the measured cost more and reserved what the
-- job held less, its limit and the other cases stay; the row of the job is completed, holds nothing
-- and has the measured cost added to the cost of the snapshot.
pub complete-Sound :
    (env : Runtime) (h : Claimed) (c : StageCompletion) (s s' : Store) (next : Option NextJob)
    (views : List Job)
    → Sound s.jobs s.cases (h.job ∷ views)
    → h.job.case_id ≡ some h.case_id
    → complete env h c s ≡ ok (next, s')
    → Sound s'.jobs s'.cases (h.job ∷ views) × Completed h c s s'
unfolding complete
complete-Sound env h c s s' next views sound linked e =
    let (s1, lifted, e1) = then-eq-ok _ _ s s' next e in
    let (_, same1) = lift-eq-ok _ s s1 tt lifted in
    let (n, s2, measures, e2) = bind-eq-ok _ _ s1 s' next e1 in
    let (same2, reads, fits) = completion_cost-eq-ok h c s1 s2 n measures in
    let (r, s3, stores, e3) = bind-eq-ok _ _ s2 s' next e2 in
    let (jobs, cases) = (store_result-Keeps env h c).keeps s2 s3 r stores in
    let here : s2 ≡ s = same2 ∙ same1 in
    let same_jobs : s3.jobs ≡ s.jobs = jobs ∙ ap (λ (w : Store). w.jobs) here in
    let same_cases : s3.cases ≡ s.cases = cases ∙ ap (λ (w : Store). w.cases) here in
    let (sound', done) =
      settle_and_close-Sound env h c n r s3 s' next views
        (subst (λ js. Sound js s3.cases (h.job ∷ views)) (sym same_jobs)
          (subst (λ cs. Sound s.jobs cs (h.job ∷ views)) (sym same_cases) sound))
        linked reads fits e3 in
    (
      sound',
      record {
        actual = done.actual;
        read = done.read;
        booked =
            subst (λ cs. Booked h.case_id done.actual h.job.reserved_cost cs s'.cases) same_cases
              done.booked;
        row = done.row;
      },
    )
