-- ===== src/Processing/Accounting/Cancel.antt =====
-- A cancellation of a row that the table has keeps the accounting; one of a row that has changed
-- since it was read does not.
use lex_os.Prelude.{
  ℕ, ◌≡◌, ◌⊎◌, ◌∙◌, refl, sym, ap, find_first, inl, inr, Bool, true, false, Option, none, some,
  List, String, Result, ok, arith, ◌==◌, ==_iff, count_where, update_where, count_where-le,
  update_where_none, Bool-cases, Option-cases,
}
use lex_os.Processing.Status.{JobStatus}
use lex_os.Processing.Rows.{Job, CaseRow}
use lex_os.Processing.Store.{Store, ◌>>=◌, stamped, find_job, update_jobs}
use lex_os.Processing.Settle.{
  cancelled_row, report_cancelled, is_cancellable, cancel_current, cancel,
}
use lex_os.Processing.Accounting.{has_id, Fresh, Sound}
use lex_os.Processing.Accounting.Moves.{
  IsWrite, guard_of, guarded-has_id, share, Moves, Sound-write,
}
use lex_os.Processing.Accounting.Booked.{LeftAs, LeftAs-write}
use lex_os.Processing.Accounting.Release.{Released, found-Fresh, count-own, release-Moves}
use lex_os.Processing.Accounting.Frame.{
  Keeps, then-eq-ok, lift-eq-ok, return-eq-ok, return-Keeps, then-Keeps, audit-Keeps,
}

report_cancelled-Keeps :
    (correlation_id : String) (j : Job) (done : Bool)
    → Keeps (report_cancelled correlation_id j done)
unfolding report_cancelled
report_cancelled-Keeps correlation_id j false = return-Keeps false
report_cancelled-Keeps correlation_id j true = then-Keeps _ _ (audit-Keeps _) (return-Keeps true)

report_cancelled-answer :
    (correlation_id : String) (j : Job) (won : Bool) (s s' : Store) (done : Bool)
    → report_cancelled correlation_id j won s ≡ ok (done, s')
    → done ≡ won
unfolding report_cancelled
report_cancelled-answer correlation_id j false s s' done e = (return-eq-ok false s s' done e).0
report_cancelled-answer correlation_id j true s s' done e =
    let (t, noted, rest) = then-eq-ok _ _ s s' done e in (return-eq-ok true t s' done rest).0

cancelled_row-IsWrite : (now : ℕ) → IsWrite (stamped now (cancelled_row now))
cancelled_row-IsWrite now = record { id = λ k. refl; version = λ k. refl; case_id = λ k. refl }

-- The update of the job and its report, whatever the count.
update-report :
    (now : ℕ) (correlation_id : String) (j : Job) (s s' : Store) (done : Bool)
    → (do
      count ← update_jobs now (guard_of j j.status) (cancelled_row now)
      report_cancelled correlation_id j (count == 1))
        s
      ≡ ok (done, s')
    → (s'.jobs ≡ update_where (guard_of j j.status) (stamped now (cancelled_row now)) s.jobs)
      × (s'.cases ≡ s.cases)
      × (done ≡ (count_where (guard_of j j.status) s.jobs == 1))
unfolding update_jobs ◌>>=◌
update-report now correlation_id j s s' done e =
    let won = count_where (guard_of j j.status) s.jobs == 1 in
    let t : Store = record s {
      jobs = update_where (guard_of j j.status) (stamped now (cancelled_row now)) s.jobs;
    } in
    let (jobs, cases) = (report_cancelled-Keeps correlation_id j won).keeps t s' done e in
    (jobs, cases, report_cancelled-answer correlation_id j won t s' done e)

-- What a cancellation that wins leaves behind: what the job held is given back to its case, and the
-- row is cancelled and holds nothing.
pub record Cancelled (j : Job) (s s' : Store) : Type 0 where
  pub released : Released j s.cases s'.cases
  pub row : LeftAs j (λ r. (r.status ≡ JobStatus.cancelled) × (r.reserved_cost ≡ 0)) s'.jobs

-- A release of nothing.
Sound-same_money :
    (j : Job) (jobs : List Job) (cases cases' : String → Option CaseRow) (views : List Job)
    → Sound jobs cases views
    → j.reserved_cost ≡ 0
    → Moves j 0 cases cases'
    → Sound jobs cases' views
Sound-same_money j jobs cases cases' views sound free moves = record {
  unique = sound.unique;
  accounted = λ k c' e'.
      let (c, e, moved, fits) = moves k c' e' in
      omega (arith, ap (share k j) free, sound.accounted k c e);
  within = λ k c' e'. let (c, e, moved, fits) = moves k c' e' in fits;
  fresh = sound.fresh;
}

module _ (now : ℕ) (correlation_id : String) (j : Job) (s s' : Store) (done : Bool)
    (views : List Job) (sound : Sound s.jobs s.cases views) where
  -- The release, the update and the count of a cancellation that returns.
  cancel_current-eq-ok :
      cancel_current now correlation_id j s ≡ ok (done, s')
      → Released j s.cases s'.cases
        × (s'.jobs ≡ update_where (guard_of j j.status) (stamped now (cancelled_row now)) s.jobs)
        × (done ≡ (count_where (guard_of j j.status) s.jobs == 1))
        × Moves j 0 s.cases s'.cases
  unfolding cancel_current
  cancel_current-eq-ok e =
      let (s1, lifted, e1) = then-eq-ok _ _ s s' done e in
      let (_, same1) = lift-eq-ok _ s s1 tt lifted in
      let (s2, frees, e2) = then-eq-ok _ _ s1 s' done e1 in
      let (jobs, released, moves) = release-Moves j s s2 views sound (rw same1 at frees) in
      let (jobs', cases', won) = update-report now correlation_id j s2 s' done e2 in
      (rw cases' released, rw jobs at jobs', rw jobs at won, rw cases' moves)

  -- A cancellation of a fresh view that wins its race.
  pub cancel_current-Sound_won :
      Fresh s.jobs j
      → done ≡ true
      → cancel_current now correlation_id j s ≡ ok (done, s')
      → Sound s'.jobs s'.cases views × Cancelled j s s'
  cancel_current-Sound_won fresh won e =
      let (released, jobs, counted, moves) = cancel_current-eq-ok e in
      let one : count_where (guard_of j j.status) s.jobs ≡ 1 =
        (==_iff (count_where (guard_of j j.status) s.jobs) 1).0 (sym counted ∙ won) in
      let f = stamped now (cancelled_row now) in
      let (r, held, there) =
        LeftAs-write f (cancelled_row-IsWrite now) j j.status s.jobs fresh one
          (sound.unique j.id) in
      (
        rw jobs (
            Sound-write f (cancelled_row-IsWrite now) j j.status s.jobs fresh one 0 s.cases s'.cases
              views sound (λ k same_cost. refl) moves),
        record {
          released = released;
          row = (f r, ap (find_first (has_id j.id)) jobs ∙ there, (refl, refl));
        },
      )

  -- One that loses its race, and held nothing, changes nothing that the accounting reads.
  pub cancel_current-Sound_lost :
      j.reserved_cost ≡ 0
      → done ≡ false
      → cancel_current now correlation_id j s ≡ ok (done, s')
      → Sound s'.jobs s'.cases views
  cancel_current-Sound_lost free lost e =
      let (released, jobs, counted, moves) = cancel_current-eq-ok e in
      let missed : (count_where (guard_of j j.status) s.jobs == 1) ≡ false = sym counted ∙ lost in
      let few =
        count_where-le (has_id j.id) (guard_of j j.status) s.jobs (guarded-has_id j j.status) in
      let unique = sound.unique j.id in
      let none_hit : count_where (guard_of j j.status) s.jobs ≡ 0 = ground arith in
      rw
        (
          jobs,
          update_where_none (guard_of j j.status) (stamped now (cancelled_row now)) s.jobs none_hit,
        )
        (Sound-same_money j s.jobs s.cases s'.cases views sound free moves)

-- There is no job to cancel.
abbrev pub Nothing : String → String → List Job → Type 0
Nothing organization_id id jobs =
    (find_job organization_id id jobs ≡ none)
    ⊎ ((j : Job) × (find_job organization_id id jobs ≡ some j) × (is_cancellable j.status ≡ false))

-- What a cancellation answers, and what it leaves behind.
abbrev pub Answers : String → String → Store → Store → Bool → Type 0
Answers organization_id id s s' done =
    (Nothing organization_id id s.jobs × (done ≡ false) × (s' ≡ s))
    ⊎ ((j : Job) × (find_job organization_id id s.jobs ≡ some j)
        × (is_cancellable j.status ≡ true)
        × (done ≡ true)
        × Cancelled j s s')

unchanged :
    (organization_id id : String) (s s' : Store) (done : Bool) (views : List Job)
    → Sound s.jobs s.cases views
    → Nothing organization_id id s.jobs
    → ◌≡◌ {A = Result (Bool × Store)} (ok (false, s)) (ok (done, s'))
    → Sound s'.jobs s'.cases views × Answers organization_id id s s' done
unchanged organization_id id s s' done views sound missing same =
    let store : s' ≡ s = cc in
    let answer : done ≡ false = cc in (rw store sound, inl (missing, answer, store))

-- From a sound state, a cancellation that returns ends in a sound state, where no other
-- transaction comes between its read and its write. It reports false and changes nothing if there
-- is no such job or its status is not queued, retrying or processing; otherwise it reports true,
-- what the job held is given back to its case (spent, limit and the other cases stay), and the row
-- of the job is cancelled and holds nothing.
pub cancel-Sound :
    (now : ℕ) (correlation_id organization_id id : String) (s s' : Store) (done : Bool)
    (views : List Job)
    → Sound s.jobs s.cases views
    → cancel now correlation_id organization_id id s ≡ ok (done, s')
    → Sound s'.jobs s'.cases views × Answers organization_id id s s' done
unfolding cancel
cancel-Sound now correlation_id organization_id id s s' done views sound e =
    elim (Option-cases (find_job organization_id id s.jobs)) [
      | inl gone ↦
          unchanged organization_id id s s' done views sound (inl gone) (rw (gone, cancel) at e)
      | inr (j, found) ↦ elim (Bool-cases (is_cancellable j.status)) [
        | inr over ↦
            unchanged organization_id id s s' done views sound (inr (j, found, over))
              (rw over at (rw (found, cancel) at e))
        | inl open_status ↦
            let e' = rw open_status at (rw (found, cancel) at e) in
            let (_, _, counted, _) =
              cancel_current-eq-ok now correlation_id j s s' done views sound e' in
            let one = count-own organization_id id s.jobs j sound.unique found in
            let won : done ≡ true = counted ∙ (==_iff _ 1).1 one in
            let (sound', cancelled) =
              cancel_current-Sound_won now correlation_id j s s' done views sound
                (found-Fresh organization_id id s.jobs j sound.unique found) won e' in
            (sound', inr (j, found, open_status, won, cancelled))
      ]
    ]
