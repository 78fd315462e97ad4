-- ===== src/Processing/CancelRace.antt =====
-- A cancellation whose row changes between its read and its write: `cancel` of
-- apps/worker/src/processing/processing.repository.ts.
use lex_os.Prelude.{
  ℕ, ◌-◌, ◌<◌, ◌≤◌, ◌≡◌, refl, true, false, some, String, ok, arith, ltb, ◌==◌, if◌then◌else◌,
  text_eq_refl, count_where, update_where, update_where_none,
}
use lex_os.Processing.Status.{JobStatus, can_transition, assert_transition}
use lex_os.Processing.Rows.{Job, CaseRow}
use lex_os.Processing.Store.{
  Store, ◌>>=◌, ◌>>◌, return, lift, refuse_if, at_version, update_jobs, lock_case, update_case,
  update_row, is_live_case, stamped,
}
use lex_os.Processing.Settle.{
  cancel_current, release, release_from, release_in, report_cancelled, cancelled_row,
}
use lex_os.Processing.Accounting.Moves.{locked-case}

abbrev pub released_store : Job → String → CaseRow → Store → Store
released_store j k c s = record s {
  cases =
      update_row k
        (λ r.
          if is_live_case j.organization_id r
          then record r { reserved = c.reserved - j.reserved_cost }
          else r)
        s.cases;
}

release-eq :
    (j : Job) (k : String) (c : CaseRow) (s : Store)
    → 0 < j.reserved_cost
    → j.case_id ≡ some k
    → lock_case j.organization_id k s ≡ some c
    → j.reserved_cost ≤ c.reserved
    → release j s ≡ ok (tt, released_store j k c s)
unfolding release release_from release_in ◌>>◌ refuse_if update_case
release-eq j k c s held linked locked covers =
    let holds : (j.reserved_cost == 0) ≡ false = ground arith in
    let covered : ltb c.reserved j.reserved_cost ≡ false = ground arith in
    rw (holds, linked, locked, release_from, covered) refl

-- A cancellation that loses the race against another transaction says that nothing was
-- cancelled, changes no job, and has nevertheless taken the reservation of the job out of the
-- budget of its case: if the row that it read could be cancelled and held a reservation that the
-- case covers, and no row has that version any more.
pub cancel_current-lost_race :
    (now : ℕ) (correlation_id : String) (j : Job) (k : String) (c : CaseRow) (s : Store)
    → can_transition j.status JobStatus.cancelled ≡ true
    → 0 < j.reserved_cost
    → j.case_id ≡ some k
    → lock_case j.organization_id k s ≡ some c
    → j.reserved_cost ≤ c.reserved
    → count_where (at_version j.organization_id j.id j.status j.version) s.jobs ≡ 0
    → (s' : Store) × (cancel_current now correlation_id j s ≡ ok (false, s'))
      × (s'.jobs ≡ s.jobs)
      × (s'.cases k ≡ some (record c { reserved = c.reserved - j.reserved_cost }))
unfolding cancel_current assert_transition ◌>>◌ ◌>>=◌ lift update_jobs report_cancelled return
cancel_current-lost_race now correlation_id j k c s cancellable held linked locked covers lost =
    let (found, live) = locked-case j.organization_id k c s locked in
    (
      record (released_store j k c s) {
        jobs =
            update_where (at_version j.organization_id j.id j.status j.version)
              (stamped now (cancelled_row now)) s.jobs;
      },
      rw (cancellable, release-eq j k c s held linked locked covers, ◌>>◌, lost) refl,
      update_where_none _ _ s.jobs lost,
      rw (text_eq_refl k, found, live) refl,
    )
