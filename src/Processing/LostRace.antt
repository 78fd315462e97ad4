-- ===== src/Processing/LostRace.antt =====
-- A worker that lost its race, because its job was cancelled or claimed again while it executed:
-- `retry` and `fail` of apps/worker/src/processing/processing.repository.ts under `withTransaction`.
use lex_os.Prelude.{ℕ, ◌≡◌, refl, subst, some, ◌∙◌, String, Result, ok, err, arith, count_where}
use lex_os.Processing.Status.{JobStatus}
use lex_os.Processing.Store.{Store, Tx, thrown, with_transaction}
use lex_os.Processing.Target.{Claimed}
use lex_os.Processing.Completion.{MeasuredCost}
use lex_os.Processing.Settle.{Failure, retry, fail, finish_failure, settle_failure}
use lex_os.Processing.Accounting.{Within}
use lex_os.Processing.Accounting.Moves.{guard_of}
use lex_os.Processing.Accounting.Frame.{then-eq-ok, bind-eq-ok, lift-eq-ok, write-keep, frame}
use lex_os.Processing.Accounting.Settle.{settle_case-Moves, failure_cost-eq-ok}

retry-counts :
    (x : Failure) (h : Claimed) (s s' : Store)
    → retry x h s ≡ ok (tt, s')
    → count_where (guard_of h.job JobStatus.processing) s.jobs ≡ 1
unfolding retry
retry-counts x h s s' e =
    let (t, lifted, rest) = then-eq-ok _ _ s s' tt e in
    let (_, same) = lift-eq-ok _ s t tt lifted in
    let (one, jobs, cases) = write-keep _ _ _ _ _ t s' tt (search frame) rest in rw same at one

finish_failure-counts :
    (x : Failure) (h : Claimed) (actual : ℕ) (s s' : Store)
    → finish_failure x h actual s ≡ ok (tt, s')
    → count_where (guard_of h.job JobStatus.processing) s.jobs ≡ 1
unfolding finish_failure
finish_failure-counts x h actual s s' e =
    let (one, jobs, cases) = write-keep _ _ _ _ _ s s' tt (search frame) e in one

fail-counts :
    (x : Failure) (h : Claimed) (measured : MeasuredCost) (s s' : Store)
    → Within s.cases
    → h.job.case_id ≡ some h.case_id
    → fail x h measured s ≡ ok (tt, s')
    → count_where (guard_of h.job JobStatus.processing) s.jobs ≡ 1
unfolding fail
fail-counts x h measured s s' within linked e =
    let (s1, lifted, e1) = then-eq-ok _ _ s s' tt e in
    let (_, same1) = lift-eq-ok _ s s1 tt lifted in
    let (actual, s2, measures, e2) = bind-eq-ok _ _ s1 s' tt e1 in
    let (same2, reads, fits) = failure_cost-eq-ok h measured s1 s2 actual measures in
    let (settlement, t, settles, rest) = bind-eq-ok _ _ s2 s' tt e2 in
    let here : s2 ≡ s = same2 ∙ same1 in
    let (same, booked, moves) =
      settle_case-Moves _ _ _ x.now actual h.job h.job.organization_id h.case_id s t settlement
        within linked fits
        (subst (λ w. settle_failure x h actual w ≡ ok (settlement, t)) here settles) in
    rw same at (finish_failure-counts x h actual t s' rest)

-- A transaction that cannot return leaves the store as it was.
thrown-same :
    (m : Tx (Unit {0})) (s : Store)
    → ((s' : Store) → m s ≡ ok (tt, s') → ⊥)
    → (e : String) × (with_transaction m s ≡ (thrown e, s))
unfolding with_transaction
thrown-same m s never = go (m s) refl
  where
    go :
        (r : Result (Unit {0} × Store))
        → m s ≡ r
        → (e : String) × (with_transaction m s ≡ (thrown e, s))
    go (ok (tt, s')) same = absurd (never s' same)
    go (err e) same = (e, rw (same, with_transaction) refl)

-- A worker whose job is no longer running at the version of its snapshot can record neither a
-- retry nor a failure: both transactions throw and leave the store as it was, so nothing is
-- settled twice. The snapshot names its case, and the budgets are within their limits.
pub lost_race-thrown :
    (x : Failure) (h : Claimed) (measured : MeasuredCost) (s : Store)
    → Within s.cases
    → h.job.case_id ≡ some h.case_id
    → count_where (guard_of h.job JobStatus.processing) s.jobs ≡ 0
    → ((e : String) × (with_transaction (retry x h) s ≡ (thrown e, s)))
      × ((e : String) × (with_transaction (fail x h measured) s ≡ (thrown e, s)))
lost_race-thrown x h measured s within linked lost = (
  thrown-same (retry x h) s (λ s' e. absurd (omega (arith, lost, retry-counts x h s s' e))),
  thrown-same (fail x h measured) s
      (λ s' e. absurd (omega (arith, lost, fail-counts x h measured s s' within linked e))),
)
