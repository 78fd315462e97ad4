-- ===== src/Processing/Pipeline/Sound.antt =====
-- A delivery keeps the accounting of money, however it ends
-- (apps/worker/src/processing/pipeline-processor.service.ts).
use lex_os.Prelude.{
  ◌≡◌, refl, inl, inr, Option, none, some, List, ◌∷◌, String, Result, ok, err, Bool-cases,
  Option-cases,
}
use lex_os.Processing.Status.{JobType}
use lex_os.Processing.Rows.{Job}
use lex_os.Processing.Store.{Store, Tx, Outcome, returned, thrown, with_transaction, find_job}
use lex_os.Processing.Target.{Claimed}
use lex_os.Processing.Claim.{Call, ClaimResult, budget_limit_reached, skip, claim}
use lex_os.Processing.Complete.{NextJob, complete}
use lex_os.Processing.Settle.{retry, fail}
use lex_os.Processing.Accounting.{Sound}
use lex_os.Processing.Accounting.Claim.{with_claimed}
use lex_os.Processing.Accounting.Reserve.{claim_current-Sound}
use lex_os.Processing.Accounting.Settle.{retry-Sound, fail-Sound}
use lex_os.Processing.Accounting.Release.{found-Fresh}
use lex_os.Processing.Accounting.Complete.{complete-Sound}
use lex_os.Processing.Pipeline.Providers.{ProcessingError, Attempt, done, raised, Providers}
use lex_os.Processing.Pipeline.Stages.{StageOutput}
use lex_os.Processing.Pipeline.Process.{
  CostPolicy, Delivery, after_failure, after_retry, handle_error, is_final_attempt, failure_of,
  completion_of, runtime_of, after_completion, stage_of, run_claimed, call_of, after_claim, process,
}
use lex_os.Processing.Pipeline.Linked.{IsLinked, claim_current-IsLinked}

-- What holds of the store before a transaction and after each return of it holds at its end.
transaction-keeps :
    {A : Type 0} (P : Store → Type 0) (m : Tx A) (s : Store)
    → P s
    → ((a : A) (s' : Store) → m s ≡ ok (a, s') → P s')
    → P (with_transaction m s).1
unfolding with_transaction
transaction-keeps {A} P m s before after = go (m s) refl
  where
    go : (r : Result (A × Store)) → m s ≡ r → P (with_transaction m s).1
    go (ok (a, s')) same = rw (same, with_transaction) (after a s' same)
    go (err e) same = rw (same, with_transaction) before

abbrev Accounts : List Job → Store → Type 0
Accounts views s = Sound s.jobs s.cases views

after_failure-store :
    (e : ProcessingError) (o : Outcome (Unit {0})) (s : Store) → (after_failure e (o, s)).store ≡ s
after_failure-store e (thrown m) s = refl
after_failure-store e (returned a) s = refl

after_retry-store :
    (e : ProcessingError) (o : Outcome (Unit {0})) (s : Store) → (after_retry e (o, s)).store ≡ s
after_retry-store e (thrown m) s = refl
after_retry-store e (returned a) s = refl

module _ (policy : CostPolicy) (d : Delivery) (h : Claimed)
    (linked : h.job.case_id ≡ some h.case_id) (views : List Job) where
  handle_error-Sound :
      (e : ProcessingError) (s : Store)
      → Accounts (h.job ∷ views) s
      → Accounts (h.job ∷ views) (handle_error policy d h e s).store
  unfolding handle_error
  handle_error-Sound e s sound = elim (Bool-cases (is_final_attempt d e)) [
    | inl final ↦
        let m = fail (failure_of d e) h (policy.measure_failure h.job.job_type e) in
        rw (final, after_failure-store e (with_transaction m s).0 (with_transaction m s).1)
          (transaction-keeps (Accounts (h.job ∷ views)) m s sound (λ a s' runs.
            (fail-Sound _ h _ s s' (h.job ∷ views) sound sound.fresh.0 linked runs).0))
    | inr again ↦
        let m = retry (failure_of d e) h in
        rw (again, after_retry-store e (with_transaction m s).0 (with_transaction m s).1)
          (transaction-keeps (Accounts (h.job ∷ views)) m s sound
            (λ a s' runs. (retry-Sound _ h s s' (h.job ∷ views) sound sound.fresh.0 runs).0))
  ]

  after_completion-Sound :
      (o : Outcome (Option NextJob)) (s : Store)
      → Accounts (h.job ∷ views) s
      → Accounts (h.job ∷ views) (after_completion policy d h (o, s)).store
  after_completion-Sound (thrown m) s sound = handle_error-Sound ProcessingError.internal s sound
  after_completion-Sound (returned next) s sound = sound

  run_claimed-Sound :
      (p : Providers) (expected : JobType) (s : Store)
      → Accounts (h.job ∷ views) s
      → Accounts (h.job ∷ views) (run_claimed p policy d expected h s).store
  unfolding run_claimed
  run_claimed-Sound p expected s sound = go (stage_of p h s) refl
    where
      go :
          (r : Attempt StageOutput)
          → stage_of p h s ≡ r
          → Accounts (h.job ∷ views) (run_claimed p policy d expected h s).store
      go (raised e) same = rw (same, run_claimed) (handle_error-Sound e s sound)
      go (done out) same =
          let m = complete (runtime_of d) h (completion_of policy expected h out) in
          rw (same, run_claimed)
            (after_completion-Sound (with_transaction m s).0 (with_transaction m s).1 (
              transaction-keeps (Accounts (h.job ∷ views)) m s sound
                (λ next s' runs. (complete-Sound _ h _ s s' next views sound linked runs).0)))

without_view : (j : Job) (views : List Job) (s : Store) → Accounts (j ∷ views) s → Accounts views s
without_view j views s h = record {
  unique = h.unique;
  accounted = h.accounted;
  within = h.within;
  fresh = h.fresh.1;
}

claim-Sound :
    (call : Call) (organization_id id : String) (expected : JobType) (s s' : Store)
    (r : ClaimResult) (views : List Job)
    → Accounts views s
    → claim call organization_id id expected s ≡ ok (r, s')
    → Accounts (with_claimed r views) s' × IsLinked r
unfolding claim
claim-Sound call organization_id id expected s s' r views sound e =
    elim (Option-cases (find_job organization_id id s.jobs)) [
      | inl gone ↦
          let skipped = rw (gone, claim) at e in
          let result : r ≡ skip none = cc skipped in
          let same : s' ≡ s = cc skipped in rw (result, same) (sound, tt)
      | inr (j, found) ↦
          let e' = rw (found, claim) at e in
          (
            claim_current-Sound call expected j s s' r views sound
                (found-Fresh organization_id id s.jobs j sound.unique found) e',
            claim_current-IsLinked call expected j s s' r e',
          )
    ]

after_claim-Sound :
    (p : Providers) (policy : CostPolicy) (d : Delivery) (expected : JobType) (r : ClaimResult)
    (s : Store) (views : List Job)
    → Accounts (with_claimed r views) s
    → IsLinked r
    → Accounts views (after_claim p policy d expected (returned r, s)).store
after_claim-Sound p policy d expected (skip status) s views sound linked = sound
after_claim-Sound p policy d expected budget_limit_reached s views sound linked = sound
after_claim-Sound p policy d expected (ClaimResult.process h) s views sound linked =
    without_view h.job views (run_claimed p policy d expected h s).store
      (run_claimed-Sound policy d h linked views p expected s sound)

-- What a delivery keeps, of any transaction that claims.
claiming-Sound :
    (p : Providers) (policy : CostPolicy) (d : Delivery) (expected : JobType) (s : Store)
    (views : List Job) (m : Tx ClaimResult)
    → Accounts views s
    → ((r : ClaimResult) (s' : Store)
        → m s ≡ ok (r, s')
        → Accounts (with_claimed r views) s' × IsLinked r)
    → Accounts views (after_claim p policy d expected (with_transaction m s)).store
unfolding with_transaction
claiming-Sound p policy d expected s views m sound claims = go (m s) refl
  where
    go :
        (r : Result (ClaimResult × Store))
        → m s ≡ r
        → Accounts views (after_claim p policy d expected (with_transaction m s)).store
    go (err e) same = rw (same, with_transaction) sound
    go (ok (r, s')) same =
        let (after, linked) = claims r s' same in
        rw (same, with_transaction) (after_claim-Sound p policy d expected r s' views after linked)

-- A delivery of a message, whatever its providers, its cost policy and its queue do and however it
-- ends (skipped, stopped by the budget, processed, or with an error that is recorded as a retry or
-- as a failure), takes a sound state to a sound state.
pub process-Sound :
    (p : Providers) (policy : CostPolicy) (d : Delivery) (expected : JobType) (s : Store)
    (views : List Job)
    → Sound s.jobs s.cases views
    → Sound
        (process p policy d expected s).store.jobs
        (process p policy d expected s).store.cases
        views
unfolding process
process-Sound p policy d expected s views sound =
    let call = call_of policy d expected in
    claiming-Sound p policy d expected s views
      (claim call d.message.organization_id d.message.processing_job_id expected) sound
      (λ r s' runs. claim-Sound call _ _ expected s s' r views sound runs)
