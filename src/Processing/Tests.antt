-- ===== src/Processing/Tests.antt =====
-- Runs of the pipeline on one case with one document and one job, and what the theorems say
-- of them.
use lex_os.Prelude.{
  inr, String, ◌≡◌, ◌↔◌, refl, true, false, none, some, [], ◌∷◌, Result, ok, err, arith, text_eq,
  count_where,
}
use mathlib.Core.List.{Memᴰ}
use lex_os.Processing.Status.{
  JobStatus, JobType, can_transition, same_status, same_type, assert_transition, is_terminal,
}
use lex_os.Processing.Cost.{cost_decimal, invalid_amount}
use lex_os.Processing.Store.{
  Store, ◌>>=◌, ◌>>◌, return, lift, refuse_if, find_job, at_version, update_jobs, lock_case,
  update_case, update_document, audit,
}
use lex_os.Processing.Target.{assert_tenant_relationships, join_job, join_document, latest_text}
use lex_os.Processing.Claim.{
  process, start, to_reserve, is_blocked, reserve_amount, reserve_in, reserve, claim_checked,
  claim_related, claim_current,
}
use lex_os.Processing.DeterministicId.{deterministic_job_id}
use lex_os.Processing.Completion.{StageCompletion, MeasuredCost, Runtime}
use lex_os.Processing.Complete.{
  NextJob, store_result, note_limit, create_job, create_next, output_of, set_final_status,
  finish_job, completion_cost, close, complete,
}
use lex_os.Processing.Complete.Extraction.{record_extraction, apply_classification, add_timeline}
use lex_os.Processing.Complete.Checklist.{apply_checklist}
use lex_os.Processing.Complete.Knowledge.{index_knowledge}
use lex_os.Processing.Budget.{settle, settle_in, settle_case}
use lex_os.Processing.Settle.{
  Failure, retry, fail, failure_cost, finish_failure, release, release_from, release_in,
  report_cancelled, cancel_current, cancel, is_cancellable,
}
use lex_os.Processing.Limit.{LimitOutcome, with_limit, update_processing_budget}
use lex_os.Processing.Transitions.{terminal-can_transition}
use lex_os.Processing.CancelRace.{cancel_current-lost_race}
use lex_os.Processing.LostRace.{lost_race-thrown}
use lex_os.Processing.Store.{with_transaction, thrown}
use lex_os.Processing.Accounting.{Fresh, Sound}
use lex_os.Processing.Accounting.Reserve.{claim_current-Sound}
use lex_os.Processing.Accounting.Settle.{Failed, retry-Sound, fail-Sound}
use lex_os.Processing.Accounting.Booked.{LeftAs}
use lex_os.Processing.Accounting.Release.{found-Fresh}
use lex_os.Processing.Accounting.Cancel.{Answers, cancel-Sound}
use lex_os.Processing.Accounting.Complete.{Completed, complete-Sound}
use lex_os.Processing.Accounting.Interleaving.{
  World, Step, Reach, IsSound, Reach-IsSound, limit-Sound,
}
use lex_os.Processing.Fixture.{job, case_row, store, call, held, store-Sound, found}

-- The store after a run.
abbrev store_after : {A : Type 0} → Result (A × Store) → Store
store_after (ok (a, s)) = s
store_after (err e) = store

abbrev claimed_store : Store
claimed_store = store_after (claim_current call JobType.virus_scan job store)

claim_runs : claim_current call JobType.virus_scan job store ≡ ok (process held, claimed_store)
unfolding claim_current claim_related join_job join_document assert_tenant_relationships
    claim_checked cost_decimal assert_transition can_transition reserve reserve_in reserve_amount
    to_reserve is_blocked lock_case start update_case update_document update_jobs at_version audit
    ◌>>=◌ ◌>>◌ return lift refuse_if text_eq same_type same_status latest_text
claim_runs = refl

job-Fresh : Fresh store.jobs job
job-Fresh = found-Fresh "o1" "j1" store.jobs job store-Sound.unique found

claim_current-Sound_example : Sound claimed_store.jobs claimed_store.cases (held.job ∷ [])
claim_current-Sound_example =
    claim_current-Sound call JobType.virus_scan job store claimed_store (process held) []
      store-Sound job-Fresh claim_runs

held-Fresh : Fresh claimed_store.jobs held.job
held-Fresh = claim_current-Sound_example.fresh.0

claimed-Sound : Sound claimed_store.jobs claimed_store.cases []
claimed-Sound = record {
  unique = claim_current-Sound_example.unique;
  accounted = claim_current-Sound_example.accounted;
  within = claim_current-Sound_example.within;
  fresh = tt;
}

abbrev failure : Failure
failure = record {
  now = 20;
  error_code = "PROVIDER_TIMEOUT";
  error_message = "late";
  correlation_id = "r2";
}

abbrev retried_store : Store
retried_store = store_after (retry failure held claimed_store)

retry_runs : retry failure held claimed_store ≡ ok (tt, retried_store)
unfolding claim_current claim_related join_job join_document assert_tenant_relationships
    claim_checked cost_decimal assert_transition can_transition reserve reserve_in reserve_amount
    to_reserve is_blocked lock_case start update_case update_document update_jobs at_version audit
    ◌>>=◌ ◌>>◌ return lift refuse_if text_eq same_type same_status latest_text retry
retry_runs = refl

retry-Sound_example :
    Sound retried_store.jobs retried_store.cases []
    × (retried_store.cases ≡ claimed_store.cases)
    × LeftAs held.job
        (λ r. (r.status ≡ JobStatus.retrying) × (r.reserved_cost ≡ 2000000))
        retried_store.jobs
retry-Sound_example =
    retry-Sound failure held claimed_store retried_store [] claimed-Sound held-Fresh retry_runs

abbrev measured : MeasuredCost
measured = record { amount = "1.5"; currency = "BRL" }

abbrev failed_store : Store
failed_store = store_after (fail failure held measured claimed_store)

fail_runs : fail failure held measured claimed_store ≡ ok (tt, failed_store)
unfolding claim_current claim_related join_job join_document assert_tenant_relationships
    claim_checked cost_decimal assert_transition can_transition reserve reserve_in reserve_amount
    to_reserve is_blocked lock_case start update_case update_document update_jobs at_version audit
    ◌>>=◌ ◌>>◌ return lift refuse_if text_eq same_type same_status latest_text fail failure_cost
    settle settle_in settle_case finish_failure
fail_runs = refl

fail-Sound_example :
    Sound failed_store.jobs failed_store.cases [] × Failed held measured claimed_store failed_store
fail-Sound_example =
    fail-Sound failure held measured claimed_store failed_store [] claimed-Sound held-Fresh refl
      fail_runs

abbrev completion : StageCompletion
completion = record {
  provider = "mock";
  model_name = "m";
  model_version = "1";
  cost = measured;
  output_metadata = [];
  extraction = none;
  classification = none;
  timeline = none;
  checklist = none;
  knowledge_index = none;
  next_job_type = some JobType.file_validation;
  final_document_status = none;
}

abbrev env : Runtime
env = record {
  sha256 = λ s. 1 ∷ 2 ∷ 3 ∷ 4 ∷ 5 ∷ 6 ∷ 7 ∷ 8 ∷ 9 ∷ 10 ∷ 11 ∷ 12 ∷ 13 ∷ 14 ∷ 15 ∷ 16 ∷ 17 ∷ [];
  parse_date = λ s. 0;
  now = 30;
  extraction_id = "e1";
  correlation_id = "r3";
}

abbrev child : NextJob
child = record {
  id = "01020304-0506-4708-890a-0b0c0d0e0f10";
  organization_id = "o1";
  job_type = JobType.file_validation;
}

abbrev completed_store : Store
completed_store = store_after (complete env held completion claimed_store)

complete_runs : complete env held completion claimed_store ≡ ok (some child, completed_store)
unfolding claim_current claim_related join_job join_document assert_tenant_relationships
    claim_checked cost_decimal assert_transition can_transition reserve reserve_in reserve_amount
    to_reserve is_blocked lock_case start update_case update_document update_jobs at_version audit
    ◌>>=◌ ◌>>◌ return lift refuse_if text_eq same_type same_status latest_text settle settle_in
    settle_case store_result note_limit create_job create_next output_of set_final_status finish_job
    completion_cost close complete record_extraction apply_classification add_timeline
    apply_checklist index_knowledge deterministic_job_id
complete_runs = refl

complete-Sound_example :
    Sound completed_store.jobs completed_store.cases (held.job ∷ [])
    × Completed held completion claimed_store completed_store
complete-Sound_example =
    complete-Sound env held completion claimed_store completed_store (some child) []
      claim_current-Sound_example refl complete_runs

abbrev cancelled_store : Store
cancelled_store = store_after (cancel 40 "r4" "o1" "j1" claimed_store)

cancel_runs : cancel 40 "r4" "o1" "j1" claimed_store ≡ ok (true, cancelled_store)
unfolding claim_current claim_related join_job join_document assert_tenant_relationships
    claim_checked cost_decimal assert_transition can_transition reserve reserve_in reserve_amount
    to_reserve is_blocked lock_case start update_case update_document update_jobs at_version audit
    ◌>>=◌ ◌>>◌ return lift refuse_if text_eq same_type same_status latest_text cancel cancel_current
    find_job release release_from release_in report_cancelled
cancel_runs = refl

cancel-Sound_example :
    Sound cancelled_store.jobs cancelled_store.cases []
    × Answers "o1" "j1" claimed_store cancelled_store true
cancel-Sound_example =
    cancel-Sound 40 "r4" "o1" "j1" claimed_store cancelled_store true [] claimed-Sound cancel_runs

abbrev limited_store : Store
limited_store = store_after (update_processing_budget 50 "o1" "c1" 3000000 store)

limit_runs :
    update_processing_budget 50 "o1" "c1" 3000000 store
    ≡ ok (LimitOutcome.updated (record case_row { limit = 3000000 }), limited_store)
unfolding update_processing_budget with_limit lock_case text_eq
limit_runs = refl

limit-Sound_example : Sound limited_store.jobs limited_store.cases []
limit-Sound_example =
    limit-Sound 50 3000000 "o1" "c1" (LimitOutcome.updated (record case_row { limit = 3000000 }))
      store limited_store [] store-Sound limit_runs

-- A cancellation that goes by the row as it was before the claim loses its race.
stale_runs : cancel_current 40 "r4" job claimed_store ≡ ok (false, claimed_store)
unfolding claim_current claim_related join_job join_document assert_tenant_relationships
    claim_checked cost_decimal assert_transition can_transition reserve reserve_in reserve_amount
    to_reserve is_blocked lock_case start update_case update_document update_jobs at_version audit
    ◌>>=◌ ◌>>◌ return lift refuse_if text_eq same_type same_status latest_text cancel_current
    release release_from release_in report_cancelled
stale_runs = refl

-- The row is read, claimed, cancelled in vain, and completed.
abbrev read_world : World
read_world = record { store = store; views = job ∷ [] }

abbrev claimed_world : World
claimed_world = record { store = claimed_store; views = held.job ∷ job ∷ [] }

abbrev completed_world : World
completed_world = record { store = completed_store; views = held.job ∷ job ∷ [] }

may_cancel : is_cancellable job.status ≡ true
unfolding same_status
may_cancel = refl

abbrev path : Reach (record { store = store; views = [] }) completed_world
path =
    Reach.next
      (Reach.next
        (Reach.next (Reach.next Reach.here (Step.reads "o1" "j1" job found)) (
          Step.claims call JobType.virus_scan job (process held) claimed_store (Memᴰ.head refl)
            claim_runs))
        (Step.cancels 40 "r4" job false claimed_store (Memᴰ.tail (Memᴰ.head refl)) may_cancel
          stale_runs))
      (Step.completes env held completion (some child) completed_store (Memᴰ.head refl, refl)
        complete_runs)

Reach-IsSound_example : IsSound completed_world
Reach-IsSound_example = Reach-IsSound path ((((tt, tt), tt), inr refl), tt) store-Sound

terminal-can_transition_example :
    ((is_terminal JobStatus.processing ≡ true)
      ↔ ((to : JobStatus) → can_transition JobStatus.processing to ≡ false))
    × ((is_cancellable JobStatus.processing ≡ true)
        ↔ (can_transition JobStatus.processing JobStatus.cancelled ≡ true))
terminal-can_transition_example = terminal-can_transition JobStatus.processing

-- A cancellation that has read the claimed row, after the retry.
retried_case : lock_case "o1" "c1" retried_store ≡ some (record case_row { reserved = 2000000 })
unfolding claim_current claim_related join_job join_document assert_tenant_relationships
    claim_checked cost_decimal assert_transition can_transition reserve reserve_in reserve_amount
    to_reserve is_blocked lock_case start update_case update_document update_jobs at_version audit
    ◌>>=◌ ◌>>◌ return lift refuse_if text_eq same_type same_status latest_text retry
retried_case = refl

retried_jobs : count_where (at_version "o1" "j1" JobStatus.processing 2) retried_store.jobs ≡ 0
unfolding claim_current claim_related join_job join_document assert_tenant_relationships
    claim_checked cost_decimal assert_transition can_transition reserve reserve_in reserve_amount
    to_reserve is_blocked lock_case start update_case update_document update_jobs at_version audit
    ◌>>=◌ ◌>>◌ return lift refuse_if text_eq same_type same_status latest_text retry
retried_jobs = refl

can_cancel : can_transition JobStatus.processing JobStatus.cancelled ≡ true
unfolding can_transition
can_cancel = refl

cancel_current-lost_race_example :
    (s' : Store) × (cancel_current 60 "r5" held.job retried_store ≡ ok (false, s'))
    × (s'.jobs ≡ retried_store.jobs)
    × (s'.cases "c1" ≡ some case_row)
cancel_current-lost_race_example =
    cancel_current-lost_race 60 "r5" held.job "c1" (record case_row { reserved = 2000000 })
      retried_store can_cancel (omega arith) refl retried_case (omega arith) retried_jobs

lost_race-thrown_example :
    ((e : String) × (with_transaction (retry failure held) retried_store
        ≡ (thrown e, retried_store)))
    × ((e : String) × (with_transaction (fail failure held measured) retried_store
          ≡ (thrown e, retried_store)))
lost_race-thrown_example =
    lost_race-thrown failure held measured retried_store retry-Sound_example.0.within refl
      retried_jobs

cost_decimal_tests :
    (cost_decimal "0.000000" ≡ ok 0)
    × (cost_decimal "12.5" ≡ ok 12500000)
    × (cost_decimal "01" ≡ err invalid_amount)
    × (cost_decimal "1." ≡ err invalid_amount)
    × (cost_decimal "-1" ≡ err invalid_amount)
    × (cost_decimal "" ≡ err invalid_amount)
    × (cost_decimal "1.2.3" ≡ err invalid_amount)
unfolding cost_decimal
cost_decimal_tests = (refl, refl, refl, refl, refl, refl, refl)
