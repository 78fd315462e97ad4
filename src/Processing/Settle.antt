-- ===== src/Processing/Settle.antt =====
-- How an execution ends without a result: `retry`, `fail` and `cancel` of
-- apps/worker/src/processing/processing.repository.ts.
use lex_os.Prelude.{
  ℕ, ◌+◌, ◌-◌, ◌||◌, not, Bool, true, false, Option, none, some, [], ◌∷◌, String, ok, err, text_eq,
  ltb, if◌then◌else◌, ◌==◌, or_else,
}
use lex_os.Processing.Status.{
  JobStatus, JobType, same_type, same_status, type_name, assert_transition,
}
use lex_os.Processing.Cost.{cost_decimal}
use lex_os.Processing.Rows.{Datum, Job, CaseRow, ClassificationStatus, DocumentStatus, system}
use lex_os.Processing.Store.{
  Tx, ◌>>=◌, ◌>>◌, return, lift, refuse_if, find_job, at_version, update_jobs, lock_case,
  update_case, update_document, audit,
}
use lex_os.Processing.Target.{Claimed}
use lex_os.Processing.Budget.{Settlement, settle_case}
use lex_os.Processing.Completion.{MeasuredCost}

-- The error that ends an execution, and when.
pub record Failure : Type 0 where
  pub now : ℕ
  pub error_code : String
  pub error_message : String
  pub correlation_id : String

abbrev audit_end : Failure → Claimed → String → Tx (Unit {0})
audit_end e h action = audit (record {
  organization_id = h.job.organization_id;
  processing_job_id = h.job.id;
  actor_type = system;
  action = action;
  entity_type = "processing_job";
  entity_id = h.job.id;
  correlation_id = e.correlation_id;
  new_data =
      ("jobType", Datum.text (type_name h.job.job_type))
      ∷ ("errorCode", Datum.text e.error_code)
      ∷ [];
})

abbrev pub lost_race : String
lost_race = "Processing error transition lost an optimistic concurrency race."

abbrev pub retrying_row : Failure → Job → Job
retrying_row e k = record k {
  status = JobStatus.retrying;
  version = k.version + 1;
  error_code = some e.error_code;
  error_message = some e.error_message;
  finished_at = none;
}

-- A retry keeps the reservation for the next attempt.
unfoldable pub retry : Failure → Claimed → Tx (Unit {0})
retry e h = do
  lift (assert_transition JobStatus.processing JobStatus.retrying)
  count ←
      update_jobs e.now
        (at_version h.job.organization_id h.job.id JobStatus.processing h.job.version)
        (retrying_row e)
  refuse_if (not (count == 1)) lost_race
  audit_end e h "processing.job.retrying"

abbrev pub failed_row : Failure → Claimed → ℕ → Job → Job
failed_row e h actual k = record k {
  status = JobStatus.failed;
  version = k.version + 1;
  error_code = some e.error_code;
  error_message = some e.error_message;
  finished_at = some e.now;
  reserved_cost = 0;
  cost = some (or_else h.job.cost 0 + actual);
}

abbrev pub settle_failure : Failure → Claimed → ℕ → Tx Settlement
settle_failure e h actual =
    settle_case (λ k. true) "The failed execution case budget no longer exists."
      "Failed execution released more budget than was reserved." e.now actual h.job.reserved_cost
      h.job.organization_id h.case_id

unfoldable pub finish_failure : Failure → Claimed → ℕ → Tx (Unit {0})
finish_failure e h actual = do
  count ←
      update_jobs e.now
        (at_version h.job.organization_id h.job.id JobStatus.processing h.job.version)
        (failed_row e h actual)
  refuse_if (not (count == 1)) lost_race
  update_document h.job.organization_id h.document_id (λ d. record d {
    processing_status = DocumentStatus.failed;
    classification_status =
        if same_type h.job.job_type JobType.document_classification
        then ClassificationStatus.failed
        else d.classification_status;
  })
  audit_end e h "processing.job.failed"

-- The measured cost of a failure, checked against the reservation.
unfoldable pub failure_cost : Claimed → MeasuredCost → Tx ℕ
failure_cost h measured = do
  refuse_if (not (text_eq measured.currency h.job.cost_currency))
      "A failed provider execution requires measured cost in its currency."
  actual ← lift (cost_decimal measured.amount)
  refuse_if (ltb h.job.reserved_cost actual)
      "Failed provider cost exceeded its fail-closed reservation."
  return actual

unfoldable pub fail : Failure → Claimed → MeasuredCost → Tx (Unit {0})
fail e h measured = do
  lift (assert_transition JobStatus.processing JobStatus.failed)
  actual ← failure_cost h measured
  settlement ← settle_failure e h actual
  finish_failure e h actual

abbrev pub cancelled_row : ℕ → Job → Job
cancelled_row now k = record k {
  status = JobStatus.cancelled;
  version = k.version + 1;
  error_code = none;
  error_message = none;
  reserved_cost = 0;
  finished_at = some now;
}

unfoldable pub release_in : Job → String → CaseRow → Tx (Unit {0})
release_in j k c = do
  refuse_if (ltb c.reserved j.reserved_cost) "Cancelled job released more budget than was reserved."
  update_case j.organization_id k (λ r. record r { reserved = c.reserved - j.reserved_cost })

unfoldable pub release_from : Job → Option String → Tx (Unit {0})
unfolding lock_case
release_from j none s = err "A reserved processing job must belong to a case."
release_from j (some k) s = elim (lock_case j.organization_id k s) [
  | none ↦ err "The cancelled job case budget no longer exists."
  | some c ↦ release_in j k c s
]

-- The reservation of a job that is cancelled goes back to its case.
unfoldable pub release : Job → Tx (Unit {0})
release j s = if j.reserved_cost == 0 then ok (tt, s) else release_from j j.case_id s

unfoldable pub report_cancelled : String → Job → Bool → Tx Bool
report_cancelled correlation_id j false = return false
report_cancelled correlation_id j true = do
  audit (record {
    organization_id = j.organization_id;
    processing_job_id = j.id;
    actor_type = system;
    action = "processing.job.cancelled";
    entity_type = "processing_job";
    entity_id = j.id;
    correlation_id = correlation_id;
    new_data = [];
  })
  return true

-- `j` is the row as it was read, before the lock of the case.
unfoldable pub cancel_current : ℕ → String → Job → Tx Bool
cancel_current now correlation_id j = do
  lift (assert_transition j.status JobStatus.cancelled)
  release j
  count ← update_jobs now (at_version j.organization_id j.id j.status j.version) (cancelled_row now)
  report_cancelled correlation_id j (count == 1)

abbrev pub is_cancellable : JobStatus → Bool
is_cancellable status =
    same_status status JobStatus.queued
    || (same_status status JobStatus.retrying || same_status status JobStatus.processing)

unfoldable pub cancel : ℕ → String → String → String → Tx Bool
unfolding cancel_current find_job
cancel now correlation_id organization_id id s = elim (find_job organization_id id s.jobs) [
  | none ↦ ok (false, s)
  | some j ↦
      if is_cancellable j.status then cancel_current now correlation_id j s else ok (false, s)
]
