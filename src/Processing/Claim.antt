-- ===== src/Processing/Claim.antt =====
-- `ProcessingRepository.claim` (apps/worker/src/processing/processing.repository.ts): a worker
-- takes a job, and reserves its quoted cost in the budget of the case.
use Prim.Native.String
use lex_os.Prelude.{
  ℕ, zero, suc, ◌+◌, Bool, true, false, not, ◌&&◌, ◌||◌, Option, none, some, [], ◌∷◌, String, ok,
  err, text_eq, ltb, ◌==◌, if◌then◌else◌, or_else,
}
use lex_os.Processing.Status.{
  JobStatus, JobType, same_type, same_status, type_name, status_name, assert_transition,
  is_terminal,
}
use lex_os.Processing.Cost.{cost_decimal}
use lex_os.Processing.Rows.{
  Datum, Json, Job, CaseRow, BudgetStatus, limit_reached, DocumentStatus, system,
}
use lex_os.Processing.Store.{
  Tx, ◌>>=◌, ◌>>◌, return, lift, refuse_if, find_job, at_version, update_jobs, lock_case,
  update_case, update_document, audit,
}
use lex_os.Processing.Target.{Claimed, join_job, assert_tenant_relationships}

pub record Quote : Type 0 where
  pub provider : String
  pub model_name : String
  pub model_version : String
  pub maximum_amount : String
  pub currency : String

pub data ClaimResult : Type 0 where
  process : Claimed → ClaimResult
  budget_limit_reached : ClaimResult
  skip : Option JobStatus → ClaimResult

abbrev pub is_limit_reached : BudgetStatus → Bool
is_limit_reached limit_reached = true
is_limit_reached _ = false

-- What one call is given: the clock, the quote and the correlation identifier.
pub record Call : Type 0 where
  pub now : ℕ
  pub quote : Quote
  pub correlation_id : String

abbrev pub cancel_blocked : Call → Job → Job
cancel_blocked call k = record k {
  status = JobStatus.cancelled;
  version = k.version + 1;
  provider = some call.quote.provider;
  model_name = some call.quote.model_name;
  model_version = some call.quote.model_version;
  cost_currency = call.quote.currency;
  output_metadata = some (
      Json.obj (
        ("stage", Datum.text (type_name k.job_type))
        ∷ ("reason", Datum.text "PROCESSING_COST_LIMIT_REACHED")
        ∷ []));
  error_code = none;
  error_message = none;
  finished_at = some call.now;
}

-- The quote does not fit the budget: the job is cancelled, and the case and the document say so.
unfoldable pub block : Call → Claimed → Tx ClaimResult
block call h = do
  let j = h.job
  lift (assert_transition j.status JobStatus.cancelled)
  count ←
      update_jobs call.now (at_version j.organization_id j.id j.status j.version)
        (cancel_blocked call)
  refuse_if (not (count == 1)) "Budget cancellation lost an optimistic concurrency race."
  update_case j.organization_id h.case_id
      (λ c. record c { budget_status = limit_reached; limit_reached_at = some call.now })
  update_document j.organization_id h.document_id
      (λ d. record d { processing_status = DocumentStatus.needs_review })
  audit (record {
    organization_id = j.organization_id;
    processing_job_id = j.id;
    actor_type = system;
    action = "processing.budget.limit_reached";
    entity_type = "case";
    entity_id = h.case_id;
    correlation_id = call.correlation_id;
    new_data =
        ("jobType", Datum.text (type_name j.job_type))
        ∷ ("currency", Datum.text call.quote.currency)
        ∷ ("reason", Datum.text "QUOTE_EXCEEDS_REMAINING_BUDGET")
        ∷ [];
  })
  return budget_limit_reached

-- What the row and the snapshot of it become.
abbrev pub started : Call → ℕ → Job → Job
started call reserved_cost k = record k {
  status = JobStatus.processing;
  attempts = k.attempts + 1;
  version = k.version + 1;
  provider = some call.quote.provider;
  model_name = some call.quote.model_name;
  model_version = some call.quote.model_version;
  reserved_cost = reserved_cost;
  cost = some (or_else k.cost 0);
  cost_currency = call.quote.currency;
}

abbrev pub start_row : Call → Job → ℕ → Job → Job
start_row call j reserved_cost k =
    let row = started call reserved_cost k in
    record row {
      cost = some (or_else j.cost 0);
      error_code = none;
      error_message = none;
      started_at = elim j.status [ JobStatus.queued ↦ some call.now | _ ↦ k.started_at ];
    }

unfoldable pub start : Call → Claimed → ℕ → Tx ClaimResult
start call h to_add = do
  let j = h.job
  let reserved_cost = j.reserved_cost + to_add
  count ←
      update_jobs call.now (at_version j.organization_id j.id j.status j.version)
        (start_row call j reserved_cost)
  refuse_if (not (count == 1)) "Processing job claim lost an optimistic concurrency race."
  update_document j.organization_id h.document_id
      (λ d. record d { processing_status = DocumentStatus.processing })
  audit (record {
    organization_id = j.organization_id;
    processing_job_id = j.id;
    actor_type = system;
    action =
        if same_status j.status JobStatus.processing
        then "processing.job.resumed_after_stall"
        else "processing.job.started";
    entity_type = "processing_job";
    entity_id = j.id;
    correlation_id = call.correlation_id;
    new_data =
        ("jobType", Datum.text (type_name j.job_type))
        ∷ ("attempt", Datum.num (j.attempts + 1))
        ∷ [];
  })
  return (process (record h { job = started call reserved_cost j }))

-- A job that holds a reservation already, from an earlier attempt, reserves nothing more.
unfoldable pub to_reserve : ℕ → Job → ℕ
to_reserve quoted j = if j.reserved_cost == 0 then quoted else 0

unfoldable pub is_blocked : ℕ → Job → CaseRow → Bool
unfolding to_reserve
is_blocked quoted j c =
    (is_limit_reached c.budget_status && j.reserved_cost == 0)
    || ltb c.limit (c.spent + c.reserved + to_reserve quoted j)

-- The reservation is written only if there is something to reserve.
unfoldable pub reserve_amount : Call → Claimed → ℕ → Tx ClaimResult
reserve_amount call h zero = start call h 0
reserve_amount call h (suc n) = do
  update_case h.job.organization_id h.case_id (λ k. record k { reserved = k.reserved + suc n })
  start call h (suc n)

unfoldable pub reserve_in : Call → ℕ → Claimed → CaseRow → Tx ClaimResult
reserve_in call quoted h c s =
    if text_eq c.currency call.quote.currency
    then if is_blocked quoted h.job c
      then block call h s
      else reserve_amount call h (to_reserve quoted h.job) s
    else err "Processing cost quote does not match the locked case budget."

-- The cost of a job that is not running yet is reserved under the lock of the case.
unfoldable pub reserve : Call → ℕ → Claimed → Tx ClaimResult
unfolding lock_case
reserve call quoted h s = elim (lock_case h.job.organization_id h.case_id s) [
  | none ↦ err "Processing cost quote does not match the locked case budget."
  | some c ↦ reserve_in call quoted h c s
]

abbrev pub is_claimable : JobStatus → Bool
is_claimable status =
    same_status status JobStatus.queued
    || (same_status status JobStatus.retrying || same_status status JobStatus.processing)

-- A job that is running already, after a stall, is resumed under the reservation that it has.
unfoldable pub claim_checked : Call → JobStatus → Claimed → Tx ClaimResult
claim_checked call status h = do
  let running = same_status status JobStatus.processing
  lift (if running then ok tt else assert_transition status JobStatus.processing)
  quoted ← lift (cost_decimal call.quote.maximum_amount)
  if running then start call h 0 else reserve call quoted h

unfoldable pub claim_related : Call → Job → Tx ClaimResult
claim_related call j s =
    ◌>>=◌ (lift (assert_tenant_relationships (join_job s j))) (claim_checked call j.status) s

unfoldable pub claim_current : Call → JobType → Job → Tx ClaimResult
claim_current call expected j s =
    if not (same_type j.job_type expected)
    then err "Processing job type does not match its queue."
    else if is_terminal j.status
    then ok (skip (some j.status), s)
    else if not (is_claimable j.status)
    then err (
        String.◌++◌ "Processing job cannot be claimed from "
          (String.◌++◌ (status_name j.status) "."))
    else claim_related call j s

unfoldable pub claim : Call → String → String → JobType → Tx ClaimResult
unfolding claim_current find_job
claim call organization_id id expected s = elim (find_job organization_id id s.jobs) [
  | none ↦ ok (skip none, s)
  | some j ↦ claim_current call expected j s
]
