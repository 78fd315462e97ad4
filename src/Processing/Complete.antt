-- ===== src/Processing/Complete.antt =====
-- `ProcessingRepository.complete` (apps/worker/src/processing/processing.repository.ts): what a
-- stage produced is stored, its cost is settled, the next job is queued and the job is finished,
-- in one transaction.
pub mod Extraction
pub mod Checklist
pub mod Knowledge
use lex_os.Prelude.{
  ℕ, ◌+◌, ◌&&◌, not, Bool, true, false, Option, none, some, List, [], ◌∷◌, ◌++◌, String, ok, err,
  text_eq, ltb, if◌then◌else◌, any_where, ◌==◌, or_else,
}
use lex_os.Processing.Status.{JobStatus, JobType, type_name, assert_transition}
use lex_os.Processing.Cost.{cost_decimal}
use lex_os.Processing.Rows.{Datum, Metadata, Json, Job, DocumentStatus, system}
use lex_os.Processing.Store.{
  Tx, ◌>>=◌, ◌>>◌, return, lift, refuse_if, at_version, update_jobs, update_document, audit,
}
use lex_os.Processing.Target.{Claimed}
use lex_os.Processing.Budget.{Settlement, settle_case}
use lex_os.Processing.DeterministicId.{deterministic_job_id, decimal}
use lex_os.Processing.Completion.{StageCompletion, Runtime}
use Extraction.{record_extraction, apply_classification, add_timeline, unique_violation}
use Checklist.{apply_checklist}
use Knowledge.{index_knowledge}

pub record NextJob : Type 0 where
  pub id : String
  pub organization_id : String
  pub job_type : JobType

-- What a completion stores of its result, before the money: the identifiers for the metadata.
pub record Stored : Type 0 where
  pub extraction_id : Option String
  pub checklist_id : Option String
  pub chunk_count : Option ℕ

unfoldable pub store_result : Runtime → Claimed → StageCompletion → Tx Stored
store_result env h c = do
  extraction_id ← record_extraction env h c
  apply_classification h c.classification
  add_timeline env h extraction_id c.timeline
  checklist_id ← apply_checklist env h c.checklist
  chunk_count ← index_knowledge env h c c.knowledge_index
  return (record {
    extraction_id = extraction_id;
    checklist_id = checklist_id;
    chunk_count = chunk_count;
  })

abbrev pub settle_completion : Runtime → Claimed → StageCompletion → ℕ → Tx Settlement
settle_completion env h c actual =
    settle_case (λ k. text_eq k.currency c.cost.currency)
      "Measured provider cost does not match the locked case budget."
      "Case budget reservation accounting became negative." env.now actual h.job.reserved_cost
      h.job.organization_id h.case_id

-- A budget that is used up sends the document to review, and is reported once.
unfoldable pub note_limit : Runtime → Claimed → StageCompletion → Settlement → Tx (Unit {0})
note_limit env h c t =
    if t.reached
    then (do
      update_document h.job.organization_id h.document_id
          (λ d. record d { processing_status = DocumentStatus.needs_review })
      (if t.was_reached
          then return tt
          else audit (record {
            organization_id = h.job.organization_id;
            processing_job_id = h.job.id;
            actor_type = system;
            action = "processing.budget.limit_reached";
            entity_type = "case";
            entity_id = h.case_id;
            correlation_id = env.correlation_id;
            new_data =
                ("jobType", Datum.text (type_name h.job.job_type))
                ∷ ("currency", Datum.text c.cost.currency)
                ∷ ("reason", Datum.text "COMMITTED_COST_REACHED_LIMIT")
                ∷ [];
          })))
    else return tt

-- The row of a child job, with the defaults of the columns that are not given.
abbrev pub child_row : Runtime → Claimed → JobType → Job
child_row env h t = record {
  id = deterministic_job_id env.sha256 h.job.id (type_name t);
  organization_id = h.job.organization_id;
  case_id = some h.case_id;
  file_id = some h.file_id;
  document_id = some h.document_id;
  job_type = t;
  status = JobStatus.queued;
  attempts = 0;
  version = 0;
  provider = none;
  model_name = none;
  model_version = none;
  reserved_cost = 0;
  cost = none;
  cost_currency = "BRL";
  input_metadata = some (Json.obj (("parentProcessingJobId", Datum.text h.job.id) ∷ []));
  output_metadata = none;
  error_code = none;
  error_message = none;
  started_at = none;
  finished_at = none;
  updated_at = env.now;
}

-- `processingJob.create`, under the primary key.
unfoldable pub create_job : Job → Tx (Unit {0})
create_job j s =
    if any_where (λ k. text_eq k.id j.id) s.jobs
    then err unique_violation
    else ok (tt, record s { jobs = s.jobs ++ j ∷ [] })

-- The next stage is queued unless the budget is used up.
unfoldable pub create_next : Runtime → Claimed → Option JobType → Bool → Tx (Option NextJob)
create_next env h none reached = return none
create_next env h (some type) true = return none
create_next env h (some type) false = do
  let child = child_row env h type
  create_job child
  return (some (record { id = child.id; organization_id = child.organization_id; job_type = type }))

-- A field of an object literal that stands last: it replaces one of its name.
abbrev put : String → Datum → Metadata → Metadata
put k v [] = (k, v) ∷ []
put k v ((j, w) ∷ m) = if text_eq j k then (k, v) ∷ m else (j, w) ∷ put k v m

abbrev put_optional : String → Option Datum → Metadata → Metadata
put_optional k none m = m
put_optional k (some v) m = put k v m

abbrev text_of : Option String → Option Datum
text_of none = none
text_of (some s) = some (Datum.text s)

abbrev num_of : Option ℕ → Option Datum
num_of none = none
num_of (some n) = some (Datum.num n)

abbrev next_id : Option NextJob → Option String
next_id none = none
next_id (some n) = some n.id

unfoldable pub output_of : StageCompletion → Stored → Option NextJob → Metadata
output_of c r next = put_optional "nextProcessingJobId" (text_of (next_id next)) (
    put_optional "indexedChunkCount" (num_of r.chunk_count) (
      put_optional "caseChecklistId" (text_of r.checklist_id)
        (put_optional "extractionId" (text_of r.extraction_id) c.output_metadata)))

abbrev pub completed_row :
    Runtime → Claimed → StageCompletion → ℕ → Stored → Option NextJob → Job → Job
completed_row env h c actual r next k = record k {
  status = JobStatus.completed;
  version = k.version + 1;
  provider = some c.provider;
  model_name = some c.model_name;
  model_version = some c.model_version;
  reserved_cost = 0;
  cost = some (or_else h.job.cost 0 + actual);
  cost_currency = c.cost.currency;
  output_metadata = some (Json.obj (output_of c r next));
  error_code = none;
  error_message = none;
  finished_at = some env.now;
}

abbrev id_or_null : Option String → Datum
id_or_null none = Datum.null
id_or_null (some s) = Datum.text s

unfoldable pub set_final_status : Claimed → Option DocumentStatus → Tx (Unit {0})
set_final_status h none = return tt
set_final_status h (some status) =
    update_document h.job.organization_id h.document_id
      (λ d. record d { processing_status = status })

unfoldable pub finish_job :
    Runtime → Claimed → StageCompletion → ℕ → Settlement → Stored → Option NextJob → Tx (Unit {0})
finish_job env h c actual t r next = do
  set_final_status h c.final_document_status
  count ←
      update_jobs env.now
        (at_version h.job.organization_id h.job.id JobStatus.processing h.job.version)
        (completed_row env h c actual r next)
  refuse_if (not (count == 1)) "Processing completion lost an optimistic concurrency race."
  audit (record {
    organization_id = h.job.organization_id;
    processing_job_id = h.job.id;
    actor_type = system;
    action = "processing.job.completed";
    entity_type = "processing_job";
    entity_id = h.job.id;
    correlation_id = env.correlation_id;
    new_data =
        ("jobType", Datum.text (type_name h.job.job_type))
        ∷ ("nextProcessingJobId", id_or_null (next_id next))
        ∷ ("provider", Datum.text c.provider)
        ∷ ("modelName", Datum.text c.model_name)
        ∷ ("modelVersion", Datum.text c.model_version)
        ∷ ("costAmount", Datum.num actual)
        ∷ ("costCurrency", Datum.text c.cost.currency)
        ∷ ("budgetReached", Datum.flag t.reached)
        ∷ [];
  })

-- The measured cost of a success, checked against the reservation.
unfoldable pub completion_cost : Claimed → StageCompletion → Tx ℕ
completion_cost h c = do
  actual ← lift (cost_decimal c.cost.amount)
  refuse_if (not (text_eq c.cost.currency h.job.cost_currency))
      "Measured provider cost currency differs from its reservation."
  refuse_if (ltb h.job.reserved_cost actual)
      "Measured provider cost exceeded its fail-closed reservation."
  return actual

unfoldable pub close :
    Runtime → Claimed → StageCompletion → ℕ → Stored → Settlement → Tx (Option NextJob)
close env h c actual r t = do
  note_limit env h c t
  next ← create_next env h c.next_job_type t.reached
  finish_job env h c actual t r next
  return next

unfoldable pub complete : Runtime → Claimed → StageCompletion → Tx (Option NextJob)
complete env h c = do
  lift (assert_transition JobStatus.processing JobStatus.completed)
  actual ← completion_cost h c
  r ← store_result env h c
  t ← settle_completion env h c actual
  close env h c actual r t
