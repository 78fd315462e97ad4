-- ===== src/Processing/Pipeline/Process.antt =====
-- One delivery of a message: `process` and `#handleError` of
-- apps/worker/src/processing/pipeline-processor.service.ts, the cost policy of
-- processing-cost-policy.ts and `publish` of processing-queue.publisher.ts.
use lex_os.Prelude.{
  ℕ, ◌&&◌, ◌||◌, Bool, true, false, Option, none, some, [], ◌∷◌, String, ok, err, leb, ◌==◌,
  text_eq, if◌then◌else◌,
}
use lex_os.Contracts.{ProcessingJobMessage, create_processing_job_message}
use lex_os.Processing.Status.{JobStatus, JobType, queue_name}
use lex_os.Processing.Rows.{Datum, Metadata, Json}
use lex_os.Processing.Store.{Store, Outcome, returned, thrown, with_transaction}
use lex_os.Processing.Target.{Claimed}
use lex_os.Processing.Claim.{Quote, Call, ClaimResult, budget_limit_reached, skip, claim}
use lex_os.Processing.Completion.{MeasuredCost, StageCompletion, Runtime}
use lex_os.Processing.Complete.{NextJob, complete}
use lex_os.Processing.Settle.{Failure, retry, fail}
use lex_os.Processing.Pipeline.Providers.{
  ProcessingError, retryable, permanent, internal, Attempt, done, raised, Providers,
}
use lex_os.Processing.Pipeline.Stages.{StageOutput, execute_stage}

pub record CostPolicy : Type 0 where
  pub quote : JobType → Quote
  pub measure_success : JobType → String → String → MeasuredCost
  pub measure_failure : JobType → ProcessingError → MeasuredCost

-- `descriptors`; the types with no queue have none.
abbrev descriptor : JobType → String × String
descriptor JobType.file_validation = ("lex-os-validator", "deterministic-v1")
descriptor JobType.virus_scan = ("lex-os-scanner-unavailable", "deterministic-v1")
descriptor JobType.ocr = ("lex-os-mock-ocr", "deterministic-v1")
descriptor JobType.document_classification = ("lex-os-mock-classifier", "deterministic-v1")
descriptor JobType.entity_extraction = ("lex-os-mock-entities", "deterministic-v1")
descriptor JobType.timeline_generation = ("lex-os-mock-timeline", "deterministic-v1")
descriptor JobType.checklist_analysis = ("lex-os-mock-checklist", "deterministic-v1")
descriptor JobType.embedding = ("lex-os-mock-embedding", "deterministic-hash-v1")
descriptor _ = ("", "")

abbrev free : MeasuredCost
free = record { amount = "0.000000"; currency = "BRL" }

-- `MockProcessingCostPolicy`.
unfoldable pub mock_processing_cost_policy : CostPolicy
mock_processing_cost_policy = record {
  quote = λ t. record {
    provider = (descriptor t).0;
    model_name = (descriptor t).1;
    model_version = "1";
    maximum_amount = "0.000000";
    currency = "BRL";
  };
  measure_success = λ t provider model_name. free;
  measure_failure = λ t e. free;
}

-- A message with its delivery: when the job is claimed and when a failure is recorded, whether the
-- queue takes a message, and what a completion takes from outside.
pub record Delivery : Type 0 where
  pub message : ProcessingJobMessage
  pub delivery_attempt : ℕ
  pub maximum_attempts : ℕ
  pub claimed_at : ℕ
  pub failed_at : ℕ
  pub queue_is_up : Bool
  pub runtime : Runtime

-- How a delivery ends; an `UnrecoverableError` is not delivered again.
pub data Ended : Type 0 where
  skipped : Option JobStatus → Ended
  limit_reached : Ended
  processed : Ended
  threw : String → Ended
  unrecoverable : String → Ended

pub record Delivered : Type 0 where
  pub ended : Ended
  pub store : Store
  pub published : Option (String × ProcessingJobMessage)
  -- Whether `documentFailed` of the notifications is called.
  pub notified : Bool

abbrev pub ends : Ended → Store → Delivered
ends e s = record { ended = e; store = s; published = none; notified = false }

abbrev has_field : String → String → Metadata → Bool
has_field k v [] = false
has_field k v ((j, Datum.text t) ∷ fs) = if text_eq j k then text_eq t v else has_field k v fs
has_field k v ((j, d) ∷ fs) = if text_eq j k then false else has_field k v fs

unfoldable pub has_retry_once_hook : Option Json → Bool
has_retry_once_hook none = false
has_retry_once_hook (some (Json.obj fs)) = has_field "mockFailureMode" "RETRY_ONCE" fs
has_retry_once_hook (some _) = false

abbrev code_of : ProcessingError → String
code_of (retryable code message) = code
code_of (permanent code message) = code
code_of internal = "PROCESSING_INTERNAL_ERROR"

abbrev safe_message_of : ProcessingError → String
safe_message_of (retryable code message) = message
safe_message_of (permanent code message) = message
safe_message_of internal = "Não foi possível concluir o processamento."

abbrev is_permanent : ProcessingError → Bool
is_permanent (permanent code message) = true
is_permanent _ = false

unfoldable pub failure_of : Delivery → ProcessingError → Failure
failure_of d e = record {
  now = d.failed_at;
  error_code = code_of e;
  error_message = safe_message_of e;
  correlation_id = d.message.correlation_id;
}

unfoldable pub is_final_attempt : Delivery → ProcessingError → Bool
is_final_attempt d e = is_permanent e || leb d.maximum_attempts d.delivery_attempt

abbrev pub after_failure : ProcessingError → Outcome (Unit {0}) × Store → Delivered
after_failure e (thrown m, s) = ends (threw m) s
after_failure e (returned _, s) = record {
  ended = if is_permanent e then unrecoverable (safe_message_of e) else threw (safe_message_of e);
  store = s;
  published = none;
  notified = true;
}

abbrev pub after_retry : ProcessingError → Outcome (Unit {0}) × Store → Delivered
after_retry e (thrown m, s) = ends (threw m) s
after_retry e (returned _, s) = ends (threw (safe_message_of e)) s

unfoldable pub handle_error : CostPolicy → Delivery → Claimed → ProcessingError → Store → Delivered
unfolding is_final_attempt
handle_error policy d h e s =
    if is_final_attempt d e
    then after_failure e
        (with_transaction (fail (failure_of d e) h (policy.measure_failure h.job.job_type e)) s)
    else after_retry e (with_transaction (retry (failure_of d e) h) s)

-- The queue of a child and its message; a child with no queue, with a message that is refused or
-- that the queue does not take is left to the reconciler.
unfoldable pub publish_child : Delivery → Option NextJob → Option (String × ProcessingJobMessage)
publish_child d none = none
publish_child d (some child) = elim (queue_name child.job_type) [
  | none ↦ none
  | some queue ↦
      elim (create_processing_job_message (record {
        processing_job_id = child.id;
        organization_id = child.organization_id;
        correlation_id = d.message.correlation_id;
      })) [ err e ↦ none | ok m ↦ if d.queue_is_up then some (queue, m) else none ]
]

unfoldable pub completion_of : CostPolicy → JobType → Claimed → StageOutput → StageCompletion
completion_of policy expected h out = record {
  provider = out.provider;
  model_name = out.model_name;
  model_version = (policy.quote expected).model_version;
  cost = policy.measure_success h.job.job_type out.provider out.model_name;
  output_metadata = out.output_metadata;
  extraction = out.extraction;
  classification = out.classification;
  timeline = out.timeline;
  checklist = out.checklist;
  knowledge_index = out.knowledge_index;
  next_job_type = out.next_job_type;
  final_document_status = out.final_document_status;
}

abbrev pub runtime_of : Delivery → Runtime
runtime_of d = record d.runtime { correlation_id = d.message.correlation_id }

abbrev pub after_completion :
    CostPolicy → Delivery → Claimed → Outcome (Option NextJob) × Store → Delivered
after_completion policy d h (thrown m, s) = handle_error policy d h internal s
after_completion policy d h (returned next, s) = record {
  ended = processed;
  store = s;
  published = publish_child d next;
  notified = false;
}

unfoldable pub stage_of : Providers → Claimed → Store → Attempt StageOutput
unfolding has_retry_once_hook
stage_of p h s =
    if has_retry_once_hook h.job.input_metadata && h.job.attempts == 1
    then raised
        (retryable "MOCK_TRANSIENT_FAILURE" "Falha transitória simulada durante o processamento.")
    else execute_stage p s h

unfoldable pub run_claimed :
    Providers → CostPolicy → Delivery → JobType → Claimed → Store → Delivered
unfolding stage_of
run_claimed p policy d expected h s = elim (stage_of p h s) [
  | raised e ↦ handle_error policy d h e s
  | done out ↦
      after_completion policy d h
        (with_transaction (complete (runtime_of d) h (completion_of policy expected h out)) s)
]

abbrev pub call_of : CostPolicy → Delivery → JobType → Call
call_of policy d expected = record {
  now = d.claimed_at;
  quote = policy.quote expected;
  correlation_id = d.message.correlation_id;
}

abbrev pub after_claim :
    Providers → CostPolicy → Delivery → JobType → Outcome ClaimResult × Store → Delivered
after_claim p policy d expected (thrown m, s) = ends (threw m) s
after_claim p policy d expected (returned (skip status), s) = ends (skipped status) s
after_claim p policy d expected (returned budget_limit_reached, s) = ends limit_reached s
after_claim p policy d expected (returned (ClaimResult.process h), s) =
    run_claimed p policy d expected h s

unfoldable pub process : Providers → CostPolicy → Delivery → JobType → Store → Delivered
unfolding run_claimed
process p policy d expected s = after_claim p policy d expected (
    with_transaction
      (claim (call_of policy d expected) d.message.organization_id d.message.processing_job_id
        expected)
      s)
