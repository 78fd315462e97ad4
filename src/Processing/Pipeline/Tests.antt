-- ===== src/Processing/Pipeline/Tests.antt =====
-- Deliveries to a worker, and what the theorems say of them.
use lex_os.Prelude.{◌+◌, ◌≡◌, refl, true, none, some, []}
use lex_os.Processing.Status.{JobType}
use lex_os.Processing.Rows.{FileStatus, VirusScanStatus}
use lex_os.Processing.Target.{Claimed}
use lex_os.Processing.Accounting.{Sound}
use lex_os.Processing.Fixture.{file, store, held, store-Sound}
use lex_os.Processing.Pipeline.Providers.{Attempt, done, raised, internal, ◌>>=◌, ◌>>◌, Providers}
use lex_os.Processing.Pipeline.Stages.{StageOutput, is_released, validate_file, execute_stage}
use lex_os.Processing.Pipeline.Process.{Delivery, mock_processing_cost_policy, process}
use lex_os.Processing.Pipeline.Order.{next_stage, stages_left, execute_stage-next}
use lex_os.Processing.Pipeline.Sound.{process-Sound}

-- Providers of which none answers.
abbrev providers : Providers
providers = record {
  prompt_for = λ t a. raised internal;
  read_object = λ b k n. raised internal;
  decode = λ bs. "";
  extract_text = λ m. raised internal;
  classify = λ cs t q. raised internal;
  extract_entities = λ t q. raised internal;
  generate = λ n t q. raised internal;
  analyze = λ c t d is q. raised internal;
  embedding_provider = "mock";
  embedding_model = "m";
  embedding_version = "1";
  embedding_dimensions = 3;
  embed = λ ts. raised internal;
  hash = λ cs. "";
  text_of = λ cs. "";
  today = "2026-01-01";
}

abbrev delivery : Delivery
delivery = record {
  message = record { processing_job_id = "j1"; organization_id = "o1"; correlation_id = "r1" };
  delivery_attempt = 1;
  maximum_attempts = 3;
  claimed_at = 10;
  failed_at = 20;
  queue_is_up = true;
  runtime = record {
    sha256 = λ t. [];
    parse_date = λ t. 0;
    now = 20;
    extraction_id = "e1";
    correlation_id = "r1";
  };
}

process-Sound_example :
    let end =
      (process providers mock_processing_cost_policy delivery JobType.virus_scan store).store in
    Sound end.jobs end.cases []
process-Sound_example =
    process-Sound providers mock_processing_cost_policy delivery JobType.virus_scan store []
      store-Sound

-- The job of a released file, before its first stage.
abbrev released : Claimed
released = record held {
  job = record held.job { job_type = JobType.file_validation };
  document = record held.document {
    file = record file { status = FileStatus.available; virus_scan_status = VirusScanStatus.clean };
  };
}

abbrev output_or : StageOutput → Attempt StageOutput → StageOutput
output_or o (done a) = a
output_or o (raised e) = o

abbrev validated : StageOutput
validated = record {
  provider = "lex-os-validator";
  model_name = "deterministic-v1";
  output_metadata = [];
  extraction = none;
  classification = none;
  timeline = none;
  checklist = none;
  knowledge_index = none;
  next_job_type = some JobType.ocr;
  final_document_status = none;
}

abbrev first_output : StageOutput
first_output = output_or validated (execute_stage providers store released)

first_stage_runs : execute_stage providers store released ≡ done first_output
unfolding execute_stage validate_file is_released ◌>>=◌ ◌>>◌
first_stage_runs = refl

execute_stage-next_example :
    (first_output.next_job_type ≡ next_stage released.job.job_type)
    × ((t : JobType)
        → first_output.next_job_type ≡ some t
        → stages_left released.job.job_type ≡ stages_left t + 1)
execute_stage-next_example =
    execute_stage-next providers store released first_output first_stage_runs
