-- ===== src/Processing/Fixture.antt =====
-- One case with one document and one job, for the runs of the pipeline
-- (apps/worker/src/processing).
use lex_os.Prelude.{◌≡◌, refl, none, some, [], ◌∷◌, arith, text_eq, if◌then◌else◌}
use lex_os.Processing.Status.{JobStatus, JobType}
use lex_os.Processing.Rows.{
  Job, CaseRow, BudgetStatus, DocumentRow, FileRow, DocumentStatus, ClassificationStatus,
  FileStatus, VirusScanStatus,
}
use lex_os.Processing.Store.{Store, find_job}
use lex_os.Processing.Target.{Claimed}
use lex_os.Processing.Claim.{Call, started}
use lex_os.Processing.Accounting.{held_for, Sound}

abbrev pub job : Job
job = record {
  id = "j1";
  organization_id = "o1";
  case_id = some "c1";
  file_id = some "f1";
  document_id = some "d1";
  job_type = JobType.virus_scan;
  status = JobStatus.queued;
  attempts = 0;
  version = 1;
  provider = none;
  model_name = none;
  model_version = none;
  reserved_cost = 0;
  cost = none;
  cost_currency = "BRL";
  input_metadata = none;
  output_metadata = none;
  error_code = none;
  error_message = none;
  started_at = none;
  finished_at = none;
  updated_at = 0;
}

abbrev pub case_row : CaseRow
case_row = record {
  organization_id = "o1";
  internal_code = "0001";
  responsible_user_id = none;
  legal_area = "CIVIL";
  case_type = "CLAIM";
  limit = 5000000;
  spent = 0;
  reserved = 0;
  currency = "BRL";
  budget_status = BudgetStatus.active;
  limit_reached_at = none;
  deleted_at = none;
}

abbrev pub document : DocumentRow
document = record {
  organization_id = "o1";
  case_id = some "c1";
  file_id = "f1";
  document_type_id = none;
  classification_status = ClassificationStatus.pending;
  processing_status = DocumentStatus.queued;
  confidence = none;
  deleted_at = none;
}

abbrev pub file : FileRow
file = record {
  organization_id = "o1";
  mime_type = "application/pdf";
  storage_bucket = "b";
  storage_key = "k";
  status = FileStatus.quarantined;
  virus_scan_status = VirusScanStatus.pending;
  deleted_at = none;
}

abbrev pub store : Store
store = record {
  jobs = job ∷ [];
  cases = λ k. if text_eq k "c1" then some case_row else none;
  documents = λ k. if text_eq k "d1" then some document else none;
  files = λ k. if text_eq k "f1" then some file else none;
  document_types = [];
  extractions = [];
  entities = [];
  timeline = [];
  templates = [];
  checklists = [];
  checklist_items = [];
  chunks = [];
  audit = [];
}

abbrev pub call : Call
call = record {
  now = 10;
  quote = record {
    provider = "mock";
    model_name = "m";
    model_version = "1";
    maximum_amount = "2.000000";
    currency = "BRL";
  };
  correlation_id = "r1";
}

abbrev pub held : Claimed
held = record {
  job = started call 2000000 job;
  case_id = "c1";
  file_id = "f1";
  document_id = "d1";
  document = record {
    id = "d1";
    row = document;
    file = file;
    case_row = some case_row;
    type_code = none;
    extraction = none;
  };
  case_row = case_row;
}

pub store-Sound : Sound store.jobs store.cases []
unfolding held_for
store-Sound = record {
  unique = λ id. ground arith;
  accounted = λ k c e. ground arith;
  within = λ k c e. ground arith;
  fresh = tt;
}

pub found : find_job "o1" "j1" store.jobs ≡ some job
unfolding find_job text_eq
found = refl
