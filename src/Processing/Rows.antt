-- ===== src/Processing/Rows.antt =====
-- The rows that the pipeline reads and writes (packages/database/prisma/schema.prisma), the
-- columns that it selects or sets. A UUID is a text, an instant a number of milliseconds, an
-- amount a number of millionths and a confidence a number of ten-thousandths.
pub mod Review
use lex_os.Prelude.{ℕ, Bool, Option, List, String}
use lex_os.Processing.Status.{JobStatus, JobType}

pub data Datum : Type 0 where
  null : Datum
  flag : Bool → Datum
  num : ℕ → Datum
  text : String → Datum

-- A JSON object, by its fields in order.
abbrev pub Metadata : Type 0
Metadata = List (String × Datum)

-- The JSON of a metadata column; the pipeline looks into objects only.
pub data Json : Type 0 where
  obj : Metadata → Json
  scalar : Datum → Json
  array : List Datum → Json

pub record Job : Type 0 where
  pub id : String
  pub organization_id : String
  pub case_id : Option String
  pub file_id : Option String
  pub document_id : Option String
  pub job_type : JobType
  pub status : JobStatus
  pub attempts : ℕ
  pub version : ℕ
  pub provider : Option String
  pub model_name : Option String
  pub model_version : Option String
  pub reserved_cost : ℕ
  pub cost : Option ℕ
  pub cost_currency : String
  pub input_metadata : Option Json
  pub output_metadata : Option Json
  pub error_code : Option String
  pub error_message : Option String
  pub started_at : Option ℕ
  pub finished_at : Option ℕ
  pub updated_at : ℕ

pub data BudgetStatus : Type 0 where
  active limit_reached : BudgetStatus

pub record CaseRow : Type 0 where
  pub organization_id : String
  pub internal_code : String
  pub responsible_user_id : Option String
  pub legal_area : String
  pub case_type : String
  pub limit : ℕ
  pub spent : ℕ
  pub reserved : ℕ
  pub currency : String
  pub budget_status : BudgetStatus
  pub limit_reached_at : Option ℕ
  pub deleted_at : Option ℕ

pub data DocumentStatus : Type 0 where
  pending queued processing completed needs_review failed : DocumentStatus

pub data ClassificationStatus : Type 0 where
  pending processing classified needs_review failed : ClassificationStatus

pub record DocumentRow : Type 0 where
  pub organization_id : String
  pub case_id : Option String
  pub file_id : String
  pub document_type_id : Option String
  pub classification_status : ClassificationStatus
  pub processing_status : DocumentStatus
  pub confidence : Option ℕ
  pub deleted_at : Option ℕ

pub data FileStatus : Type 0 where
  quarantined validating available rejected failed : FileStatus

pub data VirusScanStatus : Type 0 where
  pending processing clean infected error : VirusScanStatus

pub record FileRow : Type 0 where
  pub organization_id : String
  pub mime_type : String
  pub storage_bucket : String
  pub storage_key : String
  pub status : FileStatus
  pub virus_scan_status : VirusScanStatus
  pub deleted_at : Option ℕ

pub record DocumentType : Type 0 where
  pub id : String
  pub organization_id : Option String
  pub code : String
  pub created_at : ℕ

pub data ExtractionType : Type 0 where
  ocr classification entity_extraction timeline_analysis checklist_analysis : ExtractionType

pub data ExtractionStatus : Type 0 where
  processing completed failed : ExtractionStatus

pub record Extraction : Type 0 where
  pub id : String
  pub organization_id : String
  pub document_id : String
  pub extraction_type : ExtractionType
  pub provider : String
  pub model_name : String
  pub model_version : String
  pub execution_id : String
  pub status : ExtractionStatus
  pub raw_text : Option String
  pub structured_data : Option Metadata
  pub confidence : Option ℕ
  pub processing_time_ms : ℕ
  pub prompt_version : Option String
  pub created_at : ℕ

pub record Entity : Type 0 where
  pub organization_id : String
  pub document_id : String
  pub extraction_id : String
  pub entity_type : String
  pub normalized_value : String
  pub original_value : String
  pub page_number : ℕ
  pub start_offset : ℕ
  pub end_offset : ℕ
  pub confidence : ℕ
  pub metadata : Metadata

pub record Locator : Type 0 where
  pub page_number : ℕ
  pub start_offset : ℕ
  pub end_offset : ℕ

pub record TimelineEvent : Type 0 where
  pub id : String
  pub organization_id : String
  pub case_id : String
  pub event_type : String
  pub title : String
  pub description : String
  pub occurred_at : ℕ
  pub date_precision : String
  pub importance : String
  pub source_id : String
  pub source_locator : Locator
  pub extraction_id : String
  pub confidence : ℕ
  pub confirmed_by_user : Bool

pub data ActorType : Type 0 where
  system ai : ActorType

pub record AuditLog : Type 0 where
  pub organization_id : String
  pub actor_type : ActorType
  pub actor_id : String
  pub action : String
  pub entity_type : String
  pub entity_id : String
  pub new_data : Metadata
  pub correlation_id : String
  pub processing_job_id : String
