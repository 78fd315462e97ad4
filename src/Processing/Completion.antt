-- ===== src/Processing/Completion.antt =====
-- What a stage hands over to be stored: `StageCompletion` of
-- apps/worker/src/processing/processing.repository.ts.
use lex_os.Prelude.{ℕ, Option, List, String}
use lex_os.Processing.Status.{JobType}
use lex_os.Processing.Rows.{Metadata, ExtractionType, Locator, DocumentStatus}
use lex_os.Processing.Rows.Review.{ChecklistStatus, Component}

pub record MeasuredCost : Type 0 where
  pub amount : String
  pub currency : String

pub record EntityInput : Type 0 where
  pub entity_type : String
  pub normalized_value : String
  pub original_value : String
  pub page_number : ℕ
  pub start_offset : ℕ
  pub end_offset : ℕ
  pub confidence : ℕ
  pub context : String

pub record ExtractionInput : Type 0 where
  pub extraction_type : ExtractionType
  pub execution_id : String
  pub raw_text : Option String
  pub structured_data : Option Metadata
  pub confidence : Option ℕ
  pub processing_time_ms : ℕ
  pub prompt_version : Option String
  pub entities : Option (List EntityInput)

pub record ClassificationInput : Type 0 where
  pub document_type_code : String
  pub confidence : ℕ

pub record EventInput : Type 0 where
  pub event_type : String
  pub title : String
  pub description : String
  pub occurred_at : String
  pub date_precision : String
  pub importance : String
  pub source_locator : Locator
  pub confidence : ℕ

pub record ItemResult : Type 0 where
  pub template_item_id : String
  pub status : ChecklistStatus

pub record ChecklistInput : Type 0 where
  pub template_id : String
  pub template_version : ℕ
  pub items : List ItemResult

pub record ChunkInput : Type 0 where
  pub chunk_index : ℕ
  pub content : String
  pub content_hash : String
  pub locator : Locator
  pub embedding : List Component

pub record IndexInput : Type 0 where
  pub source_extraction_id : String
  pub embedding_version : String
  pub embedding_dimensions : ℕ
  pub chunks : List ChunkInput

pub record StageCompletion : Type 0 where
  pub provider : String
  pub model_name : String
  pub model_version : String
  pub cost : MeasuredCost
  pub output_metadata : Metadata
  pub extraction : Option ExtractionInput
  pub classification : Option ClassificationInput
  pub timeline : Option (List EventInput)
  pub checklist : Option ChecklistInput
  pub knowledge_index : Option IndexInput
  pub next_job_type : Option JobType
  pub final_document_status : Option DocumentStatus

-- What a completion takes from outside: the hash, the reading of an ISO date, the clock and the
-- identifier that the database draws for the extraction.
pub record Runtime : Type 0 where
  pub sha256 : String → List ℕ
  pub parse_date : String → ℕ
  pub now : ℕ
  pub extraction_id : String
  pub correlation_id : String
