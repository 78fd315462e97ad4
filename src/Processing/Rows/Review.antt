-- ===== src/Processing/Rows/Review.antt =====
-- The rows of checklists and of the knowledge index (packages/database/prisma/schema.prisma).
use lex_os.Prelude.{ℕ, Bool, Option, List, String}
use lex_os.Processing.Rows.{Locator}

pub data ChecklistStatus : Type 0 where
  missing received invalid expired illegible awaiting_validation validated : ChecklistStatus
  not_applicable : ChecklistStatus

pub record TemplateItem : Type 0 where
  pub id : String
  pub title : String
  pub description : Option String
  pub is_required : Bool
  pub document_type_code : Option String

-- The items stand in the order that every query asks for.
pub record ChecklistTemplate : Type 0 where
  pub id : String
  pub organization_id : Option String
  pub version : ℕ
  pub legal_area : String
  pub case_type : String
  pub is_active : Bool
  pub items : List TemplateItem

pub data CaseChecklistStatus : Type 0 where
  in_progress needs_review completed : CaseChecklistStatus

pub record CaseChecklist : Type 0 where
  pub id : String
  pub organization_id : String
  pub case_id : String
  pub template_id : String
  pub template_version : ℕ
  pub status : CaseChecklistStatus

pub record ChecklistItem : Type 0 where
  pub id : String
  pub organization_id : String
  pub case_id : String
  pub case_checklist_id : String
  pub template_item_id : String
  pub title_snapshot : String
  pub description_snapshot : Option String
  pub is_required_snapshot : Bool
  pub status : ChecklistStatus
  pub document_id : Option String

-- A number of an embedding: the text that it prints as, if it is finite.
pub data Component : Type 0 where
  finite : String → Component
  not_finite : Component

-- The JSON of the column `metadata`.
pub record ChunkMetadata : Type 0 where
  pub schema_version : ℕ
  pub locator : Locator
  pub source_extraction_id : String

pub record KnowledgeChunk : Type 0 where
  pub id : String
  pub organization_id : String
  pub case_id : String
  pub document_id : String
  pub source_id : String
  pub chunk_index : ℕ
  pub content : String
  pub content_hash : String
  pub embedding : String
  pub embedding_provider : String
  pub embedding_model : String
  pub embedding_version : String
  pub embedding_dimensions : ℕ
  pub metadata : ChunkMetadata
