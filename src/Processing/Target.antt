-- ===== src/Processing/Target.antt =====
-- What a job is about: the row with the document, the file, the case and the text that its select
-- joins, and the check that they belong together (`jobTargetSelect`, `assertTenantRelationships`
-- of apps/worker/src/processing/processing.repository.ts).
use Prim.Native.String.{compare}
use text.Mathlib.Text.{is_lt}
use lex_os.Prelude.{
  Bool, true, false, ◌&&◌, ◌||◌, Option, none, some, List, [], ◌∷◌, String, Result, ok, err,
  text_eq, ltb, ◌==◌, if◌then◌else◌, is_none, find_first,
}
use lex_os.Processing.Rows.{
  Job, CaseRow, DocumentRow, FileRow, Extraction, ExtractionType, ExtractionStatus,
}
use lex_os.Processing.Store.{Store}

pub record DocumentTarget : Type 0 where
  pub id : String
  pub row : DocumentRow
  pub file : FileRow
  pub case_row : Option CaseRow
  pub type_code : Option String
  pub extraction : Option Extraction

pub record JobTarget : Type 0 where
  pub job : Job
  pub document : Option DocumentTarget

infixl 5 ◌>>=◌
abbrev ◌>>=◌ : {A B : Type 0} → Option A → (A → Option B) → Option B
none >>= k = none
some a >>= k = k a

abbrev is_text_of : String → Extraction → Bool
is_text_of document_id e =
    text_eq e.document_id document_id
    && (elim e.extraction_type [ ExtractionType.ocr ↦ true | _ ↦ false ]
        && elim e.status [ ExtractionStatus.completed ↦ true | _ ↦ false ])

-- `createdAt` descending, then `id` descending.
abbrev is_newer : Extraction → Extraction → Bool
is_newer a b =
    ltb b.created_at a.created_at || (a.created_at == b.created_at && is_lt (compare b.id a.id))

abbrev newer_of : Extraction → Option Extraction → Extraction
newer_of e none = e
newer_of e (some f) = if is_newer e f then e else f

-- The completed OCR extraction of the document that was created last.
unfoldable pub latest_text : String → List Extraction → Option Extraction
latest_text document_id [] = none
latest_text document_id (e ∷ es) =
    let rest = latest_text document_id es in
    if is_text_of document_id e then some (newer_of e rest) else rest

unfoldable pub join_document : Store → String → Option DocumentTarget
unfolding latest_text
join_document s id = do
  row ← s.documents id
  file ← s.files row.file_id
  some (record {
    id = id;
    row = row;
    file = file;
    case_row = (do k ← row.case_id; s.cases k);
    type_code = (do
      type_id ← row.document_type_id
      t ← find_first (λ t. text_eq t.id type_id) s.document_types
      some t.code);
    extraction = latest_text id s.extractions;
  })

unfoldable pub join_job : Store → Job → JobTarget
unfolding join_document
join_job s j = record { job = j; document = (do id ← j.document_id; join_document s id) }

-- A job whose relations are there: what a worker holds while it executes a stage.
pub record Claimed : Type 0 where
  pub job : Job
  pub case_id : String
  pub file_id : String
  pub document_id : String
  pub document : DocumentTarget
  pub case_row : CaseRow

unfoldable pub narrow : JobTarget → Option Claimed
narrow t = do
  case_id ← t.job.case_id
  file_id ← t.job.file_id
  document_id ← t.job.document_id
  document ← t.document
  case_row ← document.case_row
  some (record {
    job = t.job;
    case_id = case_id;
    file_id = file_id;
    document_id = document_id;
    document = document;
    case_row = case_row;
  })

abbrev pub same_optional : String → Option String → Bool
same_optional s none = false
same_optional s (some t) = text_eq s t

abbrev pub is_consistent : Claimed → Bool
is_consistent h =
    text_eq h.job.organization_id h.document.row.organization_id
    && (text_eq h.job.organization_id h.document.file.organization_id
        && (text_eq h.job.organization_id h.case_row.organization_id
            && (text_eq h.document_id h.document.id
                && (text_eq h.file_id h.document.row.file_id
                    && (same_optional h.case_id h.document.row.case_id
                        && (is_none h.document.row.deleted_at
                            && (is_none h.document.file.deleted_at
                                && is_none h.case_row.deleted_at)))))))

abbrev pub inconsistent_tenant : String
inconsistent_tenant = "Processing job has inconsistent tenant relationships."

unfoldable pub assert_tenant_relationships : JobTarget → Result Claimed
unfolding narrow
assert_tenant_relationships t = elim (narrow t) [
  | none ↦ err inconsistent_tenant
  | some h ↦ if is_consistent h then ok h else err inconsistent_tenant
]
