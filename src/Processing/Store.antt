-- ===== src/Processing/Store.antt =====
-- The database of the worker as a value, and the queries and updates that its repository makes
-- (apps/worker/src/processing/processing.repository.ts). A table with lookups by its primary key
-- alone is a function of the key.
use lex_os.Prelude.{
  ℕ, Bool, true, false, ◌&&◌, Option, none, some, List, [], ◌∷◌, ◌++◌, String, Result, ok, err,
  text_eq, ◌==◌, if◌then◌else◌, is_none, find_first, count_where, update_where,
}
use mathlib.Core.Option
use lex_os.Processing.Status.{JobStatus, same_status}
use lex_os.Processing.Rows.{
  Metadata, Job, CaseRow, DocumentRow, FileRow, DocumentType, Extraction, Entity, TimelineEvent,
  ActorType, system, ai, AuditLog,
}
use lex_os.Processing.Rows.Review.{ChecklistTemplate, CaseChecklist, ChecklistItem, KnowledgeChunk}

pub record Store : Type 0 where
  pub jobs : List Job
  pub cases : String → Option CaseRow
  pub documents : String → Option DocumentRow
  pub files : String → Option FileRow
  pub document_types : List DocumentType
  pub extractions : List Extraction
  pub entities : List Entity
  pub timeline : List TimelineEvent
  pub templates : List ChecklistTemplate
  pub checklists : List CaseChecklist
  pub checklist_items : List ChecklistItem
  pub chunks : List KnowledgeChunk
  pub audit : List AuditLog

-- A transaction: a thrown error gives no store, so `with_transaction` goes back to the old one.
abbrev pub Tx : Type 0 → Type 0
Tx A = Store → Result (A × Store)

infixl 5 ◌>>=◌ ◌>>◌
unfoldable pub ◌>>=◌ : {A B : Type 0} → Tx A → (A → Tx B) → Tx B
◌>>=◌ m f s = elim (m s) [ ok (a, s') ↦ f a s' | err e ↦ err e ]

unfoldable pub ◌>>◌ : {B : Type 0} → Tx (Unit {0}) → Tx B → Tx B
◌>>◌ m k s = elim (m s) [ ok (_, s') ↦ k s' | err e ↦ err e ]

unfoldable pub return : {A : Type 0} → A → Tx A
return a s = ok (a, s)

unfoldable pub throw : {A : Type 0} → String → Tx A
throw e s = err e

unfoldable pub lift : {A : Type 0} → Result A → Tx A
lift (ok a) s = ok (a, s)
lift (err e) s = err e

-- `if (test) throw new Error(message)`.
unfoldable pub refuse_if : Bool → String → Tx (Unit {0})
refuse_if true e s = err e
refuse_if false e s = ok (tt, s)

pub data Outcome (A : Type 0) : Type 0 where
  returned : A → Outcome A
  thrown : String → Outcome A

unfoldable pub with_transaction : {A : Type 0} → Tx A → Store → Outcome A × Store
with_transaction m s = elim (m s) [ ok (a, s') ↦ (returned a, s') | err e ↦ (thrown e, s) ]

abbrev pub by_id : String → String → Job → Bool
by_id organization_id id j = text_eq j.id id && text_eq j.organization_id organization_id

unfoldable pub find_job : String → String → List Job → Option Job
find_job organization_id id jobs = find_first (by_id organization_id id) jobs

-- The guard of every update of a job: the row as it was read, by its version.
unfoldable pub at_version : String → String → JobStatus → ℕ → Job → Bool
at_version organization_id id status version j =
    by_id organization_id id j && (same_status j.status status && j.version == version)

-- `processingJob.updateMany`, which counts the rows that it changes; Prisma sets `updatedAt`.
abbrev pub stamped : ℕ → (Job → Job) → Job → Job
stamped now f j = let k = f j in record k { updated_at = now }

unfoldable pub update_jobs : ℕ → (Job → Bool) → (Job → Job) → Tx ℕ
update_jobs now p f s =
    ok (count_where p s.jobs, record s { jobs = update_where p (stamped now f) s.jobs })

abbrev pub is_live_case : String → CaseRow → Bool
is_live_case organization_id c = text_eq c.organization_id organization_id && is_none c.deleted_at

-- `SELECT … FROM cases … FOR UPDATE`.
unfoldable pub lock_case : String → String → Store → Option CaseRow
lock_case organization_id id s = elim (s.cases id) [
  | none ↦ none
  | some c ↦ if is_live_case organization_id c then some c else none
]

abbrev pub update_row {ℓ} :
    {A : Type ℓ} → String → (A → A) → (String → Option A) → String → Option A
update_row id f rows k = if text_eq k id then Option.map f (rows k) else rows k

-- `case.updateMany` of one live case.
unfoldable pub update_case : String → String → (CaseRow → CaseRow) → Tx (Unit {0})
update_case organization_id id f s = ok (
  tt,
  record s {
    cases = update_row id (λ c. if is_live_case organization_id c then f c else c) s.cases;
  },
)

-- `document.updateMany` of one live document.
unfoldable pub update_document : String → String → (DocumentRow → DocumentRow) → Tx (Unit {0})
update_document organization_id id f s = ok (
  tt,
  record s {
    documents =
        update_row id
          (λ d.
            if text_eq d.organization_id organization_id && is_none d.deleted_at then f d else d)
          s.documents;
  },
)

abbrev pub actor_id_of : ActorType → String
actor_id_of ai = "lex-os-mock-provider"
actor_id_of system = "lex-os-worker"

pub record AuditInput : Type 0 where
  pub organization_id : String
  pub processing_job_id : String
  pub actor_type : ActorType
  pub action : String
  pub entity_type : String
  pub entity_id : String
  pub correlation_id : String
  pub new_data : Metadata

unfoldable pub audit : AuditInput → Tx (Unit {0})
audit input s = ok (
  tt,
  record s {
    audit =
        s.audit
        ++ record {
          organization_id = input.organization_id;
          actor_type = input.actor_type;
          actor_id = actor_id_of input.actor_type;
          action = input.action;
          entity_type = input.entity_type;
          entity_id = input.entity_id;
          new_data = input.new_data;
          correlation_id = input.correlation_id;
          processing_job_id = input.processing_job_id;
        }
          ∷ [];
  },
)
