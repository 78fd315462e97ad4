-- ===== src/Processing/Status.antt =====
-- The status of a processing job and its transitions (apps/worker/src/processing/
-- job-state-machine.ts), the types of job and their queues (packages/contracts/src/index.ts).
use lex_os.Prelude.{
  ◌≡◌, ◌↔◌, Bool, true, false, Option, none, some, List, [], ◌∷◌, String, Result, ok, err,
  any_where, if◌then◌else◌, arith,
}
use Prim.Native.String

pub data JobStatus : Type 0 where
  queued processing completed failed retrying cancelled : JobStatus

pub JobStatus-discrete : Discrete JobStatus
JobStatus-discrete = hlevel

unfoldable pub same_status : JobStatus → JobStatus → Bool
unfolding JobStatus-discrete
same_status a b = elim (JobStatus-discrete a b) [ yes e ↦ true | no n ↦ false ]

pub same_status_iff : (a b : JobStatus) → (same_status a b ≡ true) ↔ (a ≡ b)
unfolding same_status
same_status_iff a b = ground arith

abbrev pub status_name : JobStatus → String
status_name queued = "QUEUED"
status_name processing = "PROCESSING"
status_name completed = "COMPLETED"
status_name failed = "FAILED"
status_name retrying = "RETRYING"
status_name cancelled = "CANCELLED"

allowed_transitions : JobStatus → List JobStatus
allowed_transitions queued = processing ∷ cancelled ∷ []
allowed_transitions processing = completed ∷ retrying ∷ failed ∷ cancelled ∷ []
allowed_transitions retrying = processing ∷ cancelled ∷ []
allowed_transitions completed = []
allowed_transitions failed = []
allowed_transitions cancelled = []

unfoldable pub can_transition : JobStatus → JobStatus → Bool
unfolding allowed_transitions same_status
can_transition from to = any_where (same_status to) (allowed_transitions from)

unfoldable pub assert_transition : JobStatus → JobStatus → Result (Unit {0})
assert_transition from to =
    if can_transition from to
    then ok tt
    else err (
        String.◌++◌ "Invalid processing job transition: "
          (String.◌++◌ (status_name from) (String.◌++◌ " -> " (String.◌++◌ (status_name to) "."))))

abbrev pub is_terminal : JobStatus → Bool
is_terminal completed = true
is_terminal failed = true
is_terminal cancelled = true
is_terminal _ = false

-- The types of the table, of which the pipeline's are those with a queue.
pub data JobType : Type 0 where
  ocr transcription document_classification entity_extraction summary embedding : JobType
  timeline_generation checklist_analysis duplicate_detection file_validation virus_scan : JobType
  case_export : JobType

pub JobType-discrete : Discrete JobType
JobType-discrete = hlevel

unfoldable pub same_type : JobType → JobType → Bool
unfolding JobType-discrete
same_type a b = elim (JobType-discrete a b) [ yes e ↦ true | no n ↦ false ]

abbrev pub type_name : JobType → String
type_name ocr = "OCR"
type_name transcription = "TRANSCRIPTION"
type_name document_classification = "DOCUMENT_CLASSIFICATION"
type_name entity_extraction = "ENTITY_EXTRACTION"
type_name summary = "SUMMARY"
type_name embedding = "EMBEDDING"
type_name timeline_generation = "TIMELINE_GENERATION"
type_name checklist_analysis = "CHECKLIST_ANALYSIS"
type_name duplicate_detection = "DUPLICATE_DETECTION"
type_name file_validation = "FILE_VALIDATION"
type_name virus_scan = "VIRUS_SCAN"
type_name case_export = "CASE_EXPORT"

unfoldable pub queue_name : JobType → Option String
queue_name checklist_analysis = some "checklist-analysis"
queue_name document_classification = some "document-classification"
queue_name embedding = some "embedding-generation"
queue_name entity_extraction = some "entity-extraction"
queue_name file_validation = some "file-validation"
queue_name ocr = some "ocr-processing"
queue_name timeline_generation = some "timeline-generation"
queue_name virus_scan = some "virus-scan"
queue_name _ = none
