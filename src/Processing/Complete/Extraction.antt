-- ===== src/Processing/Complete/Extraction.antt =====
-- The first parts of `ProcessingRepository.complete`: the extraction with its entities, the
-- classification and the timeline (apps/worker/src/processing/processing.repository.ts).
use Prim.Native.String
use lex_os.Prelude.{
  ℕ, suc, ◌&&◌, ◌||◌, Bool, true, false, Option, none, some, List, [], ◌∷◌, ◌++◌, map, String, ok,
  err, text_eq, ltb, if◌then◌else◌, is_none, any_where, ◌==◌,
}
use lex_os.Processing.Rows.{
  Datum, DocumentType, Extraction, ClassificationStatus, ExtractionType, ExtractionStatus, Entity,
  TimelineEvent, ai,
}
use lex_os.Processing.Store.{Tx, ◌>>◌, return, throw, update_document, audit}
use lex_os.Processing.Target.{Claimed}
use lex_os.Processing.DeterministicId.{deterministic_job_id, decimal}
use lex_os.Processing.Completion.{
  EntityInput, ExtractionInput, ClassificationInput, EventInput, StageCompletion, Runtime,
}

abbrev pub extraction_type_name : ExtractionType → String
extraction_type_name ExtractionType.ocr = "OCR"
extraction_type_name ExtractionType.classification = "CLASSIFICATION"
extraction_type_name ExtractionType.entity_extraction = "ENTITY_EXTRACTION"
extraction_type_name ExtractionType.timeline_analysis = "TIMELINE_ANALYSIS"
extraction_type_name ExtractionType.checklist_analysis = "CHECKLIST_ANALYSIS"

abbrev entity_row : Claimed → String → EntityInput → Entity
entity_row h extraction_id e = record {
  organization_id = h.job.organization_id;
  document_id = h.document_id;
  extraction_id = extraction_id;
  entity_type = e.entity_type;
  normalized_value = e.normalized_value;
  original_value = e.original_value;
  page_number = e.page_number;
  start_offset = e.start_offset;
  end_offset = e.end_offset;
  confidence = e.confidence;
  metadata = ("source", Datum.text "DETERMINISTIC_MOCK") ∷ ("context", Datum.text e.context) ∷ [];
}

-- Only an entity extraction stores its entities.
abbrev new_entities : Claimed → String → ExtractionType → Option (List EntityInput) → List Entity
new_entities h id ExtractionType.entity_extraction (some es) = map (entity_row h id) es
new_entities h id t es = []

abbrev pub unique_violation : String
unique_violation = "Unique constraint failed."

-- One row for an execution of a provider in an organization.
abbrev is_same_execution : String → String → String → Extraction → Bool
is_same_execution organization_id provider execution_id e =
    text_eq e.organization_id organization_id
    && (text_eq e.provider provider && text_eq e.execution_id execution_id)

unfoldable pub create_extraction :
    Runtime → Claimed → StageCompletion → ExtractionInput → Tx (Unit {0})
create_extraction env h c x s =
    if any_where (is_same_execution h.job.organization_id c.provider x.execution_id) s.extractions
    then err unique_violation
    else ok (
      tt,
      record s {
        extractions =
            s.extractions
            ++ record {
              id = env.extraction_id;
              organization_id = h.job.organization_id;
              document_id = h.document_id;
              extraction_type = x.extraction_type;
              provider = c.provider;
              model_name = c.model_name;
              model_version = c.model_version;
              execution_id = x.execution_id;
              status = ExtractionStatus.completed;
              raw_text = x.raw_text;
              structured_data = x.structured_data;
              confidence = x.confidence;
              processing_time_ms = x.processing_time_ms;
              prompt_version = x.prompt_version;
              created_at = env.now;
            }
              ∷ [];
        entities = s.entities ++ new_entities h env.extraction_id x.extraction_type x.entities;
      },
    )

unfoldable pub record_extraction : Runtime → Claimed → StageCompletion → Tx (Option String)
unfolding create_extraction
record_extraction env h c = elim c.extraction [
  | none ↦ return none
  | some x ↦ do
    create_extraction env h c x
    audit (record {
      organization_id = h.job.organization_id;
      processing_job_id = h.job.id;
      actor_type = ai;
      action = "processing.extraction.created";
      entity_type = "document_extraction";
      entity_id = env.extraction_id;
      correlation_id = env.correlation_id;
      new_data =
          ("extractionType", Datum.text (extraction_type_name x.extraction_type))
          ∷ ("provider", Datum.text c.provider)
          ∷ ("modelName", Datum.text c.model_name)
          ∷ [];
    })
    return (some env.extraction_id)
]

abbrev is_visible_type : String → String → DocumentType → Bool
is_visible_type organization_id code t =
    text_eq t.code code
    && (elim t.organization_id [ none ↦ true | some o ↦ text_eq o organization_id ])

-- `organizationId` descending puts the global types, whose identifier is null, first; `createdAt`
-- ascending follows.
abbrev goes_first : DocumentType → DocumentType → Bool
goes_first a b =
    (is_none a.organization_id && elim b.organization_id [ none ↦ false | some o ↦ true ])
    || (elim a.organization_id [
      | none ↦ is_none b.organization_id
      | some o ↦ elim b.organization_id [ none ↦ false | some p ↦ true ]
    ]
        && (ltb a.created_at b.created_at || a.created_at == b.created_at))

abbrev first_of_types : DocumentType → Option DocumentType → DocumentType
first_of_types t none = t
first_of_types t (some u) = if goes_first t u then t else u

unfoldable pub find_type : String → String → List DocumentType → Option DocumentType
find_type organization_id code [] = none
find_type organization_id code (t ∷ ts) =
    let rest = find_type organization_id code ts in
    if is_visible_type organization_id code t then some (first_of_types t rest) else rest

unfoldable pub apply_classification : Claimed → Option ClassificationInput → Tx (Unit {0})
unfolding find_type
apply_classification h none s = ok (tt, s)
apply_classification h (some x) s =
    elim (find_type h.job.organization_id x.document_type_code s.document_types) [
      | none ↦ err "The OUTRO document type is not configured."
      | some t ↦
          update_document h.job.organization_id h.document_id
            (λ d. record d {
              document_type_id = some t.id;
              classification_status = ClassificationStatus.needs_review;
              confidence = some x.confidence;
            })
            s
    ]

abbrev event_row : Runtime → Claimed → String → String → EventInput → TimelineEvent
event_row env h extraction_id id e = record {
  id = id;
  organization_id = h.job.organization_id;
  case_id = h.case_id;
  event_type = e.event_type;
  title = e.title;
  description = e.description;
  occurred_at = env.parse_date e.occurred_at;
  date_precision = e.date_precision;
  importance = e.importance;
  source_id = h.document_id;
  source_locator = e.source_locator;
  extraction_id = extraction_id;
  confidence = e.confidence;
  confirmed_by_user = false;
}

-- `timelineEvent.create`, under the primary key.
unfoldable pub create_event : TimelineEvent → Tx (Unit {0})
create_event e s =
    if any_where (λ f. text_eq f.id e.id) s.timeline
    then err unique_violation
    else ok (tt, record s { timeline = s.timeline ++ e ∷ [] })

unfoldable pub add_events : Runtime → Claimed → String → ℕ → List EventInput → Tx (Unit {0})
unfolding create_event
add_events env h extraction_id index [] = return tt
add_events env h extraction_id index (e ∷ es) =
    let id =
      deterministic_job_id env.sha256 h.job.id (String.◌++◌ "TIMELINE_EVENT:" (decimal index)) in
    let rest = add_events env h extraction_id (suc index) es in
    do
      create_event (event_row env h extraction_id id e)
      audit (record {
        organization_id = h.job.organization_id;
        processing_job_id = h.job.id;
        actor_type = ai;
        action = "timeline.event.created";
        entity_type = "timeline_event";
        entity_id = id;
        correlation_id = env.correlation_id;
        new_data =
            ("caseId", Datum.text h.case_id)
            ∷ ("eventType", Datum.text e.event_type)
            ∷ ("sourceType", Datum.text "DOCUMENT")
            ∷ ("sourceId", Datum.text h.document_id)
            ∷ ("extractionId", Datum.text extraction_id)
            ∷ ("confirmedByUser", Datum.flag false)
            ∷ [];
      })
      rest

unfoldable pub add_timeline :
    Runtime → Claimed → Option String → Option (List EventInput) → Tx (Unit {0})
unfolding add_events
add_timeline env h extraction_id none = return tt
add_timeline env h none (some es) = throw "Timeline events require their analysis extraction."
add_timeline env h (some id) (some es) = add_events env h id 0 es
