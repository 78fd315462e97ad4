-- ===== src/Processing/Pipeline/Stages.antt =====
-- The stages of the pipeline: `#executeStage` of
-- apps/worker/src/processing/pipeline-processor.service.ts. A confidence is in ten-thousandths.
use Prim.Native.String
use lex_os.Prelude.{
  ℕ, Bool, true, false, not, ◌&&◌, Option, none, some, List, [], ◌∷◌, String, leb, text_eq,
  if◌then◌else◌, length, map,
}
use lex_os.Processing.Status.{JobType}
use lex_os.Processing.Rows.{
  Datum, Metadata, DocumentStatus, ExtractionType, Extraction, FileStatus, VirusScanStatus,
}
use lex_os.Processing.Rows.Review.{ChecklistTemplate, Component}
use lex_os.Processing.Store.{Store}
use lex_os.Processing.Target.{Claimed}
use lex_os.Processing.Completion.{
  ExtractionInput, ClassificationInput, EventInput, ChecklistInput, ChunkInput, IndexInput,
}
use lex_os.Shared.Knowledge.{Chunk, default_options, chunk_knowledge_text}
use lex_os.Processing.Pipeline.Providers.{
  retryable, permanent, internal, Attempt, done, raised, ◌>>=◌, ◌>>◌, raise_if, Providers,
  PromptTask, units_of, source_text_from, extract, assert_embedding_batch, attempted,
}
use lex_os.Processing.Pipeline.Queries.{available_document_type_codes, find_checklist_template}

-- A completion without its cost and the version of the model.
pub record StageOutput : Type 0 where
  pub provider : String
  pub model_name : String
  pub output_metadata : Metadata
  pub extraction : Option ExtractionInput
  pub classification : Option ClassificationInput
  pub timeline : Option (List EventInput)
  pub checklist : Option ChecklistInput
  pub knowledge_index : Option IndexInput
  pub next_job_type : Option JobType
  pub final_document_status : Option DocumentStatus

-- A completion of the two texts, the metadata and the next stage; the rest is added.
abbrev output : String → String → Metadata → Option JobType → StageOutput
output provider model_name metadata next = record {
  provider = provider;
  model_name = model_name;
  output_metadata = metadata;
  extraction = none;
  classification = none;
  timeline = none;
  checklist = none;
  knowledge_index = none;
  next_job_type = next;
  final_document_status = none;
}

abbrev analysis : ExtractionType → String → Metadata → Option ℕ → Option String → ExtractionInput
analysis kind execution_id facts confidence prompt_version = record {
  extraction_type = kind;
  execution_id = execution_id;
  raw_text = none;
  structured_data = some facts;
  confidence = confidence;
  processing_time_ms = 1;
  prompt_version = prompt_version;
  entities = none;
}

abbrev mock_id : Claimed → String
mock_id h = String.◌++◌ "mock-v1:" h.job.id

-- `extractions[0]?.rawText`.
abbrev raw_text_of : Option Extraction → Option String
raw_text_of none = none
raw_text_of (some e) = e.raw_text

abbrev text_or_empty : Option String → String
text_or_empty none = ""
text_or_empty (some t) = t

unfoldable pub is_released : Claimed → Bool
is_released h =
    (elim h.document.file.status [ FileStatus.available ↦ true | _ ↦ false ])
    && (elim h.document.file.virus_scan_status [ VirusScanStatus.clean ↦ true | _ ↦ false ])

unfoldable pub validate_file : Claimed → Attempt StageOutput
unfolding is_released
validate_file h = do
  raise_if (not (is_released h))
      (permanent "FILE_NOT_AVAILABLE" "O arquivo não está liberado para processamento.")
  done (
      output "lex-os-validator" "deterministic-v1"
        (("stage", Datum.text "FILE_VALIDATION")
          ∷ ("progress", Datum.num 25)
          ∷ ("validated", Datum.flag true)
          ∷ [])
        (some JobType.ocr))

unfoldable pub read_text : Providers → Claimed → Attempt StageOutput
unfolding extract
read_text p h = do
  result ← extract p h.document.file
  let lido = text_eq result.provider "lex-os-text-reader"
  let facts : Metadata =
      ("source", Datum.text (if lido then "FILE_CONTENT" else "DETERMINISTIC_MOCK"))
      ∷ ("truncated", Datum.flag result.truncated)
      ∷ []
  let text : ExtractionInput =
      analysis ExtractionType.ocr
        (String.◌++◌ (if lido then "read" else "mock") (String.◌++◌ "-v1:" h.job.id)) facts
        (some result.confidence) none
  let base : StageOutput =
      output result.provider result.model_name
        (("stage", Datum.text "OCR")
          ∷ ("progress", Datum.num 50)
          ∷ ("characters", Datum.num (length (units_of result.raw_text)))
          ∷ ("truncated", Datum.flag result.truncated)
          ∷ [])
        (some JobType.document_classification)
  done (record base { extraction = some (record text { raw_text = some result.raw_text }) })

unfoldable pub classify_document : Providers → Store → Claimed → Attempt StageOutput
classify_document p s h = do
  prompt ← p.prompt_for PromptTask.classification h.case_row.legal_area
  result ←
      p.classify (available_document_type_codes h s)
        (source_text_from (text_or_empty (raw_text_of h.document.extraction))) prompt
  let base : StageOutput =
      output result.provider result.model_name
        (("stage", Datum.text "DOCUMENT_CLASSIFICATION") ∷ ("progress", Datum.num 75) ∷ [])
        (some JobType.entity_extraction)
  done (record base {
    extraction = some (
        analysis ExtractionType.classification (mock_id h)
          (("documentTypeCode", Datum.text result.code)
            ∷ ("requiresHumanReview", Datum.flag true)
            ∷ ("composite", Datum.flag result.composite)
            ∷ [])
          (some result.confidence) (some prompt.version));
    classification =
        some (record { document_type_code = result.code; confidence = result.confidence });
  })

unfoldable pub find_entities : Providers → Claimed → Attempt StageOutput
find_entities p h = do
  prompt ← p.prompt_for PromptTask.entities h.case_row.legal_area
  result ←
      p.extract_entities (source_text_from (text_or_empty (raw_text_of h.document.extraction)))
        prompt
  let found : ExtractionInput =
      analysis ExtractionType.entity_extraction (mock_id h)
        (("entityCount", Datum.num (length result.entities)) ∷ []) (some 9800) (some prompt.version)
  let base : StageOutput =
      output result.provider result.model_name
        (("stage", Datum.text "ENTITY_EXTRACTION")
          ∷ ("progress", Datum.num 70)
          ∷ ("entityCount", Datum.num (length result.entities))
          ∷ [])
        (some JobType.timeline_generation)
  done (record base { extraction = some (record found { entities = some result.entities }) })

-- `Math.min` over the events, of which there is one at least.
unfoldable pub least_confidence : List EventInput → Option ℕ
least_confidence [] = none
least_confidence (e ∷ es) = elim (least_confidence es) [
  | none ↦ some e.confidence
  | some n ↦ some (if leb e.confidence n then e.confidence else n)
]

-- The text that a stage cannot do without.
unfoldable pub required_text : String → String → Option Extraction → Attempt (Extraction × String)
required_text code message none = raised (permanent code message)
required_text code message (some e) = elim e.raw_text [
  | none ↦ raised (permanent code message)
  | some t ↦ done (e, t)
]

unfoldable pub generate_timeline : Providers → Claimed → Attempt StageOutput
generate_timeline p h = do
  (source, text) ←
      required_text "TIMELINE_SOURCE_MISSING"
        "A cronologia exige uma extração textual autorizada do mesmo documento."
        h.document.extraction
  prompt ← p.prompt_for PromptTask.timeline h.case_row.legal_area
  result ← p.generate (length (units_of text)) (source_text_from text) prompt
  let base : StageOutput =
      output result.provider result.model_name
        (("stage", Datum.text "TIMELINE_GENERATION")
          ∷ ("progress", Datum.num 85)
          ∷ ("eventCount", Datum.num (length result.events))
          ∷ ("outcome", Datum.text result.outcome)
          ∷ [])
        (some JobType.checklist_analysis)
  done (record base {
    extraction = some (
        analysis ExtractionType.timeline_analysis (mock_id h)
          (("schemaVersion", Datum.num result.schema_version)
            ∷ ("sourceExtractionId", Datum.text source.id)
            ∷ ("eventCount", Datum.num (length result.events))
            ∷ ("outcome", Datum.text result.outcome)
            ∷ [])
          (least_confidence result.events) (some result.prompt_version));
    timeline = some result.events;
  })

abbrev pub has_no_items : ChecklistTemplate → Bool
has_no_items t = elim t.items [ [] ↦ true | i ∷ is ↦ false ]

abbrev pub without_template : StageOutput
without_template =
    output "lex-os-mock-checklist" "deterministic-v1"
      (("stage", Datum.text "CHECKLIST_ANALYSIS")
        ∷ ("progress", Datum.num 100)
        ∷ ("itemCount", Datum.num 0)
        ∷ ("templateAvailable", Datum.flag false)
        ∷ [])
      (some JobType.embedding)

unfoldable pub analyze_with : Providers → Claimed → ChecklistTemplate → Attempt StageOutput
analyze_with p h template = do
  prompt ← p.prompt_for PromptTask.checklist h.case_row.legal_area
  result ←
      p.analyze h.document.type_code
        (elim (raw_text_of h.document.extraction) [
          | none ↦ none
          | some t ↦ some (source_text_from t)
        ])
        p.today template.items prompt
  let base : StageOutput =
      output result.provider result.model_name
        (("stage", Datum.text "CHECKLIST_ANALYSIS")
          ∷ ("progress", Datum.num 100)
          ∷ ("itemCount", Datum.num (length result.items))
          ∷ [])
        (some JobType.embedding)
  done (record base {
    extraction = some (
        analysis ExtractionType.checklist_analysis (mock_id h)
          (("schemaVersion", Datum.num result.schema_version)
            ∷ ("templateId", Datum.text template.id)
            ∷ ("templateVersion", Datum.num template.version)
            ∷ ("itemCount", Datum.num (length result.items))
            ∷ [])
          none (some result.prompt_version));
    checklist = some (record {
      template_id = template.id;
      template_version = template.version;
      items = result.items;
    });
  })

unfoldable pub analyze_checklist : Providers → Store → Claimed → Attempt StageOutput
unfolding analyze_with
analyze_checklist p s h = elim (find_checklist_template h s) [
  | none ↦ done without_template
  | some t ↦ if has_no_items t then done without_template else analyze_with p h t
]

abbrev with_embedding : Providers → Chunk → List Component → ChunkInput
with_embedding p c v = record {
  chunk_index = c.chunk_index;
  content = p.text_of c.content;
  content_hash = c.content_hash;
  locator = record {
    page_number = c.locator.page_number;
    start_offset = c.locator.start_offset;
    end_offset = c.locator.end_offset;
  };
  embedding = v;
}

-- `embeddings[index] ?? []`.
unfoldable pub with_embeddings : Providers → List Chunk → List (List Component) → List ChunkInput
with_embeddings p [] vs = []
with_embeddings p (c ∷ cs) [] = with_embedding p c [] ∷ with_embeddings p cs []
with_embeddings p (c ∷ cs) (v ∷ vs) = with_embedding p c v ∷ with_embeddings p cs vs

abbrev content_of : Chunk → List ℕ
content_of c = c.content

abbrev are_none : List Chunk → Bool
are_none [] = true
are_none (c ∷ cs) = false

unfoldable pub embed_text : Providers → Claimed → Attempt StageOutput
unfolding with_embeddings
embed_text p h = do
  (source, text) ←
      required_text "EMBEDDING_SOURCE_MISSING"
        "A indexação exige uma extração textual autorizada do mesmo documento."
        h.document.extraction
  chunks ← attempted (chunk_knowledge_text p.hash default_options (units_of text))
  raise_if (are_none chunks)
      (permanent "EMBEDDING_SOURCE_EMPTY" "A extração textual não contém conteúdo pesquisável.")
  embeddings ← p.embed (map content_of chunks)
  assert_embedding_batch embeddings (length chunks) p.embedding_dimensions
  let base : StageOutput =
      output p.embedding_provider p.embedding_model
        (("stage", Datum.text "EMBEDDING")
          ∷ ("progress", Datum.num 100)
          ∷ ("chunkCount", Datum.num (length chunks))
          ∷ [])
        none
  done (record base {
    knowledge_index = some (record {
      source_extraction_id = source.id;
      embedding_version = p.embedding_version;
      embedding_dimensions = p.embedding_dimensions;
      chunks = with_embeddings p chunks embeddings;
    });
    final_document_status = some DocumentStatus.needs_review;
  })

-- No worker takes the other types of job: the queue's type is the job's.
unfoldable pub execute_stage : Providers → Store → Claimed → Attempt StageOutput
execute_stage p s h = elim h.job.job_type [
  | JobType.file_validation ↦ validate_file h
  | JobType.virus_scan ↦ raised (
      retryable "SCANNER_UNAVAILABLE"
        "O serviço de verificação antivírus está temporariamente indisponível.")
  | JobType.ocr ↦ read_text p h
  | JobType.document_classification ↦ classify_document p s h
  | JobType.entity_extraction ↦ find_entities p h
  | JobType.timeline_generation ↦ generate_timeline p h
  | JobType.checklist_analysis ↦ analyze_checklist p s h
  | JobType.embedding ↦ embed_text p h
  | _ ↦ raised internal
]
