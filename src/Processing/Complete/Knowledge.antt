-- ===== src/Processing/Complete/Knowledge.antt =====
-- The knowledge-index part of `ProcessingRepository.complete`: the chunks of the current text are
-- stored once each (apps/worker/src/processing/processing.repository.ts).
use Prim.Native.String
use lex_os.Prelude.{
  ℕ, ◌+◌, ◌&&◌, ◌||◌, not, Bool, true, false, Option, none, some, List, [], ◌∷◌, ◌++◌, String,
  Result, ok, err, text_eq, if◌then◌else◌, any_where, ◌==◌, length,
}
use lex_os.Processing.Rows.{Datum, ai}
use lex_os.Processing.Rows.Review.{Component, finite, not_finite, KnowledgeChunk}
use lex_os.Processing.Store.{Tx, ◌>>=◌, ◌>>◌, return, lift, refuse_if, audit}
use lex_os.Processing.Target.{Claimed}
use lex_os.Processing.DeterministicId.{deterministic_job_id, decimal}
use lex_os.Processing.Completion.{ChunkInput, IndexInput, StageCompletion, Runtime}
use lex_os.Processing.Complete.Extraction.{unique_violation}

abbrev is_finite : Component → Bool
is_finite (finite s) = true
is_finite not_finite = false

abbrev printed : Component → String
printed (finite s) = s
printed not_finite = "NaN"

abbrev join_comma : List Component → String
join_comma [] = ""
join_comma (v ∷ []) = printed v
join_comma (v ∷ w ∷ vs) = String.◌++◌ (printed v) (String.◌++◌ "," (join_comma (w ∷ vs)))

unfoldable pub vector_literal : List Component → ℕ → Result String
vector_literal values expected =
    if not (length values == expected)
      || (length values == 0 || any_where (λ v. not (is_finite v)) values)
    then err "Cannot persist an invalid embedding vector."
    else ok (String.◌++◌ "[" (String.◌++◌ (join_comma values) "]"))

-- The unique constraint that `ON CONFLICT` names; the source type is one for all chunks.
unfoldable pub same_chunk : KnowledgeChunk → KnowledgeChunk → Bool
same_chunk new old =
    text_eq old.organization_id new.organization_id
    && (text_eq old.source_id new.source_id
        && (old.chunk_index == new.chunk_index && text_eq old.content_hash new.content_hash))

unfoldable pub insert_chunk : KnowledgeChunk → Tx ℕ
insert_chunk c s =
    if any_where (same_chunk c) s.chunks
    then ok (0, s)
    else if any_where (λ old. text_eq old.id c.id) s.chunks
    then err unique_violation
    else ok (1, record s { chunks = s.chunks ++ c ∷ [] })

unfoldable pub chunk_row :
    Runtime → Claimed → StageCompletion → IndexInput → ChunkInput → String → KnowledgeChunk
chunk_row env h c x k embedding = record {
  id = deterministic_job_id env.sha256 x.source_extraction_id (
      String.◌++◌ "KNOWLEDGE_CHUNK:"
        (String.◌++◌ (decimal k.chunk_index) (String.◌++◌ ":" k.content_hash)));
  organization_id = h.job.organization_id;
  case_id = h.case_id;
  document_id = h.document_id;
  source_id = x.source_extraction_id;
  chunk_index = k.chunk_index;
  content = k.content;
  content_hash = k.content_hash;
  embedding = embedding;
  embedding_provider = c.provider;
  embedding_model = c.model_name;
  embedding_version = x.embedding_version;
  embedding_dimensions = x.embedding_dimensions;
  metadata = record {
    schema_version = 1;
    locator = k.locator;
    source_extraction_id = x.source_extraction_id;
  };
}

unfoldable pub insert_chunks :
    Runtime → Claimed → StageCompletion → IndexInput → List ChunkInput → ℕ → Tx ℕ
insert_chunks env h c x [] count = return count
insert_chunks env h c x (k ∷ ks) count = do
  embedding ← lift (vector_literal k.embedding x.embedding_dimensions)
  inserted ← insert_chunk (chunk_row env h c x k embedding)
  insert_chunks env h c x ks (count + inserted)

abbrev is_current_text : Claimed → IndexInput → Bool
is_current_text h x = elim h.document.extraction [
  | none ↦ false
  | some e ↦ text_eq e.id x.source_extraction_id
]

unfoldable pub index_knowledge :
    Runtime → Claimed → StageCompletion → Option IndexInput → Tx (Option ℕ)
index_knowledge env h c none = return none
index_knowledge env h c (some x) = do
  refuse_if (not (is_current_text h x))
      "Knowledge indexing source does not match the current document text."
  count ← insert_chunks env h c x x.chunks 0
  audit (record {
    organization_id = h.job.organization_id;
    processing_job_id = h.job.id;
    actor_type = ai;
    action = "knowledge.document.indexed";
    entity_type = "document";
    entity_id = h.document_id;
    correlation_id = env.correlation_id;
    new_data =
        ("caseId", Datum.text h.case_id)
        ∷ ("sourceExtractionId", Datum.text x.source_extraction_id)
        ∷ ("chunkCount", Datum.num (length x.chunks))
        ∷ ("insertedChunkCount", Datum.num count)
        ∷ ("provider", Datum.text c.provider)
        ∷ ("modelName", Datum.text c.model_name)
        ∷ ("embeddingVersion", Datum.text x.embedding_version)
        ∷ ("embeddingDimensions", Datum.num x.embedding_dimensions)
        ∷ [];
  })
  return (some count)
