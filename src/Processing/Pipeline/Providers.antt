-- ===== src/Processing/Pipeline/Providers.antt =====
-- What the stages of the pipeline call: the interfaces of the providers that are injected
-- (apps/worker/src/processing/mock-processing.provider.ts, review-processing.provider.ts,
-- text-extraction.service.ts and packages/shared/src/knowledge.ts), and the errors of
-- processing-error.ts.
use Prim.Native.Char.{code}
use lex_os.Prelude.{
  ℕ, ◌+◌, ◌-◌, ◌/◌, ◌%◌, Bool, true, false, ◌&&◌, Option, List, [], ◌∷◌, String, Result, ok, err,
  ltb, ◌==◌, if◌then◌else◌, length, take,
}
use lex_os.Processing.Cost.{codes}
use lex_os.Processing.Rows.{FileRow}
use lex_os.Processing.Rows.Review.{TemplateItem, Component}
use lex_os.Processing.Completion.{EntityInput, EventInput, ItemResult}
use lex_os.Shared.Knowledge.{is_space}

-- An error with its code and its safe message; any other error has neither.
pub data ProcessingError : Type 0 where
  retryable : String → String → ProcessingError
  permanent : String → String → ProcessingError
  internal : ProcessingError

pub data Attempt (A : Type 0) : Type 0 where
  done : A → Attempt A
  raised : ProcessingError → Attempt A

infixl 5 ◌>>=◌ ◌>>◌
unfoldable pub ◌>>=◌ : {A B : Type 0} → Attempt A → (A → Attempt B) → Attempt B
done a >>= k = k a
raised e >>= k = raised e

unfoldable pub ◌>>◌ : {B : Type 0} → Attempt (Unit {0}) → Attempt B → Attempt B
m >> k = m >>= λ _. k

abbrev pub raise_if : Bool → ProcessingError → Attempt (Unit {0})
raise_if true e = raised e
raise_if false e = done tt

-- A text as its UTF-16 code units.
abbrev utf16 : List ℕ → List ℕ
utf16 [] = []
utf16 (c ∷ cs) =
    if ltb c 65536
    then c ∷ utf16 cs
    else (55296 + (c - 65536) / 1024) ∷ (56320 + (c - 65536) % 1024) ∷ utf16 cs

unfoldable pub units_of : String → List ℕ
units_of s = utf16 (codes s)

pub record SourceText : Type 0 where
  pub content : List ℕ
  pub total_length : ℕ
  pub truncated : Bool

abbrev pub source_text_limit : ℕ
source_text_limit = 20000

unfoldable pub source_text_from : String → SourceText
unfolding units_of
source_text_from raw_text = record {
  content = take source_text_limit (units_of raw_text);
  total_length = length (units_of raw_text);
  truncated = ltb source_text_limit (length (units_of raw_text));
}

pub data PromptTask : Type 0 where
  classification entities timeline checklist : PromptTask

pub record Prompt : Type 0 where
  pub version : String
  pub instructions : String

pub record ObjectRead : Type 0 where
  pub body : List ℕ
  pub truncated : Bool

pub record MockTextResult : Type 0 where
  pub provider : String
  pub model_name : String
  pub raw_text : String
  pub confidence : ℕ

pub record Classified : Type 0 where
  pub provider : String
  pub model_name : String
  pub code : String
  pub confidence : ℕ
  pub composite : Bool

pub record Entities : Type 0 where
  pub provider : String
  pub model_name : String
  pub entities : List EntityInput

pub record Chronology : Type 0 where
  pub provider : String
  pub model_name : String
  pub schema_version : ℕ
  pub prompt_version : String
  pub outcome : String
  pub events : List EventInput

pub record Analysis : Type 0 where
  pub provider : String
  pub model_name : String
  pub schema_version : ℕ
  pub prompt_version : String
  pub items : List ItemResult

-- The providers, the storage, the library of prompts and the clock. `text_of` is how a code unit
-- sequence is stored, `decode` the platform's decoding of UTF-8.
pub record Providers : Type 0 where
  pub prompt_for : PromptTask → String → Attempt Prompt
  pub read_object : String → String → ℕ → Attempt ObjectRead
  pub decode : List ℕ → String
  pub extract_text : String → Attempt MockTextResult
  pub classify : List String → SourceText → Prompt → Attempt Classified
  pub extract_entities : SourceText → Prompt → Attempt Entities
  pub generate : ℕ → SourceText → Prompt → Attempt Chronology
  pub analyze :
      Option String → Option SourceText → String → List TemplateItem → Prompt → Attempt Analysis
  pub embedding_provider : String
  pub embedding_model : String
  pub embedding_version : String
  pub embedding_dimensions : ℕ
  pub embed : List (List ℕ) → Attempt (List (List Component))
  pub hash : List ℕ → String
  pub text_of : List ℕ → String
  pub today : String

pub record ExtractedText : Type 0 where
  pub provider : String
  pub model_name : String
  pub raw_text : String
  pub confidence : ℕ
  pub truncated : Bool

abbrev max_extracted_bytes : ℕ
max_extracted_bytes = 262144

abbrev pub starts_with : List ℕ → List ℕ → Bool
starts_with [] cs = true
starts_with (p ∷ ps) [] = false
starts_with (p ∷ ps) (c ∷ cs) = p == c && starts_with ps cs

unfoldable pub trim_start : String → String
trim_start String.[] = ""
trim_start (String.◌∷◌ c s) =
    let rest = trim_start s in if is_space (code c) then rest else String.◌∷◌ c s

abbrev pub is_empty : String → Bool
is_empty String.[] = true
is_empty (String.◌∷◌ c s) = false

unfoldable pub trim_end : String → String
trim_end String.[] = ""
trim_end (String.◌∷◌ c s) =
    let rest = trim_end s in if is_space (code c) && is_empty rest then "" else String.◌∷◌ c rest

-- `TextExtractionService.extract`.
unfoldable pub extract : Providers → FileRow → Attempt ExtractedText
unfolding trim_start trim_end
extract p file =
    if starts_with (codes "text/") (codes file.mime_type)
    then (do
      object ← p.read_object file.storage_bucket file.storage_key max_extracted_bytes
      let text = trim_end (trim_start (p.decode object.body))
      raise_if (is_empty text)
          (permanent "EMPTY_DOCUMENT_TEXT" "O arquivo de texto está vazio e não há o que extrair.")
      done (record {
        provider = "lex-os-text-reader";
        model_name = "utf8-v1";
        raw_text = text;
        confidence = 10000;
        truncated = object.truncated;
      }))
    else (do
      mock ← p.extract_text file.mime_type
      done (record {
        provider = mock.provider;
        model_name = mock.model_name;
        raw_text = mock.raw_text;
        confidence = mock.confidence;
        truncated = false;
      }))

abbrev all_finite : List Component → Bool
all_finite [] = true
all_finite (x ∷ xs) =
    (elim x [ Component.finite s ↦ true | Component.not_finite ↦ false ]) && all_finite xs

abbrev all_vectors : ℕ → List (List Component) → Bool
all_vectors n [] = true
all_vectors n (v ∷ vs) = (length v == n && all_finite v) && all_vectors n vs

-- `assertEmbeddingBatch`.
unfoldable pub assert_embedding_batch : List (List Component) → ℕ → ℕ → Attempt (Unit {0})
assert_embedding_batch embeddings count dimensions =
    if length embeddings == count && all_vectors dimensions embeddings
    then done tt
    else raised internal

-- `promptFor` and the text of a chunk that fails are other errors.
abbrev pub attempted : {A : Type 0} → Result A → Attempt A
attempted (ok a) = done a
attempted (err e) = raised internal
