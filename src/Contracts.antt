-- ===== src/Contracts.antt =====
-- The messages of the queues: packages/contracts/src/index.ts.
pub mod Accepted
mod Tests
use lex_os.Prelude.{
  ℕ, zero, suc, Bool, true, false, not, ◌&&◌, ◌||◌, Option, none, some, List, [], ◌∷◌, String,
  Result, ok, err, text_eq, leb, ◌==◌, if◌then◌else◌, length, any_where,
}
use lex_os.Processing.Cost.{codes}
use lex_os.Processing.Status.{JobType}

pub record ProcessingJobMessage : Type 0 where
  pub processing_job_id : String
  pub organization_id : String
  pub correlation_id : String

-- `[0-9a-f]` under the flag `i`.
unfoldable pub is_hex : ℕ → Bool
is_hex c = (leb 48 c && leb c 57) || ((leb 97 c && leb c 102) || (leb 65 c && leb c 70))

unfoldable pub is_variant : ℕ → Bool
is_variant c = (c == 56 || c == 57) || ((c == 97 || c == 98) || (c == 65 || c == 66))

-- A character at the front that passes a test, and the rest.
abbrev pub one_of : (ℕ → Bool) → List ℕ → Option (List ℕ)
one_of test [] = none
one_of test (c ∷ cs) = if test c then some cs else none

abbrev pub many_of : (ℕ → Bool) → ℕ → Option (List ℕ) → Option (List ℕ)
many_of test n none = none
many_of test zero (some cs) = some cs
many_of test (suc n) (some cs) = many_of test n (one_of test cs)

abbrev at_end : Option (List ℕ) → Bool
at_end (some []) = true
at_end _ = false

abbrev pub is_dash : ℕ → Bool
is_dash c = c == 45

abbrev pub is_four : ℕ → Bool
is_four c = c == 52

-- `uuidV4Pattern`.
unfoldable pub matches_uuid : List ℕ → Bool
matches_uuid cs = at_end (
    many_of is_hex 12 (
      many_of is_dash 1 (
        many_of is_hex 3 (
          many_of is_variant 1 (
            many_of is_dash 1 (
              many_of is_hex 3 (
                many_of is_four 1 (
                  many_of is_dash 1
                    (many_of is_hex 4 (many_of is_dash 1 (many_of is_hex 8 (some cs))))))))))))

unfoldable pub is_safe_character : ℕ → Bool
is_safe_character c =
    (leb 97 c && leb c 122)
    || ((leb 65 c && leb c 90)
        || ((leb 48 c && leb c 57) || (c == 46 || (c == 95 || (c == 58 || c == 45)))))

abbrev pub all_safe : List ℕ → Bool
all_safe [] = true
all_safe (c ∷ cs) = is_safe_character c && all_safe cs

-- `safeIdentifierPattern`.
unfoldable pub is_safe_identifier : List ℕ → Bool
is_safe_identifier cs = all_safe cs && (leb 1 (length cs) && leb (length cs) 128)

-- A value that came over a queue: what its type is, and an object's fields, with distinct keys.
pub data FieldValue : Type 0 where
  text : String → FieldValue
  number : ℕ → FieldValue
  other : FieldValue

pub data Value : Type 0 where
  object : List (String × FieldValue) → Value
  not_object : Value

abbrev pub field : String → List (String × FieldValue) → FieldValue
field k [] = FieldValue.other
field k ((j, v) ∷ fs) = if text_eq j k then v else field k fs

abbrev has_key : String → List (String × FieldValue) → Bool
has_key k fs = any_where (λ f. text_eq f.0 k) fs

-- The sorted keys are the expected ones: as many, and each of them.
unfoldable pub has_expected_keys : List (String × FieldValue) → Bool
has_expected_keys fs =
    length fs == 4
    && (has_key "correlationId" fs
        && (has_key "organizationId" fs
            && (has_key "processingJobId" fs && has_key "schemaVersion" fs)))

abbrev pub is_one : FieldValue → Bool
is_one (number n) = n == 1
is_one _ = false

abbrev pub checked_text : (List ℕ → Bool) → FieldValue → Option String
checked_text test (text s) = if test (codes s) then some s else none
checked_text test _ = none

unfoldable pub required :
    Option String → String → (String → Result ProcessingJobMessage) → Result ProcessingJobMessage
required none e k = err e
required (some s) e k = k s

unfoldable pub parse_processing_job_message : Value → Result ProcessingJobMessage
parse_processing_job_message not_object = err "Processing message must be an object."
parse_processing_job_message (object fs) =
    if not (has_expected_keys fs)
    then err "Processing message contains unexpected fields."
    else if not (is_one (field "schemaVersion" fs))
    then err "Unsupported processing message schema version."
    else required (checked_text matches_uuid (field "processingJobId" fs))
        "Processing message has an invalid job ID."
        (λ processing_job_id.
          required (checked_text matches_uuid (field "organizationId" fs))
            "Processing message has an invalid organization ID."
            (λ organization_id.
              required (checked_text is_safe_identifier (field "correlationId" fs))
                "Processing message has an invalid correlation ID."
                (λ correlation_id. ok (record {
                  processing_job_id = processing_job_id;
                  organization_id = organization_id;
                  correlation_id = correlation_id;
                }))))

-- The fields of a message, in the order in which it is written.
abbrev pub value_of : ProcessingJobMessage → Value
value_of m = object (
    ("schemaVersion", number 1)
    ∷ ("processingJobId", text m.processing_job_id)
    ∷ ("organizationId", text m.organization_id)
    ∷ ("correlationId", text m.correlation_id)
    ∷ [])

unfoldable pub create_processing_job_message : ProcessingJobMessage → Result ProcessingJobMessage
unfolding parse_processing_job_message
create_processing_job_message input = parse_processing_job_message (value_of input)

-- `isProcessingJobType`.
unfoldable pub is_processing_job_type : JobType → Bool
is_processing_job_type JobType.checklist_analysis = true
is_processing_job_type JobType.document_classification = true
is_processing_job_type JobType.embedding = true
is_processing_job_type JobType.entity_extraction = true
is_processing_job_type JobType.file_validation = true
is_processing_job_type JobType.ocr = true
is_processing_job_type JobType.timeline_generation = true
is_processing_job_type JobType.virus_scan = true
is_processing_job_type _ = false
