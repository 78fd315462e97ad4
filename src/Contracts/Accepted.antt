-- ===== src/Contracts/Accepted.antt =====
-- What a message that is accepted carries (packages/contracts/src/index.ts).
use lex_os.Prelude.{
  ℕ, ◌≡◌, refl, Bool, true, Option, none, some, List, String, Result, ok, text_eq, Bool-cases, inl,
  inr, subst,
}
use lex_os.Processing.Cost.{codes}
use lex_os.Contracts.{
  ProcessingJobMessage, FieldValue, Value, text, number, other, object, not_object, field, is_one,
  checked_text, required, matches_uuid, is_safe_identifier, has_expected_keys,
  parse_processing_job_message, create_processing_job_message,
}

required-eq-ok :
    (o : Option String) (e : String) (k : String → Result ProcessingJobMessage)
    (m : ProcessingJobMessage)
    → required o e k ≡ ok m
    → (s : String) × (o ≡ some s) × (k s ≡ ok m)
unfolding required
required-eq-ok none e k m h = absurd (cc)
required-eq-ok (some s) e k m h = (s, refl, h)

checked_text-eq-some :
    (test : List ℕ → Bool) (v : FieldValue) (s : String)
    → checked_text test v ≡ some s
    → test (codes s) ≡ true
checked_text-eq-some test (text t) s h = elim (Bool-cases (test (codes t))) [
  | inl passes ↦
      let same : some t ≡ some s = rw passes at h in
      let t_is_s : t ≡ s = cc same in rw (← t_is_s) passes
  | inr refused ↦ let none_is_some : none ≡ some s = rw refused at h in absurd (cc none_is_some)
]
checked_text-eq-some test (number n) s h = absurd (cc)
checked_text-eq-some test other s h = absurd (cc)

pub record IsAccepted (m : ProcessingJobMessage) : Type 0 where
  pub job : matches_uuid (codes m.processing_job_id) ≡ true
  pub organization : matches_uuid (codes m.organization_id) ≡ true
  pub correlation : is_safe_identifier (codes m.correlation_id) ≡ true

create_processing_job_message-ok :
    (m : ProcessingJobMessage) → IsAccepted m → create_processing_job_message m ≡ ok m
unfolding create_processing_job_message parse_processing_job_message has_expected_keys required
    text_eq
create_processing_job_message-ok m a = rw (a.job, a.organization, a.correlation) refl

fields-IsAccepted :
    (fs : List (String × FieldValue)) (m : ProcessingJobMessage)
    → parse_processing_job_message (object fs) ≡ ok m
    → IsAccepted m
unfolding parse_processing_job_message
fields-IsAccepted fs m h = elim (Bool-cases (has_expected_keys fs)) [
  | inr unexpected ↦ absurd (cc (rw (unexpected, parse_processing_job_message) at h))
  | inl expected ↦ elim (Bool-cases (is_one (field "schemaVersion" fs))) [
    | inr version ↦ absurd (cc (rw (expected, version, parse_processing_job_message) at h))
    | inl version ↦
        let (j, job, h1) =
          required-eq-ok _ _ _ m (rw (expected, version, parse_processing_job_message) at h) in
        let (o, organization, h2) = required-eq-ok _ _ _ m h1 in
        let (c, correlation, h3) = required-eq-ok _ _ _ m h2 in
        let read : ProcessingJobMessage = record {
          processing_job_id = j;
          organization_id = o;
          correlation_id = c;
        } in
        let whole : ok read ≡ ok m = h3 in
        let same : read ≡ m = cc whole in
        let accepted : IsAccepted read = record {
          job = checked_text-eq-some matches_uuid (field "processingJobId" fs) j job;
          organization =
              checked_text-eq-some matches_uuid (field "organizationId" fs) o organization;
          correlation =
              checked_text-eq-some is_safe_identifier (field "correlationId" fs) c correlation;
        } in
        subst IsAccepted same accepted
  ]
]

-- A message that is parsed, of whatever fields, has two UUIDs and a safe correlation, and a message
-- that is created from it again is the same.
pub parse_processing_job_message-created :
    (v : Value) (m : ProcessingJobMessage)
    → parse_processing_job_message v ≡ ok m
    → IsAccepted m × (create_processing_job_message m ≡ ok m)
unfolding parse_processing_job_message
parse_processing_job_message-created (object fs) m h =
    let a = fields-IsAccepted fs m h in (a, create_processing_job_message-ok m a)
parse_processing_job_message-created not_object m h = absurd (cc)
