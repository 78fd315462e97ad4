-- ===== src/Contracts/Tests.antt =====
-- The message of a job, and what the theorem says of it.
use lex_os.Prelude.{◌≡◌, refl, ok, text_eq}
use lex_os.Processing.Cost.{codes}
use lex_os.Contracts.{
  ProcessingJobMessage, value_of, parse_processing_job_message, create_processing_job_message,
  required, has_expected_keys, matches_uuid, is_hex, is_variant, is_safe_identifier,
  is_safe_character,
}
use lex_os.Contracts.Accepted.{IsAccepted, parse_processing_job_message-created}

abbrev message : ProcessingJobMessage
message = record {
  processing_job_id = "0b0e8f5a-1c2d-4e3f-8a9b-0123456789ab";
  organization_id = "11111111-2222-4333-A444-555555555555";
  correlation_id = "req:42";
}

message_is_read : parse_processing_job_message (value_of message) ≡ ok message
unfolding parse_processing_job_message required has_expected_keys matches_uuid is_hex is_variant
    is_safe_identifier is_safe_character text_eq codes
message_is_read = refl

parse_processing_job_message-created_example :
    IsAccepted message × (create_processing_job_message message ≡ ok message)
parse_processing_job_message-created_example =
    parse_processing_job_message-created (value_of message) message message_is_read
