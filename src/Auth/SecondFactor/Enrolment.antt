-- ===== src/Auth/SecondFactor/Enrolment.antt =====
-- `status`, `begin`, `activate` and `disable` of apps/api/src/auth/second-factor.service.ts.
use lex_os.Prelude.{
  ℕ, Bool, true, false, not, Option, none, some, List, String, Result, ok, err, if◌then◌else◌, map,
}
use lex_os.Shared.Base32.{encode_base32}
use lex_os.Shared.Totp.Steps.{totp_step_at}
use lex_os.Shared.Totp.Stored.{encrypt_secret}
use lex_os.Auth.Rows.{Organization, User}
use lex_os.Auth.State.{
  State, Act, ◌>>=◌, ◌>>◌, return, throw, query, refuse_if, in_transaction, record_event, is_absent,
  organization_of, user_of,
}
use lex_os.Auth.Attempts.{totp, assert_allowed, record_failure, clear}
use lex_os.Auth.Sessions.{ActorContext}
use lex_os.Auth.SecondFactor.{
  Factor, stage_secret, activate_user, disable_user, replace_recovery_codes,
  count_unused_recovery_codes, factor_event, verify_stored,
}

pub record Enrolment : Type 0 where
  pub user : User
  pub organization : Organization

unfoldable pub find_enrolment : ActorContext → State → Option Enrolment
find_enrolment a s = elim (user_of a.organization_id a.user_id s) [
  | none ↦ none
  | some u ↦ elim (organization_of a.organization_id s) [
    | none ↦ none
    | some o ↦ if is_absent u.deleted_at then some (record { user = u; organization = o }) else none
  ]
]

unfoldable pub enrolment_or_missing : Option Enrolment → Act Enrolment
enrolment_or_missing none = throw "USER_NOT_FOUND"
enrolment_or_missing (some e) = return e

unfoldable pub require : ActorContext → Act Enrolment
unfolding find_enrolment enrolment_or_missing
require a = do found ← query (find_enrolment a); enrolment_or_missing found

pub record SecondFactorStatus : Type 0 where
  pub active : Bool
  pub required_by_organization : Bool
  pub unused_recovery_codes : ℕ

unfoldable pub second_factor_status : ActorContext → Act SecondFactorStatus
second_factor_status a = do
  found ← require a
  unused ← query (count_unused_recovery_codes a.organization_id a.user_id)
  return (record {
    active = not (is_absent found.user.totp_activated_at);
    required_by_organization = found.organization.require_second_factor;
    unused_recovery_codes = if is_absent found.user.totp_activated_at then 0 else unused;
  })

-- The secret of random bytes, in base 32, that a new enrolment gets.
unfoldable pub begin : Factor → ActorContext → List ℕ → Act (List ℕ)
begin f a random_bytes = do
  found ← require a
  refuse_if (not (is_absent found.user.totp_activated_at)) "SECOND_FACTOR_ALREADY_ACTIVE"
  let secret : List ℕ = encode_base32 random_bytes
  staged ← stage_secret a.organization_id a.user_id (encrypt_secret f.cipher secret)
  refuse_if (not staged) "SECOND_FACTOR_ALREADY_ACTIVE"
  record_event
      (factor_event a.organization_id a.user_id "auth.second_factor.enrolled" true none true)
  return secret

-- What follows the check of a code, of the app alone.
unfoldable pub require_code :
    Factor → ActorContext → Enrolment → String → Result Bool → Act (Unit {0})
require_code f a found client_ip (err e) = throw e
require_code f a found client_ip (ok true) = return tt
require_code f a found client_ip (ok false) = do
  record_failure f.attempts a.organization_id found.user.email client_ip totp
  record_event (
      factor_event a.organization_id a.user_id "auth.second_factor.rejected" false
        (some "INVALID_CREDENTIALS") true)
  throw "SECOND_FACTOR_CODE_INVALID"

unfoldable pub check_code :
    Factor → ActorContext → Enrolment → List ℕ → String → String → Act (Unit {0})
unfolding require_code
check_code f a found stored code client_ip = do
  assert_allowed f.attempts a.organization_id found.user.email client_ip totp
  require_code f a found client_ip (verify_stored f stored code)

unfoldable pub apply_activation : Factor → ActorContext → List String → Bool → Act Bool
apply_activation f a recovery_codes false = return false
apply_activation f a recovery_codes true = do
  replace_recovery_codes a.organization_id a.user_id (map f.hash_opaque_token recovery_codes)
  record_event
      (factor_event a.organization_id a.user_id "auth.second_factor.activated" true none true)
  return true

unfoldable pub activate_staged :
    Factor → ActorContext → String → String → List String → Enrolment → List ℕ → Act (List String)
unfolding check_code apply_activation
activate_staged f a code client_ip recovery_codes found stored = do
  check_code f a found stored code client_ip
  activated ← in_transaction (do
    applied ← activate_user a.organization_id a.user_id f.consumed_at (totp_step_at f.consumed_at)
    apply_activation f a recovery_codes applied)
  refuse_if (not activated) "SECOND_FACTOR_ALREADY_ACTIVE"
  clear f.attempts a.organization_id found.user.email client_ip totp
  return recovery_codes

unfoldable pub with_staged :
    Factor
    → ActorContext
    → String
    → String
    → List String
    → Enrolment
    → Option (List ℕ)
    → Act (List String)
unfolding activate_staged
with_staged f a code client_ip recovery_codes found none = throw "SECOND_FACTOR_NOT_STARTED"
with_staged f a code client_ip recovery_codes found (some stored) =
    activate_staged f a code client_ip recovery_codes found stored

-- `activate`, with the recovery codes that are drawn for it.
unfoldable pub activate : Factor → ActorContext → String → String → List String → Act (List String)
unfolding with_staged
activate f a code client_ip recovery_codes = do
  found ← require a
  refuse_if (not (is_absent found.user.totp_activated_at)) "SECOND_FACTOR_ALREADY_ACTIVE"
  with_staged f a code client_ip recovery_codes found found.user.totp_secret

unfoldable pub disable_with :
    Factor → ActorContext → String → String → Enrolment → Option (List ℕ) → Act (Unit {0})
disable_with f a code client_ip found none = throw "SECOND_FACTOR_NOT_ACTIVE"
disable_with f a code client_ip found (some stored) = do
  refuse_if found.organization.require_second_factor "SECOND_FACTOR_REQUIRED_BY_ORGANIZATION"
  check_code f a found stored code client_ip
  in_transaction (do
    disable_user a.organization_id a.user_id
    record_event
        (factor_event a.organization_id a.user_id "auth.second_factor.disabled" true none true))

unfoldable pub disable : Factor → ActorContext → String → String → Act (Unit {0})
unfolding disable_with
disable f a code client_ip = do
  found ← require a
  refuse_if (is_absent found.user.totp_activated_at) "SECOND_FACTOR_NOT_ACTIVE"
  disable_with f a code client_ip found found.user.totp_secret
