-- ===== src/Auth/SecondFactor.antt =====
-- The second factor: apps/api/src/auth/second-factor.repository.ts and the login challenge of
-- second-factor.service.ts. `Enrolment` has the rest of the service.
pub mod Enrolment
use lex_os.Prelude.{
  ℕ, Bool, true, false, not, ◌&&◌, ◌||◌, Option, none, some, List, [], ◌∷◌, ◌++◌, String, Result,
  ok, err, text_eq, ltb, ◌==◌, if◌then◌else◌, count_where, update_where, map, length,
}
use lex_os.Processing.Cost.{codes}
use lex_os.Processing.Pipeline.Providers.{trim_start, trim_end, is_empty}
use lex_os.Shared.Digits.{all_digits}
use lex_os.Shared.Totp.Steps.{Hmac, totp_step_at, verify_totp}
use lex_os.Shared.Totp.Stored.{Cipher, decrypt_secret}
use lex_os.Auth.Rows.{User, TotpRecoveryCode, AuditEvent}
use lex_os.Auth.State.{
  State, Act, ◌>>=◌, ◌>>◌, return, throw, query, modify, refuse_if, record_event, is_absent,
}
use lex_os.Auth.Attempts.{Attempts, totp, assert_allowed, record_failure, clear}

-- What the second factor goes by: the counters, the library's HMAC, cipher and capitals, the hash
-- of tokens, and the times at which a code is checked and at which its step is written.
pub record Factor : Type 0 where
  pub attempts : Attempts
  pub hmac : Hmac
  pub cipher : Cipher
  pub to_upper_case : String → String
  pub hash_opaque_token : String → String
  pub checked_at : ℕ
  pub consumed_at : ℕ

unfoldable pub is_user : String → String → User → Bool
is_user organization_id id u = text_eq u.id id && text_eq u.organization_id organization_id

-- An `updateMany` on the people: whether it counted one.
unfoldable pub update_users : (User → Bool) → (User → User) → Act Bool
update_users p f = do
  count ← query (λ s. count_where p s.users)
  modify (λ s. record s { users = update_where p f s.users })
  return (count == 1)

unfoldable pub can_stage : String → String → User → Bool
unfolding is_user
can_stage organization_id id u =
    is_user organization_id id u && (is_absent u.deleted_at && is_absent u.totp_activated_at)

abbrev pub staged : List ℕ → User → User
staged encrypted u = record u { totp_secret = some encrypted; totp_last_step = none }

unfoldable pub stage_secret : String → String → List ℕ → Act Bool
unfolding can_stage update_users
stage_secret organization_id id encrypted =
    update_users (can_stage organization_id id) (staged encrypted)

unfoldable pub can_activate : String → String → User → Bool
unfolding is_user
can_activate organization_id id u =
    is_user organization_id id u && (is_absent u.totp_activated_at && not (is_absent u.totp_secret))

abbrev pub activated : ℕ → ℕ → User → User
activated at step u = record u { totp_activated_at = some at; totp_last_step = some step }

unfoldable pub activate_user : String → String → ℕ → ℕ → Act Bool
unfolding can_activate update_users
activate_user organization_id id at step =
    update_users (can_activate organization_id id) (activated at step)

unfoldable pub is_before : ℕ → Option ℕ → Bool
is_before step none = true
is_before step (some last) = ltb last step

unfoldable pub can_consume : String → String → ℕ → User → Bool
unfolding is_user is_before
can_consume organization_id id step u =
    is_user organization_id id u && is_before step u.totp_last_step

abbrev pub with_step : ℕ → User → User
with_step step u = record u { totp_last_step = some step }

unfoldable pub consume_step : String → String → ℕ → Act Bool
unfolding can_consume update_users
consume_step organization_id id step =
    update_users (can_consume organization_id id step) (with_step step)

abbrev pub switched_off : User → User
switched_off u = record u { totp_secret = none; totp_activated_at = none; totp_last_step = none }

unfoldable pub is_code_of : String → String → TotpRecoveryCode → Bool
is_code_of organization_id user_id c =
    text_eq c.organization_id organization_id && text_eq c.user_id user_id

unfoldable pub without_codes_of : String → String → List TotpRecoveryCode → List TotpRecoveryCode
unfolding is_code_of
without_codes_of organization_id user_id [] = []
without_codes_of organization_id user_id (c ∷ cs) =
    let rest = without_codes_of organization_id user_id cs in
    if is_code_of organization_id user_id c then rest else c ∷ rest

unfoldable pub disable_user : String → String → Act (Unit {0})
unfolding is_user without_codes_of
disable_user organization_id user_id = do
  modify (λ s. record s {
    users = update_where (is_user organization_id user_id) switched_off s.users;
  })
  modify
      (λ s. record s { recovery_codes = without_codes_of organization_id user_id s.recovery_codes })

abbrev pub unused_code : String → String → String → TotpRecoveryCode
unused_code organization_id user_id code_hash = record {
  organization_id = organization_id;
  user_id = user_id;
  code_hash = code_hash;
  used_at = none;
}

unfoldable pub replace_recovery_codes : String → String → List String → Act (Unit {0})
unfolding without_codes_of
replace_recovery_codes organization_id user_id hashes = modify (λ s. record s {
  recovery_codes =
      without_codes_of organization_id user_id s.recovery_codes
      ++ map (unused_code organization_id user_id) hashes;
})

unfoldable pub is_unused_code : String → String → TotpRecoveryCode → Bool
unfolding is_code_of
is_unused_code organization_id user_id c =
    is_code_of organization_id user_id c && is_absent c.used_at

unfoldable pub can_use : String → String → String → TotpRecoveryCode → Bool
unfolding is_unused_code
can_use organization_id user_id code_hash c =
    is_unused_code organization_id user_id c && text_eq c.code_hash code_hash

abbrev pub used : ℕ → TotpRecoveryCode → TotpRecoveryCode
used at c = record c { used_at = some at }

unfoldable pub consume_recovery_code : String → String → String → ℕ → Act Bool
unfolding can_use
consume_recovery_code organization_id user_id code_hash at = do
  count ← query (λ s. count_where (can_use organization_id user_id code_hash) s.recovery_codes)
  modify (λ s. record s {
    recovery_codes =
        update_where (can_use organization_id user_id code_hash) (used at) s.recovery_codes;
  })
  return (count == 1)

unfoldable pub count_unused_recovery_codes : String → String → State → ℕ
count_unused_recovery_codes organization_id user_id s =
    count_where (is_unused_code organization_id user_id) s.recovery_codes

abbrev pub factor_event : String → String → String → Bool → Option String → Bool → AuditEvent
factor_event organization_id user_id action succeeded reason authenticated_actor = record {
  organization_id = organization_id;
  user_id = user_id;
  session_id = none;
  action = action;
  succeeded = succeeded;
  reason = reason;
  authenticated_actor = authenticated_actor;
  revoked_sessions = none;
}

unfoldable pub accept_verified : Factor → User → Result Bool → Act Bool
accept_verified f u (err e) = throw e
accept_verified f u (ok false) = return false
accept_verified f u (ok true) = consume_step u.organization_id u.id (totp_step_at f.consumed_at)

unfoldable pub verify_stored : Factor → List ℕ → String → Result Bool
verify_stored f stored code = elim (decrypt_secret f.cipher stored) [
  | err e ↦ err e
  | ok secret ↦ verify_totp f.hmac secret (codes code) f.checked_at
]

-- `#acceptAppCode`, on the row as the login read it.
unfoldable pub accept_app_code : Factor → User → String → Act Bool
unfolding verify_stored accept_verified
accept_app_code f u code = elim u.totp_secret [
  | none ↦ return false
  | some stored ↦ accept_verified f u (verify_stored f stored code)
]

unfoldable pub note_recovery : User → Bool → Act Bool
note_recovery u false = return false
note_recovery u true = do
  record_event
      (factor_event u.organization_id u.id "auth.second_factor.recovery_used" true none false)
  return true

unfoldable pub accept_recovery_code : Factor → User → String → Act Bool
unfolding note_recovery
accept_recovery_code f u code = do
  consumed ←
      consume_recovery_code u.organization_id u.id
        (f.hash_opaque_token (f.to_upper_case (trim_end (trim_start code)))) f.consumed_at
  note_recovery u consumed

-- `/^\d{6}$/u`.
unfoldable pub is_app_code : String → Bool
is_app_code code = all_digits (codes code) && length (codes code) == 6

unfoldable pub accept_code : Factor → User → String → Act Bool
unfolding is_app_code
accept_code f u code =
    if is_app_code code then accept_app_code f u code else accept_recovery_code f u code

unfoldable pub answer_challenge : Factor → User → String → Bool → Act (Unit {0})
answer_challenge f u client_ip true = clear f.attempts u.organization_id u.email client_ip totp
answer_challenge f u client_ip false = do
  record_failure f.attempts u.organization_id u.email client_ip totp
  record_event (
      factor_event u.organization_id u.id "auth.second_factor.rejected" false
        (some "INVALID_CREDENTIALS") false)
  throw "SECOND_FACTOR_CODE_INVALID"

unfoldable pub challenge : Factor → User → String → String → Act (Unit {0})
unfolding accept_code answer_challenge
challenge f u code client_ip = do
  assert_allowed f.attempts u.organization_id u.email client_ip totp
  accepted ← accept_code f u code
  answer_challenge f u client_ip accepted

-- No code, or an empty one.
unfoldable pub given_code : Option String → Option String
given_code none = none
given_code (some code) = if is_empty code then none else some code

unfoldable pub is_enrolled : User → Bool
is_enrolled u = not (is_absent u.totp_activated_at || is_absent u.totp_secret)

unfoldable pub assert_login_challenge : Factor → User → Option String → String → Act (Unit {0})
unfolding is_enrolled given_code
assert_login_challenge f u code client_ip =
    if not (is_enrolled u) then return tt else elim (given_code code) [
      | none ↦ throw "SECOND_FACTOR_REQUIRED"
      | some c ↦ challenge f u c client_ip
    ]
