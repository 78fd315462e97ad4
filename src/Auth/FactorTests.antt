-- ===== src/Auth/FactorTests.antt =====
-- Runs of the second factor, the counters and the login, and what the theorems say of them
-- (apps/api/src/auth).
use lex_os.Prelude.{
  ◌+◌, ◌≡◌, ◌↔◌, ◌≢◌, ◌≤◌, refl, true, false, some, [], ◌∷◌, ok, arith, text_eq, All, count_where,
}
use lex_os.Processing.Cost.{codes}
use lex_os.Shared.Totp.Stored.{decrypt_secret, split_colon, open_parts}
use lex_os.Shared.Totp.Steps.{
  totp_step_at, code_for_step, truncated, last_of, padded, verify_totp, matches_near,
}
use lex_os.Shared.Base32.{decode_base32, decode_digits, digits_of, clean, to_upper, alphabet}
use lex_os.Shared.Knowledge.{is_space}
use lex_os.Shared.Digits.{digits_only, is_digit}
use lex_os.Auth.Rows.{User}
use lex_os.Auth.State.{
  State, continue, ◌>>=◌, ◌>>◌, return, query, modify, is_active_status, is_active_organization,
  is_active_identity, organization_of, user_of,
}
use lex_os.Auth.Sessions.{ActorContext, Selected, select_session, Issued, has_id}
use lex_os.Auth.Guard.{
  add_permission, add_permissions, is_role_of, permissions_of, is_accepted, actor_of,
  find_actor_session, authenticated, has_permissions,
}
use lex_os.Auth.SecondFactor.{
  is_user, is_before, can_consume, update_users, consume_step, accept_verified, verify_stored,
  accept_app_code, is_code_of, is_unused_code, can_use, consume_recovery_code,
  count_unused_recovery_codes,
}
use lex_os.Auth.Login.{LoginRequest, Entry}
use lex_os.Auth.SingleUse.{accept_app_code-once, consume_recovery_code-once}
use lex_os.Auth.NextStep.{at_time, accept_app_code-replayed}
use lex_os.Auth.AttemptBounds.{at_time as attempt_at}
use lex_os.Auth.Permissions.{Granted, has_permissions-Granted}
use lex_os.Auth.Fixture.{payload, second, cipher, organization, user, state, request, factor}

abbrev enrolled : User
enrolled = record user { totp_activated_at = some 5 }

accepted : (accept_app_code factor user "000000" state).0 ≡ ok true
unfolding accept_app_code verify_stored decrypt_secret split_colon open_parts verify_totp
    digits_only is_digit decode_base32 clean is_space to_upper digits_of alphabet decode_digits
    totp_step_at matches_near code_for_step truncated last_of padded accept_verified consume_step
    can_consume is_user is_before update_users query modify return ◌>>=◌ ◌>>◌ continue text_eq
accepted = refl

same_step : totp_step_at 60000 ≤ totp_step_at 60000
same_step = omega arith

accept_app_code-once_example :
    (accept_app_code factor user "000000" (accept_app_code factor user "000000" state).1).0
    ≢ ok true
accept_app_code-once_example =
    accept_app_code-once factor factor user user "000000" "000000" state refl refl same_step
      accepted

opened : decrypt_secret cipher (codes "1:2:AAAA") ≡ ok (codes "AAAA")
unfolding decrypt_secret split_colon open_parts
opened = refl

decoded : decode_base32 (codes "AAAA") ≡ ok (0 ∷ 0 ∷ [])
unfolding decode_base32 clean is_space to_upper digits_of alphabet decode_digits
decoded = refl

code_of_step : digits_only (codes "000000") ≡ code_for_step factor.hmac (0 ∷ 0 ∷ []) 2
unfolding digits_only is_digit code_for_step truncated last_of padded
code_of_step = refl

step_two : totp_step_at 60000 ≡ 2
unfolding totp_step_at
step_two = refl

step_three : totp_step_at 90000 ≡ 2 + 1
unfolding totp_step_at
step_three = refl

one_person : count_where (is_user "o1" "u1") state.users ≡ 1
unfolding is_user text_eq
one_person = refl

free_step : count_where (can_consume "o1" "u1" 2) state.users ≡ 1
unfolding can_consume is_user is_before text_eq
free_step = refl

accept_app_code-replayed_example :
    ((accept_app_code (at_time factor 60000) user "000000" state).0 ≡ ok true)
    × ((accept_app_code
          (at_time factor 90000)
          user
          "000000"
          (accept_app_code (at_time factor 60000) user "000000" state).1).0
        ≡ ok true)
accept_app_code-replayed_example =
    accept_app_code-replayed factor user (codes "1:2:AAAA") (codes "AAAA") (0 ∷ 0 ∷ []) "000000"
      state 60000 90000 2 refl opened decoded code_of_step (omega arith) step_two step_three
      one_person free_step

recovered : (consume_recovery_code "o1" "u1" "c1" 20 state).0 ≡ ok true
unfolding consume_recovery_code can_use is_unused_code is_code_of query modify return ◌>>=◌ ◌>>◌
    continue text_eq
recovered = refl

consume_recovery_code-once_example :
    (count_unused_recovery_codes "o1" "u1" state
      ≡ count_unused_recovery_codes "o1" "u1" (consume_recovery_code "o1" "u1" "c1" 20 state).1 + 1)
    × ((consume_recovery_code "o1" "u1" "c1" 30 (consume_recovery_code "o1" "u1" "c1" 20 state).1).0
        ≡ ok false)
consume_recovery_code-once_example = consume_recovery_code-once "o1" "u1" "c1" 20 30 state recovered

abbrev entry : Entry
entry = record {
  factor = factor;
  request = request;
  verify_password = λ h t. text_eq t "senha";
  dummy_password_hash = "none";
}

abbrev credentials : LoginRequest
credentials = record {
  organization_slug = "banca";
  email = "ana@banca";
  password = "senha";
  second_factor_code = some "000000";
}

abbrev guarded_state : State
guarded_state = record state { users = enrolled ∷ [] }

abbrev issued : Issued
issued = record {
  session_id = "s3";
  refresh_token = "t3";
  refresh_expires_at = 60020;
  user = enrolled;
}

abbrev reader : ActorContext
reader = record {
  user_id = "u1";
  organization_id = "o1";
  session_id = "s2";
  permissions = "case.read" ∷ [];
}

abbrev selected : Selected
selected = record { session = second; user = user; organization = organization }

selects : find_actor_session "s2" state ≡ some selected
unfolding find_actor_session select_session has_id user_of organization_of text_eq
selects = refl

let_in : authenticated 30 (some payload) state ≡ some reader
unfolding authenticated actor_of is_accepted find_actor_session select_session has_id user_of
    organization_of is_active_identity is_active_status is_active_organization permissions_of
    is_role_of add_permissions add_permission text_eq
let_in = refl

has_permissions-Granted_example :
    (has_permissions ("case.read" ∷ "case.write" ∷ []) (some reader) ≡ true)
    ↔ All (Granted "o1" user.roles) ("case.read" ∷ "case.write" ∷ [])
has_permissions-Granted_example =
    has_permissions-Granted payload 30 state selected reader ("case.read" ∷ "case.write" ∷ [])
      selects let_in
