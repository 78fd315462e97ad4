-- ===== src/Auth/Login.antt =====
-- `login` of apps/api/src/auth/auth.service.ts, and the permissions that the answer shows.
use lex_os.Prelude.{
  ℕ, Bool, true, false, not, ◌&&◌, Option, none, some, List, [], ◌∷◌, String, text_eq, ◌==◌,
  if◌then◌else◌, count_where, update_where,
}
use mathlib.Core.Option
use lex_os.Auth.Rows.{Organization, User, AuditEvent}
use lex_os.Auth.State.{
  State, Act, ◌>>=◌, ◌>>◌, return, throw, query, modify, refuse_if, in_transaction, record_event,
  is_absent, is_active_status, is_active_organization, is_active_identity, organization_of,
}
use lex_os.Auth.Attempts.{login as login_scope, assert_allowed, record_failure, clear}
use lex_os.Auth.Sessions.{Request, NewSession, Issued, refresh_expires_at, create_refresh_session}
use lex_os.Auth.Guard.{permissions_of}
use lex_os.Auth.SecondFactor.{Factor, assert_login_challenge}

pub record LoginRequest : Type 0 where
  pub organization_slug : String
  pub email : String
  pub password : String
  pub second_factor_code : Option String

-- What the login goes by: the second factor and the counters, the request, and the library's check
-- of a password against a hash, with the hash that stands in for an unknown person's.
pub record Entry : Type 0 where
  pub factor : Factor
  pub request : Request
  pub verify_password : String → String → Bool
  pub dummy_password_hash : String

-- A person with the organization of the row.
pub record LoginUser : Type 0 where
  pub user : User
  pub organization : Organization

unfoldable pub has_slug : String → String → State → Bool
has_slug slug organization_id s = elim (organization_of organization_id s) [
  | none ↦ false
  | some o ↦ text_eq o.slug slug
]

unfoldable pub find_by_slug : String → String → State → List User → Option LoginUser
unfolding has_slug
find_by_slug slug email s [] = none
find_by_slug slug email s (u ∷ us) =
    let rest = find_by_slug slug email s us in
    if text_eq u.email email && has_slug slug u.organization_id s
    then Option.map (λ o. record { user = u; organization = o })
        (organization_of u.organization_id s)
    else rest

unfoldable pub find_login_user_by_slug : String → String → State → Option LoginUser
unfolding find_by_slug
find_login_user_by_slug slug email s = find_by_slug slug email s s.users

-- `user?.passwordHash ?? dummy`.
unfoldable pub hash_of : Entry → Option LoginUser → String
hash_of e none = e.dummy_password_hash
hash_of e (some x) = x.user.password_hash

abbrev login_event : User → Option String → String → Bool → Option String → AuditEvent
login_event u session_id action succeeded reason = record {
  organization_id = u.organization_id;
  user_id = u.id;
  session_id = session_id;
  action = action;
  succeeded = succeeded;
  reason = reason;
  authenticated_actor = succeeded;
  revoked_sessions = none;
}

-- The audit of a wrong password, of a person that there is.
unfoldable pub note_wrong_password : Option LoginUser → Act (Unit {0})
note_wrong_password none = return tt
note_wrong_password (some x) =
    record_event (login_event x.user none "auth.login.failed" false (some "INVALID_CREDENTIALS"))

unfoldable pub fail_attempt : Entry → LoginRequest → String → Act (Unit {0})
fail_attempt e i client_ip =
    record_failure e.factor.attempts i.organization_slug i.email client_ip login_scope

unfoldable pub refuse_wrong : Entry → LoginRequest → String → Option LoginUser → Act Issued
unfolding note_wrong_password fail_attempt
refuse_wrong e i client_ip found = do
  fail_attempt e i client_ip
  note_wrong_password found
  throw "INVALID_CREDENTIALS"

unfoldable pub refuse_blocked : Entry → LoginRequest → String → User → Act Issued
unfolding fail_attempt
refuse_blocked e i client_ip u = do
  fail_attempt e i client_ip
  record_event (login_event u none "auth.login.blocked" false (some "BLOCKED_USER"))
  throw "INVALID_CREDENTIALS"

-- The clause of `markSuccessfulLogin`.
unfoldable pub can_log_in : String → String → State → User → Bool
unfolding is_active_status is_active_organization
can_log_in organization_id id s u =
    (text_eq u.id id && text_eq u.organization_id organization_id)
    && ((is_active_status u.status && is_absent u.deleted_at)
        && (elim (organization_of u.organization_id s) [
          | none ↦ false
          | some o ↦ is_active_organization o.status && is_absent o.deleted_at
        ]))

abbrev logged_in : ℕ → User → User
logged_in at u = record u { last_login_at = some at }

unfoldable pub mark_successful_login : String → String → ℕ → Act Bool
unfolding can_log_in
mark_successful_login organization_id id at = do
  count ← query (λ s. count_where (can_log_in organization_id id s) s.users)
  modify (λ s. record s {
    users = update_where (can_log_in organization_id id s) (logged_in at) s.users;
  })
  return (count == 1)

abbrev pub first_session : Request → User → NewSession
first_session q u = record {
  id = q.new_session_id;
  organization_id = u.organization_id;
  user_id = u.id;
  token_family_id = q.new_family_id;
  token_hash = q.hash_opaque_token q.new_token;
  expires_at = refresh_expires_at q;
}

unfoldable pub open_session : Request → User → Act (Unit {0})
unfolding mark_successful_login
open_session q u = in_transaction (do
  updated ← mark_successful_login u.organization_id u.id q.now
  refuse_if (not updated) "INVALID_CREDENTIALS"
  create_refresh_session (first_session q u)
  record_event (login_event u (some q.new_session_id) "auth.login.succeeded" true none))

unfoldable pub enter : Entry → LoginRequest → String → User → Act Issued
unfolding open_session
enter e i client_ip u = do
  assert_login_challenge e.factor u i.second_factor_code client_ip
  clear e.factor.attempts i.organization_slug i.email client_ip login_scope
  open_session e.request u
  return (record {
    session_id = e.request.new_session_id;
    refresh_token = e.request.new_token;
    refresh_expires_at = refresh_expires_at e.request;
    user = u;
  })

unfoldable pub admit : Entry → LoginRequest → String → LoginUser → Act Issued
unfolding enter refuse_blocked
admit e i client_ip x =
    if is_active_identity x.user x.organization
    then enter e i client_ip x.user
    else refuse_blocked e i client_ip x.user

-- The person that the password is right for.
unfoldable pub checked_user : Entry → LoginRequest → Option LoginUser → Option LoginUser
unfolding hash_of
checked_user e i found = if e.verify_password (hash_of e found) i.password then found else none

unfoldable pub decide :
    Entry → LoginRequest → String → Option LoginUser → Option LoginUser → Act Issued
unfolding refuse_wrong admit
decide e i client_ip found none = refuse_wrong e i client_ip found
decide e i client_ip found (some x) = admit e i client_ip x

unfoldable pub log_in : Entry → LoginRequest → String → Act Issued
unfolding decide
log_in e i client_ip = do
  assert_allowed e.factor.attempts i.organization_slug i.email client_ip login_scope
  found ← query (find_login_user_by_slug i.organization_slug i.email)
  decide e i client_ip found (checked_user e i found)

-- `effectivePermissions`, before it is sorted by the platform's collation.
unfoldable pub effective_permissions : User → List String
unfolding permissions_of
effective_permissions u = permissions_of u.organization_id u.roles []
