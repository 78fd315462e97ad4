-- ===== src/Auth/PasswordReset.antt =====
-- A forgotten password: apps/api/src/auth/password-reset.service.ts and
-- password-reset.repository.ts.
use lex_os.Prelude.{
  ℕ, ◌+◌, Bool, true, false, not, ◌&&◌, Option, none, some, [], ◌∷◌, ◌++◌, String, text_eq, ltb,
  ◌==◌, if◌then◌else◌, find_first, any_where, count_where, update_where,
}
use lex_os.Auth.Rows.{User, RefreshSession, PasswordResetRequest, Letter}
use lex_os.Auth.State.{
  State, Act, ◌>>=◌, ◌>>◌, return, throw, query, modify, refuse_if, in_transaction, record_event,
  is_absent, is_active_status, is_active_organization, is_active_identity, organization_of, user_of,
}
use lex_os.Auth.Attempts.{Attempts, reset as reset_scope, assert_allowed, record_failure}
use lex_os.Auth.SecondFactor.{is_user}

-- What a request goes by: the counters, the time, the hash of tokens, the new token, the identifier
-- that the table draws, and the address that the link begins with, the token encoded for it.
pub record Reset : Type 0 where
  pub attempts : Attempts
  pub now : ℕ
  pub hash_opaque_token : String → String
  pub hash_password : String → String
  pub new_request_id : String
  pub new_token : String
  pub link_to : String → String

abbrev pub reset_ttl_ms : ℕ
reset_ttl_ms = 3600000

unfoldable pub is_resettable : String → String → State → User → Bool
unfolding is_active_status is_active_organization
is_resettable slug email s u =
    (text_eq u.email email && (is_active_status u.status && is_absent u.deleted_at))
    && (elim (organization_of u.organization_id s) [
      | none ↦ false
      | some o ↦ text_eq o.slug slug && (is_active_organization o.status && is_absent o.deleted_at)
    ])

unfoldable pub find_resettable_user : String → String → State → Option User
unfolding is_resettable
find_resettable_user slug email s = find_first (is_resettable slug email s) s.users

unfoldable pub is_open_request : String → String → PasswordResetRequest → Bool
is_open_request organization_id user_id r =
    (text_eq r.organization_id organization_id && text_eq r.user_id user_id) && is_absent r.used_at

abbrev pub spent : ℕ → PasswordResetRequest → PasswordResetRequest
spent at r = record r { used_at = some at }

unfoldable pub invalidate_open_requests : String → String → ℕ → Act (Unit {0})
unfolding is_open_request
invalidate_open_requests organization_id user_id at = modify (λ s. record s {
  resets = update_where (is_open_request organization_id user_id) (spent at) s.resets;
})

abbrev pub request_row : Reset → User → PasswordResetRequest
request_row q u = record {
  id = q.new_request_id;
  organization_id = u.organization_id;
  user_id = u.id;
  token_hash = q.hash_opaque_token q.new_token;
  expires_at = q.now + reset_ttl_ms;
  used_at = none;
}

-- The identifier and the hash are unique in the table.
unfoldable pub is_same_request : PasswordResetRequest → PasswordResetRequest → Bool
is_same_request n r = if text_eq r.id n.id then true else text_eq r.token_hash n.token_hash

unfoldable pub create_request : PasswordResetRequest → Act (Unit {0})
unfolding is_same_request
create_request n = do
  taken ← query (λ s. any_where (is_same_request n) s.resets)
  refuse_if taken "P2002"
  modify (λ s. record s { resets = s.resets ++ n ∷ [] })

unfoldable pub enqueue_letter : Letter → Act (Unit {0})
enqueue_letter l = modify (λ s. record s { outbox = s.outbox ++ l ∷ [] })

unfoldable pub request_for : Reset → Option User → Act (Unit {0})
unfolding create_request invalidate_open_requests enqueue_letter
request_for q none = return tt
request_for q (some u) = in_transaction (do
  invalidate_open_requests u.organization_id u.id q.now
  create_request (request_row q u)
  enqueue_letter (record {
    organization_id = u.organization_id;
    user_id = u.id;
    template_id = "password-reset";
    recipient = u.email;
    link = q.link_to q.new_token;
  })
  record_event (record {
    organization_id = u.organization_id;
    user_id = u.id;
    session_id = none;
    action = "auth.password.reset.requested";
    succeeded = true;
    reason = none;
    authenticated_actor = false;
    revoked_sessions = none;
  }))

-- `request`: every request counts, also one that finds nobody.
unfoldable pub request_reset : Reset → String → String → String → Act (Unit {0})
unfolding request_for
request_reset q organization_slug email client_ip = do
  assert_allowed q.attempts organization_slug email client_ip reset_scope
  record_failure q.attempts organization_slug email client_ip reset_scope
  found ← query (find_resettable_user organization_slug email)
  request_for q found

unfoldable pub is_valid_request : ℕ → String → State → PasswordResetRequest → Bool
is_valid_request now token_hash s r =
    (text_eq r.token_hash token_hash && (is_absent r.used_at && ltb now r.expires_at))
    && (elim (user_of r.organization_id r.user_id s) [
      | none ↦ false
      | some u ↦ elim (organization_of r.organization_id s) [
        | none ↦ false
        | some o ↦ is_active_identity u o
      ]
    ])

unfoldable pub find_open_by_token_hash : String → ℕ → State → Option PasswordResetRequest
unfolding is_valid_request
find_open_by_token_hash token_hash now s = find_first (is_valid_request now token_hash s) s.resets

unfoldable pub can_spend : String → String → PasswordResetRequest → Bool
can_spend id organization_id r =
    text_eq r.id id && (text_eq r.organization_id organization_id && is_absent r.used_at)

unfoldable pub consume_request : String → String → ℕ → Act Bool
unfolding can_spend
consume_request id organization_id at = do
  count ← query (λ s. count_where (can_spend id organization_id) s.resets)
  modify
      (λ s. record s { resets = update_where (can_spend id organization_id) (spent at) s.resets })
  return (count == 1)

unfoldable pub can_set_password : String → String → User → Bool
unfolding is_user is_active_status
can_set_password organization_id id u = is_user organization_id id u && is_active_status u.status

abbrev pub with_password : String → User → User
with_password password_hash u = record u { password_hash = password_hash }

unfoldable pub set_password : String → String → String → Act (Unit {0})
unfolding can_set_password
set_password organization_id id password_hash = modify (λ s. record s {
  users = update_where (can_set_password organization_id id) (with_password password_hash) s.users;
})

unfoldable pub is_open_session_of : String → String → RefreshSession → Bool
is_open_session_of organization_id user_id r =
    (text_eq r.organization_id organization_id && text_eq r.user_id user_id)
    && is_absent r.revoked_at

abbrev pub dropped : ℕ → RefreshSession → RefreshSession
dropped at r = record r { revoked_at = some at; revocation_reason = some "PASSWORD_RESET" }

unfoldable pub revoke_sessions : String → String → ℕ → Act ℕ
unfolding is_open_session_of
revoke_sessions organization_id user_id at = do
  count ← query (λ s. count_where (is_open_session_of organization_id user_id) s.sessions)
  modify (λ s. record s {
    sessions = update_where (is_open_session_of organization_id user_id) (dropped at) s.sessions;
  })
  return count

unfoldable pub change_password : Reset → String → PasswordResetRequest → Bool → Act Bool
unfolding set_password revoke_sessions
change_password q password r false = return false
change_password q password r true = do
  set_password r.organization_id r.user_id (q.hash_password password)
  count ← revoke_sessions r.organization_id r.user_id q.now
  record_event (record {
    organization_id = r.organization_id;
    user_id = r.user_id;
    session_id = none;
    action = "auth.password.reset.completed";
    succeeded = true;
    reason = none;
    authenticated_actor = false;
    revoked_sessions = some count;
  })
  return true

-- The reset of a request as it was read.
unfoldable pub reset_found : Reset → String → Option PasswordResetRequest → Act (Unit {0})
unfolding change_password consume_request
reset_found q password none = throw "PASSWORD_RESET_INVALID"
reset_found q password (some r) = do
  applied ← in_transaction (do
    consumed ← consume_request r.id r.organization_id q.now
    change_password q password r consumed)
  refuse_if (not applied) "PASSWORD_RESET_INVALID"

-- `reset`.
unfoldable pub reset_password : Reset → String → String → Act (Unit {0})
unfolding reset_found
reset_password q token password = do
  found ← query (find_open_by_token_hash (q.hash_opaque_token token) q.now)
  reset_found q password found
