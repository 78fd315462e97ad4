-- ===== src/Auth/Sessions.antt =====
-- The refresh sessions: the queries and updates of apps/api/src/auth/auth.repository.ts, and
-- `refresh` and `logout` of auth.service.ts.
use lex_os.Prelude.{
  ℕ, ◌+◌, ◌*◌, Bool, true, false, not, ◌&&◌, ◌||◌, Option, none, some, List, [], ◌∷◌, ◌++◌, String,
  text_eq, ltb, leb, ◌==◌, if◌then◌else◌, find_first, any_where, count_where, update_where, length,
}
use lex_os.Processing.Pipeline.Providers.{units_of}
use lex_os.Auth.Rows.{Organization, User, RefreshSession, AuditEvent}
use lex_os.Auth.State.{
  State, Act, ◌>>=◌, ◌>>◌, return, throw, query, modify, refuse_if, in_transaction, record_event,
  is_absent, is_active_identity, organization_of, user_of,
}

-- What a session is made of when it starts.
pub record NewSession : Type 0 where
  pub id : String
  pub organization_id : String
  pub user_id : String
  pub token_family_id : String
  pub token_hash : String
  pub expires_at : ℕ

abbrev pub session_row : NewSession → RefreshSession
session_row n = record {
  id = n.id;
  organization_id = n.organization_id;
  user_id = n.user_id;
  token_family_id = n.token_family_id;
  token_hash = n.token_hash;
  expires_at = n.expires_at;
  rotated_at = none;
  revoked_at = none;
  revocation_reason = none;
}

unfoldable pub has_id : String → RefreshSession → Bool
has_id id r = text_eq r.id id

unfoldable pub in_family : String → RefreshSession → Bool
in_family family r = text_eq r.token_family_id family

-- The identifier and the hash are unique in the table.
unfoldable pub clashes_with : NewSession → RefreshSession → Bool
unfolding has_id
clashes_with n r = has_id n.id r || text_eq r.token_hash n.token_hash

unfoldable pub create_refresh_session : NewSession → Act (Unit {0})
unfolding clashes_with
create_refresh_session n = do
  taken ← query (λ s. any_where (clashes_with n) s.sessions)
  refuse_if taken "P2002"
  modify (λ s. record s { sessions = s.sessions ++ session_row n ∷ [] })

unfoldable pub find_refresh_session_by_hash : String → State → Option RefreshSession
find_refresh_session_by_hash token_hash s =
    find_first (λ (r : RefreshSession). text_eq r.token_hash token_hash) s.sessions

-- The clause of `markRefreshSessionRotated`.
unfoldable pub can_rotate : String → ℕ → RefreshSession → Bool
unfolding has_id
can_rotate id at r =
    has_id id r && (is_absent r.rotated_at && (is_absent r.revoked_at && ltb at r.expires_at))

abbrev pub rotated : ℕ → RefreshSession → RefreshSession
rotated at r = record r { rotated_at = some at }

unfoldable pub mark_refresh_session_rotated : String → ℕ → Act Bool
mark_refresh_session_rotated id at = do
  count ← query (λ s. count_where (can_rotate id at) s.sessions)
  modify (λ s. record s { sessions = update_where (can_rotate id at) (rotated at) s.sessions })
  return (count == 1)

unfoldable pub is_open_in : String → RefreshSession → Bool
unfolding in_family
is_open_in family r = in_family family r && is_absent r.revoked_at

abbrev pub revoked : ℕ → String → RefreshSession → RefreshSession
revoked at reason r = record r { revoked_at = some at; revocation_reason = some reason }

unfoldable pub revoke_token_family : String → ℕ → String → Act (Unit {0})
revoke_token_family family at reason =
    modify
      (λ s. record s { sessions = update_where (is_open_in family) (revoked at reason) s.sessions })

-- What a request brings: the time, the hash of tokens, new identifiers and a new token.
pub record Request : Type 0 where
  pub now : ℕ
  pub refresh_token_ttl_seconds : ℕ
  pub hash_opaque_token : String → String
  pub new_session_id : String
  pub new_family_id : String
  pub new_token : String

abbrev pub refresh_expires_at : Request → ℕ
refresh_expires_at q = q.now + q.refresh_token_ttl_seconds * 1000

-- What a request is answered: the session, the token and the person (`IssuedAuthentication`).
pub record Issued : Type 0 where
  pub session_id : String
  pub refresh_token : String
  pub refresh_expires_at : ℕ
  pub user : User

abbrev denied : RefreshSession → String → String → AuditEvent
denied r action reason = record {
  organization_id = r.organization_id;
  user_id = r.user_id;
  session_id = some r.id;
  action = action;
  succeeded = false;
  reason = some reason;
  authenticated_actor = false;
  revoked_sessions = none;
}

unfoldable pub is_replayed : RefreshSession → Bool
is_replayed r = not (is_absent r.rotated_at) || not (is_absent r.revoked_at)

-- The family of a token that was presented twice.
unfoldable pub deny_replay : Request → RefreshSession → Act (Option User)
deny_replay q r = do
  revoke_token_family r.token_family_id q.now "REPLAY_DETECTED"
  record_event (denied r "auth.refresh.replayed" "REPLAY_DETECTED")
  return none

unfoldable pub deny_inactive : Request → RefreshSession → Bool → Act (Option User)
deny_inactive q r active_identity = do
  revoke_token_family r.token_family_id q.now
      (if active_identity then "EXPIRED" else "USER_BLOCKED")
  record_event
      (denied r "auth.refresh.revoked" (if active_identity then "EXPIRED" else "BLOCKED_USER"))
  return none

abbrev pub next_session : Request → RefreshSession → NewSession
next_session q r = record {
  id = q.new_session_id;
  organization_id = r.organization_id;
  user_id = r.user_id;
  token_family_id = r.token_family_id;
  token_hash = q.hash_opaque_token q.new_token;
  expires_at = refresh_expires_at q;
}

-- A token that is still good, and the session that follows it; a row that another request has
-- rotated in the meantime is a replay.
unfoldable pub after_rotation : Request → RefreshSession → User → Bool → Act (Option User)
unfolding deny_replay
after_rotation q r u false = deny_replay q r
after_rotation q r u true = do
  create_refresh_session (next_session q r)
  record_event (record {
    organization_id = r.organization_id;
    user_id = r.user_id;
    session_id = some q.new_session_id;
    action = "auth.refresh.succeeded";
    succeeded = true;
    reason = none;
    authenticated_actor = true;
    revoked_sessions = none;
  })
  return (some u)

unfoldable pub rotate_session : Request → RefreshSession → User → Act (Option User)
unfolding after_rotation
rotate_session q r u = do
  rotated ← mark_refresh_session_rotated r.id q.now
  after_rotation q r u rotated

-- The transaction on a session as it was read; its person and its organization are there by the
-- foreign keys of the row.
unfoldable pub refresh_found : Request → RefreshSession → User → Organization → Act (Option User)
unfolding rotate_session deny_inactive deny_replay
refresh_found q r u o =
    if is_replayed r
    then deny_replay q r
    else if not (is_active_identity u o) || leb r.expires_at q.now
    then deny_inactive q r (is_active_identity u o)
    else rotate_session q r u

-- `refreshSessionSelect`.
pub record Selected : Type 0 where
  pub session : RefreshSession
  pub user : User
  pub organization : Organization

unfoldable pub select_session : State → Option RefreshSession → Option Selected
select_session s none = none
select_session s (some r) = elim (user_of r.organization_id r.user_id s) [
  | none ↦ none
  | some u ↦ elim (organization_of r.organization_id s) [
    | none ↦ none
    | some o ↦ some (record { session = r; user = u; organization = o })
  ]
]

unfoldable pub refresh_selected : Request → Option Selected → Act (Option User)
unfolding refresh_found
refresh_selected q none = return none
refresh_selected q (some x) = refresh_found q x.session x.user x.organization

unfoldable pub issued_or_invalid : Request → Option User → Act Issued
issued_or_invalid q none = throw "INVALID_SESSION"
issued_or_invalid q (some u) = return (record {
  session_id = q.new_session_id;
  refresh_token = q.new_token;
  refresh_expires_at = refresh_expires_at q;
  user = u;
})

unfoldable pub is_too_long : String → Bool
is_too_long token = ltb 512 (length (units_of token))

-- `refresh`, the token being that of the cookie.
unfoldable pub refresh : Request → Option String → Act Issued
unfolding refresh_selected issued_or_invalid
refresh q none = throw "INVALID_SESSION"
refresh q (some token) = if is_too_long token then throw "INVALID_SESSION" else (do
  rotation ← in_transaction (do
    found ←
        query (λ s. select_session s (find_refresh_session_by_hash (q.hash_opaque_token token) s))
    refresh_selected q found)
  issued_or_invalid q rotation)

-- Who a request comes from (actor-context.ts).
pub record ActorContext : Type 0 where
  pub user_id : String
  pub organization_id : String
  pub session_id : String
  pub permissions : List String

unfoldable pub find_session_for_logout : ActorContext → State → Option RefreshSession
unfolding has_id
find_session_for_logout a s =
    find_first
      (λ r.
        has_id a.session_id r
        && (text_eq r.organization_id a.organization_id && text_eq r.user_id a.user_id))
      s.sessions

unfoldable pub revoke_for_logout : Request → ActorContext → Option RefreshSession → Act (Unit {0})
revoke_for_logout q a none = throw "INVALID_SESSION"
revoke_for_logout q a (some r) = do
  revoke_token_family r.token_family_id q.now "LOGOUT"
  record_event (record {
    organization_id = a.organization_id;
    user_id = a.user_id;
    session_id = some a.session_id;
    action = "auth.logout.succeeded";
    succeeded = true;
    reason = some "LOGOUT";
    authenticated_actor = true;
    revoked_sessions = none;
  })

unfoldable pub logout : Request → ActorContext → Act (Unit {0})
unfolding revoke_for_logout
logout q a =
    in_transaction (do session ← query (find_session_for_logout a); revoke_for_logout q a session)
