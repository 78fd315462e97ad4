-- ===== src/Auth/Guard.antt =====
-- The guard of every route that is not public: apps/api/src/auth/access-token.guard.ts and
-- apps/api/src/access-control/permissions.guard.ts. The signature of a token is checked by a library;
-- the payload is what it answers.
use lex_os.Prelude.{
  ℕ, Bool, true, false, not, ◌&&◌, ◌||◌, Option, none, some, List, [], ◌∷◌, String, text_eq, leb,
  if◌then◌else◌, find_first, any_where, length,
}
use lex_os.Processing.Cost.{codes}
use lex_os.Processing.Pipeline.Providers.{starts_with, units_of}
use lex_os.Contracts.{matches_uuid}
use lex_os.Auth.Rows.{Role}
use lex_os.Auth.State.{State, is_absent, is_active_identity}
use lex_os.Auth.Sessions.{ActorContext, Selected, has_id, select_session}

-- The claims of a payload that are texts.
pub record AccessTokenPayload : Type 0 where
  pub sub : String
  pub org : String
  pub sid : String
  pub typ : String

unfoldable pub is_access_token_payload : AccessTokenPayload → Bool
is_access_token_payload p =
    matches_uuid (codes p.sub)
    && (matches_uuid (codes p.org) && (matches_uuid (codes p.sid) && text_eq p.typ "access"))

-- A code of a set is there once.
unfoldable pub add_permission : String → List String → List String
add_permission c cs = if any_where (text_eq c) cs then cs else c ∷ cs

unfoldable pub add_permissions : List String → List String → List String
unfolding add_permission
add_permissions [] cs = cs
add_permissions (p ∷ ps) cs = add_permissions ps (add_permission p cs)

unfoldable pub is_role_of : String → Role → Bool
is_role_of organization_id r = elim r.organization_id [
  | none ↦ true
  | some o ↦ text_eq o organization_id
]

unfoldable pub permissions_of : String → List Role → List String → List String
unfolding is_role_of add_permissions
permissions_of organization_id [] cs = cs
permissions_of organization_id (r ∷ rs) cs =
    permissions_of organization_id rs
      (if is_role_of organization_id r then add_permissions r.permissions cs else cs)

unfoldable pub find_actor_session : String → State → Option Selected
unfolding select_session
find_actor_session id s = select_session s (find_first (has_id id) s.sessions)

-- What the guard asks of the session that it found.
unfoldable pub is_accepted : AccessTokenPayload → ℕ → Selected → Bool
is_accepted p now x =
    (has_id p.sid x.session
      && (text_eq x.session.organization_id p.org && text_eq x.session.user_id p.sub))
    && ((is_absent x.session.revoked_at && not (leb x.session.expires_at now))
        && is_active_identity x.user x.organization)

unfoldable pub actor_of : AccessTokenPayload → ℕ → Option Selected → Option ActorContext
unfolding is_accepted permissions_of
actor_of p now none = none
actor_of p now (some x) =
    if is_accepted p now x
    then some (record {
      user_id = x.session.user_id;
      organization_id = x.session.organization_id;
      session_id = x.session.id;
      permissions = permissions_of x.session.organization_id x.user.roles [];
    })
    else none

-- The header's text and what the library answers of its token.
unfoldable pub payload_of : Option String → Option AccessTokenPayload → Option AccessTokenPayload
payload_of none verified = none
payload_of (some authorization) verified =
    if not (starts_with (codes "Bearer ") (codes authorization))
      || not (leb (length (units_of authorization)) 4103)
    then none
    else elim verified [ none ↦ none | some p ↦ if is_access_token_payload p then some p else none ]

unfoldable pub authenticated : ℕ → Option AccessTokenPayload → State → Option ActorContext
unfolding actor_of find_actor_session
authenticated now none s = none
authenticated now (some p) s = actor_of p now (find_actor_session p.sid s)

-- `canActivate` of the guard: the actor, or none on a public route.
unfoldable pub activate_access :
    ℕ → Bool → Option String → Option AccessTokenPayload → State → Option (Option ActorContext)
unfolding authenticated payload_of
activate_access now is_public authorization verified s =
    if is_public
    then some none
    else elim (authenticated now (payload_of authorization verified) s) [
      | none ↦ none
      | some a ↦ some (some a)
    ]

unfoldable pub has_all : List String → List String → Bool
has_all [] permissions = true
has_all (r ∷ rs) permissions = any_where (text_eq r) permissions && has_all rs permissions

-- `canActivate` of `PermissionsGuard`, on the required permissions of a route.
unfoldable pub has_permissions : List String → Option ActorContext → Bool
unfolding has_all
has_permissions [] actor = true
has_permissions (r ∷ rs) none = false
has_permissions (r ∷ rs) (some a) = has_all (r ∷ rs) a.permissions
