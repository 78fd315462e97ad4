-- ===== src/Auth/Refused.antt =====
-- What ends a session for the guard: a replayed token, a logout and a password reset
-- (apps/api/src/auth).
use lex_os.Prelude.{
  ℕ, ◌≡◌, refl, Bool, true, false, ◌&&◌, none, some, List, String, ok, err, arith, inl, inr,
  Bool-cases, Option-cases, find_first, count_where, update_where, found_counts_too,
  count_where-update_where_none,
}
use lex_os.Auth.Rows.{Organization, User, RefreshSession}
use lex_os.Auth.State.{
  State, ◌>>=◌, ◌>>◌, continue, return, throw, query, modify, in_transaction, record_event,
  is_absent, organization_of, user_of,
}
use lex_os.Auth.Sessions.{
  Request, ActorContext, has_id, in_family, is_open_in, revoked, revoke_token_family, is_replayed,
  deny_replay, refresh_found, select_session, refresh_selected, issued_or_invalid, is_too_long,
  refresh, find_refresh_session_by_hash, find_session_for_logout, revoke_for_logout, logout,
}
use lex_os.Auth.Guard.{AccessTokenPayload, is_accepted, actor_of, find_actor_session, authenticated}

-- A revoked session opens no route.
pub refused_of_revoked :
    (p : AccessTokenPayload) (now : ℕ) (s : State) (r : RefreshSession)
    → find_first (has_id p.sid) s.sessions ≡ some r
    → is_absent r.revoked_at ≡ false
    → authenticated now (some p) s ≡ none
unfolding authenticated find_actor_session select_session actor_of is_accepted
refused_of_revoked p now s r found closed =
    elim (Option-cases (user_of r.organization_id r.user_id s)) [
      | inl missing ↦ rw (found, select_session, missing) refl
      | inr (u, is_u) ↦ elim (Option-cases (organization_of r.organization_id s)) [
        | inl missing ↦ rw (found, select_session, is_u, missing) refl
        | inr (o, is_o) ↦ rw (found, select_session, is_u, is_o, closed) (ground arith)
      ]
    ]

-- Where no row of a kind is open, a row of it that is found is closed.
pub closed_of_none_open :
    (kind : RefreshSession → Bool) (sid : String) (xs : List RefreshSession) (r : RefreshSession)
    → count_where (λ x. kind x && is_absent x.revoked_at) xs ≡ 0
    → find_first (has_id sid) xs ≡ some r
    → kind r ≡ true
    → is_absent r.revoked_at ≡ false
closed_of_none_open kind sid xs r none_open found is_kind =
    elim (Bool-cases (is_absent r.revoked_at)) [
      | inr closed ↦ closed
      | inl still ↦
          let both : (kind r && is_absent r.revoked_at) ≡ true = rw (is_kind, still) refl in
          absurd (
            omega (
              arith,
              found_counts_too (has_id sid) (λ x. kind x && is_absent x.revoked_at) xs r both found,
            ))
    ]

-- Of a family that was revoked nothing is open.
none_open_in :
    (family : String) (at : ℕ) (reason : String) (xs : List RefreshSession)
    → count_where
        (λ x. in_family family x && is_absent x.revoked_at)
        (update_where (is_open_in family) (revoked at reason) xs)
      ≡ 0
unfolding is_open_in in_family
none_open_in family at reason xs =
    count_where-update_where_none _ (is_open_in family) (revoked at reason) xs (λ x. ground arith)
      (λ x h. h)

refresh_replayed_state :
    (q : Request) (token : String) (s : State) (r : RefreshSession) (u : User) (o : Organization)
    → is_too_long token ≡ false
    → find_refresh_session_by_hash (q.hash_opaque_token token) s ≡ some r
    → user_of r.organization_id r.user_id s ≡ some u
    → organization_of r.organization_id s ≡ some o
    → is_replayed r ≡ true
    → ((refresh q (some token) s).0 ≡ err "INVALID_SESSION")
      × ((refresh q (some token) s).1.sessions
          ≡ update_where
              (is_open_in r.token_family_id)
              (revoked q.now "REPLAY_DETECTED")
              s.sessions)
unfolding refresh in_transaction query modify return throw ◌>>=◌ ◌>>◌ continue select_session
    refresh_selected refresh_found deny_replay revoke_token_family record_event issued_or_invalid
refresh_replayed_state q token s r u o short found is_u is_o replayed =
    rw (short, found, select_session, is_u, is_o, replayed) (refl, refl)

-- A token that was rotated or revoked before is refused when it is presented again, and from then
-- on the guard refuses every access token whose session is of its family. The token is not too
-- long, and its row has its person and its organization.
pub refresh-replayed :
    (q : Request) (token : String) (s : State) (r : RefreshSession) (u : User) (o : Organization)
    (p : AccessTokenPayload) (now : ℕ) (x : RefreshSession)
    → is_too_long token ≡ false
    → find_refresh_session_by_hash (q.hash_opaque_token token) s ≡ some r
    → user_of r.organization_id r.user_id s ≡ some u
    → organization_of r.organization_id s ≡ some o
    → is_replayed r ≡ true
    → find_first (has_id p.sid) (refresh q (some token) s).1.sessions ≡ some x
    → in_family r.token_family_id x ≡ true
    → ((refresh q (some token) s).0 ≡ err "INVALID_SESSION")
      × (authenticated now (some p) (refresh q (some token) s).1 ≡ none)
refresh-replayed q token s r u o p now x short found is_u is_o replayed there own =
    let (answer, after) = refresh_replayed_state q token s r u o short found is_u is_o replayed in
    (
      answer,
      refused_of_revoked p now (refresh q (some token) s).1 x there (
          closed_of_none_open (in_family r.token_family_id) p.sid _ x
            (rw after (none_open_in r.token_family_id q.now "REPLAY_DETECTED" s.sessions)) there
            own),
    )

logout_state :
    (q : Request) (a : ActorContext) (s : State) (r : RefreshSession)
    → find_session_for_logout a s ≡ some r
    → ((logout q a s).0 ≡ ok tt)
      × ((logout q a s).1.sessions
          ≡ update_where (is_open_in r.token_family_id) (revoked q.now "LOGOUT") s.sessions)
unfolding logout in_transaction query modify ◌>>=◌ ◌>>◌ continue revoke_for_logout
    revoke_token_family record_event
logout_state q a s r found = rw (found, revoke_for_logout) (refl, refl)

-- A logout of a session that there is succeeds, and from then on the guard refuses every access
-- token whose session is of the family of that session.
pub logout-refused :
    (q : Request) (a : ActorContext) (s : State) (r : RefreshSession) (p : AccessTokenPayload)
    (now : ℕ) (x : RefreshSession)
    → find_session_for_logout a s ≡ some r
    → find_first (has_id p.sid) (logout q a s).1.sessions ≡ some x
    → in_family r.token_family_id x ≡ true
    → ((logout q a s).0 ≡ ok tt) × (authenticated now (some p) (logout q a s).1 ≡ none)
logout-refused q a s r p now x found there own =
    let (answer, after) = logout_state q a s r found in
    (
      answer,
      refused_of_revoked p now (logout q a s).1 x there (
          closed_of_none_open (in_family r.token_family_id) p.sid _ x
            (rw after (none_open_in r.token_family_id q.now "LOGOUT" s.sessions)) there own),
    )
