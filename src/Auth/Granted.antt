-- ===== src/Auth/Granted.antt =====
-- What a login that is granted has checked (`login` of apps/api/src/auth/auth.service.ts).
use lex_os.Prelude.{◌+◌, ◌*◌, ◌≡◌, none, [], ◌∷◌, ◌++◌}
use lex_os.Auth.Rows.{User}
use lex_os.Auth.State.{State}
use lex_os.Auth.Attempts.{login as login_scope}
use lex_os.Auth.Sessions.{Request, Issued}
use lex_os.Auth.Families.Untouched.{Sessions}

-- What a login that is granted answers and adds: a session of the person, and no other change of
-- the sessions.
pub record Opens (q : Request) (u : User) (s : State) (issued : Issued) (s' : State) : Type 0 where
  pub of_person : issued.user ≡ u
  pub session_id : issued.session_id ≡ q.new_session_id
  pub token : issued.refresh_token ≡ q.new_token
  pub sessions :
      s'.sessions
      ≡ s.sessions
        ++ record {
          id = q.new_session_id;
          organization_id = u.organization_id;
          user_id = u.id;
          token_family_id = q.new_family_id;
          token_hash = q.hash_opaque_token q.new_token;
          expires_at = q.now + q.refresh_token_ttl_seconds * 1000;
          rotated_at = none;
          revoked_at = none;
          revocation_reason = none;
        }
          ∷ []
