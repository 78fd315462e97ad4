-- ===== src/Auth/Fixture.antt =====
-- One person with one exchanged and one open session, for the runs of apps/api/src/auth.
use lex_os.Prelude.{true, false, none, some, [], ◌∷◌, ok}
use lex_os.Processing.Cost.{codes}
use lex_os.Shared.Totp.Stored.{Cipher}
use lex_os.Auth.Rows.{
  Organization, OrganizationStatus, User, UserStatus, RefreshSession, PasswordResetRequest,
}
use lex_os.Auth.State.{State}
use lex_os.Auth.Attempts.{Attempts}
use lex_os.Auth.Sessions.{Request, ActorContext}
use lex_os.Auth.Guard.{AccessTokenPayload}
use lex_os.Auth.SecondFactor.{Factor}

abbrev pub organization : Organization
organization = record {
  id = "o1";
  slug = "banca";
  trade_name = "Banca";
  status = OrganizationStatus.active;
  require_second_factor = false;
  deleted_at = none;
}

-- The stored secret is "1:2:AAAA", the secret AAAA under a cipher that hides nothing.
abbrev pub user : User
user = record {
  id = "u1";
  organization_id = "o1";
  name = "Ana";
  email = "ana@banca";
  password_hash = "hash";
  status = UserStatus.active;
  totp_secret = some (codes "1:2:AAAA");
  totp_activated_at = none;
  totp_last_step = none;
  last_login_at = none;
  deleted_at = none;
  roles = record { organization_id = none; permissions = "case.read" ∷ [] } ∷ [];
}

-- The session of a token that was exchanged, and the one that followed it.
abbrev pub first : RefreshSession
first = record {
  id = "s1";
  organization_id = "o1";
  user_id = "u1";
  token_family_id = "f1";
  token_hash = "t1";
  expires_at = 1000;
  rotated_at = some 10;
  revoked_at = none;
  revocation_reason = none;
}

abbrev pub second : RefreshSession
second = record first { id = "s2"; token_hash = "t2"; rotated_at = none }

abbrev pub reset_request : PasswordResetRequest
reset_request = record {
  id = "r1";
  organization_id = "o1";
  user_id = "u1";
  token_hash = "p1";
  expires_at = 1000;
  used_at = none;
}

abbrev pub state : State
state = record {
  organizations = organization ∷ [];
  users = user ∷ [];
  sessions = first ∷ second ∷ [];
  recovery_codes =
      record { organization_id = "o1"; user_id = "u1"; code_hash = "c1"; used_at = none } ∷ [];
  resets = reset_request ∷ [];
  outbox = [];
  audit = [];
  counters = λ k. none;
}

abbrev pub request : Request
request = record {
  now = 20;
  refresh_token_ttl_seconds = 60;
  hash_opaque_token = λ t. t;
  new_session_id = "s3";
  new_family_id = "f2";
  new_token = "t3";
}

abbrev pub attempts : Attempts
attempts = record {
  limit = 2;
  window_seconds = 60;
  redis_is_up = true;
  fingerprint = λ t. t;
  now = 20;
}

abbrev pub cipher : Cipher
cipher = record {
  seal = λ t. record { iv = codes "1"; tag = codes "2"; payload = t };
  open_sealed = λ x. ok x.payload;
}

abbrev pub factor : Factor
factor = record {
  attempts = attempts;
  hmac = λ k c. [];
  cipher = cipher;
  to_upper_case = λ t. t;
  hash_opaque_token = λ t. t;
  checked_at = 60000;
  consumed_at = 60000;
}

abbrev pub actor : ActorContext
actor = record { user_id = "u1"; organization_id = "o1"; session_id = "s2"; permissions = [] }

abbrev pub payload : AccessTokenPayload
payload = record { sub = "u1"; org = "o1"; sid = "s2"; typ = "access" }
