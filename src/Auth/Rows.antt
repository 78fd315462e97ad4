-- ===== src/Auth/Rows.antt =====
-- The rows of the accounts: packages/database/prisma/schema.prisma, with the columns that
-- apps/api/src/auth reads or writes. A time is a number of milliseconds.
use lex_os.Prelude.{ℕ, Bool, Option, List, String}

pub data OrganizationStatus : Type 0 where
  active suspended inactive : OrganizationStatus

pub data UserStatus : Type 0 where
  invited active blocked inactive : UserStatus

pub record Organization : Type 0 where
  pub id : String
  pub slug : String
  pub trade_name : String
  pub status : OrganizationStatus
  pub require_second_factor : Bool
  pub deleted_at : Option ℕ

-- A role of the person, with the codes of its permissions.
pub record Role : Type 0 where
  pub organization_id : Option String
  pub permissions : List String

pub record User : Type 0 where
  pub id : String
  pub organization_id : String
  pub name : String
  pub email : String
  pub password_hash : String
  pub status : UserStatus
  pub totp_secret : Option (List ℕ)
  pub totp_activated_at : Option ℕ
  pub totp_last_step : Option ℕ
  pub last_login_at : Option ℕ
  pub deleted_at : Option ℕ
  pub roles : List Role

pub record RefreshSession : Type 0 where
  pub id : String
  pub organization_id : String
  pub user_id : String
  pub token_family_id : String
  pub token_hash : String
  pub expires_at : ℕ
  pub rotated_at : Option ℕ
  pub revoked_at : Option ℕ
  pub revocation_reason : Option String

pub record TotpRecoveryCode : Type 0 where
  pub organization_id : String
  pub user_id : String
  pub code_hash : String
  pub used_at : Option ℕ

pub record PasswordResetRequest : Type 0 where
  pub id : String
  pub organization_id : String
  pub user_id : String
  pub token_hash : String
  pub expires_at : ℕ
  pub used_at : Option ℕ

-- An `AuthenticationAuditEvent`, without the identifiers of the request.
pub record AuditEvent : Type 0 where
  pub organization_id : String
  pub user_id : String
  pub session_id : Option String
  pub action : String
  pub succeeded : Bool
  pub reason : Option String
  pub authenticated_actor : Bool
  pub revoked_sessions : Option ℕ

-- A letter of the outbox: whom it is for, and the link that it carries.
pub record Letter : Type 0 where
  pub organization_id : String
  pub user_id : String
  pub template_id : String
  pub recipient : String
  pub link : String
