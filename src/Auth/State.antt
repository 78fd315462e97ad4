-- ===== src/Auth/State.antt =====
-- The database and the counters of attempts as one value, and what a request does with it.
-- An operation that throws keeps what it has written before, but for a transaction
-- (`withTransaction` of packages/database/src/client.ts), which goes back.
use lex_os.Prelude.{
  ℕ, Bool, true, false, ◌&&◌, Option, none, some, List, [], ◌∷◌, ◌++◌, String, Result, ok, err,
  text_eq, find_first,
}
use lex_os.Auth.Rows.{
  Organization, OrganizationStatus, User, UserStatus, RefreshSession, TotpRecoveryCode,
  PasswordResetRequest, AuditEvent, Letter,
}

-- A counter of Redis: its count, and when the key expires.
pub record Counter : Type 0 where
  pub count : ℕ
  pub expires_at : ℕ

pub record State : Type 0 where
  pub organizations : List Organization
  pub users : List User
  pub sessions : List RefreshSession
  pub recovery_codes : List TotpRecoveryCode
  pub resets : List PasswordResetRequest
  pub outbox : List Letter
  pub audit : List AuditEvent
  pub counters : String → Option Counter

-- An error is the code of the `ApiException`.
abbrev pub Act : Type 0 → Type 0
Act A = State → Result A × State

unfoldable pub continue : {A B : Type 0} → (A → Act B) → Result A × State → Result B × State
continue k (ok a, s) = k a s
continue k (err e, s) = (err e, s)

infixl 5 ◌>>=◌ ◌>>◌
unfoldable pub ◌>>=◌ : {A B : Type 0} → Act A → (A → Act B) → Act B
unfolding continue
◌>>=◌ m k s = continue k (m s)

unfoldable pub ◌>>◌ : {B : Type 0} → Act (Unit {0}) → Act B → Act B
unfolding continue
◌>>◌ m k s = continue (λ _. k) (m s)

unfoldable pub return : {A : Type 0} → A → Act A
return a s = (ok a, s)

unfoldable pub throw : {A : Type 0} → String → Act A
throw e s = (err e, s)

-- A read, which changes nothing.
unfoldable pub query : {A : Type 0} → (State → A) → Act A
query f s = (ok (f s), s)

unfoldable pub modify : (State → State) → Act (Unit {0})
modify f s = (ok tt, f s)

-- `if (test) throw …`.
unfoldable pub refuse_if : Bool → String → Act (Unit {0})
refuse_if true e s = (err e, s)
refuse_if false e s = (ok tt, s)

abbrev pub rolled_back : {A : Type 0} → State → Result A × State → Result A × State
rolled_back s (ok a, s') = (ok a, s')
rolled_back s (err e, s') = (err e, s)

unfoldable pub in_transaction : {A : Type 0} → Act A → Act A
in_transaction m s = rolled_back s (m s)

unfoldable pub record_event : AuditEvent → Act (Unit {0})
unfolding modify
record_event e = modify (λ s. record s { audit = s.audit ++ e ∷ [] })

unfoldable pub is_active_status : UserStatus → Bool
is_active_status UserStatus.active = true
is_active_status _ = false

unfoldable pub is_active_organization : OrganizationStatus → Bool
is_active_organization OrganizationStatus.active = true
is_active_organization _ = false

abbrev pub is_absent {ℓ} : {A : Type ℓ} → Option A → Bool
is_absent none = true
is_absent (some a) = false

-- The person and the organization are active and not deleted.
unfoldable pub is_active_identity : User → Organization → Bool
unfolding is_active_status is_active_organization
is_active_identity u o =
    (is_active_status u.status && is_absent u.deleted_at)
    && (is_active_organization o.status && is_absent o.deleted_at)

-- The relations of a row, by its foreign keys.
unfoldable pub organization_of : String → State → Option Organization
organization_of id s = find_first (λ (o : Organization). text_eq o.id id) s.organizations

unfoldable pub user_of : String → String → State → Option User
user_of organization_id id s =
    find_first (λ (u : User). text_eq u.id id && text_eq u.organization_id organization_id) s.users
