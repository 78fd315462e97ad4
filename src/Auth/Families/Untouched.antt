-- ===== src/Auth/Families/Untouched.antt =====
-- What the counters, the second factor and the audit leave alone: the table of the sessions.
use lex_os.Prelude.{
  ℕ, Bool, true, false, not, Option, none, List, String, Result, ok, err, Bool-cases, Option-cases,
  inl, inr,
}
use lex_os.Auth.Rows.{User, RefreshSession, AuditEvent}
use lex_os.Auth.State.{Counter, State, ◌>>=◌, ◌>>◌, return, query, modify, record_event, continue}
use lex_os.Auth.Attempts.{
  Attempts, AttemptScope, totp, redis_operation, assert_allowed, record_failure, count_failure,
  put_counter, clear,
}
use lex_os.Auth.SecondFactor.{
  Factor, consume_step, update_users, consume_recovery_code, accept_verified, verify_stored,
  accept_app_code, note_recovery, accept_recovery_code, is_app_code, accept_code, answer_challenge,
  challenge, given_code, is_enrolled, assert_login_challenge,
}
use lex_os.Auth.Frame.{
  Keeps, bind-Keeps, then-Keeps, query-Keeps, return-Keeps, throw-Keeps, refuse_if-Keeps,
}

module _ (Q : List RefreshSession → Type 0) where
  abbrev pub Sessions : State → Type 0
  Sessions s = Q s.sessions

  pub event-Keeps : (e : AuditEvent) → Keeps Sessions (record_event e)
  unfolding record_event modify
  event-Keeps e s h = h

  pub assert_allowed-Keeps :
      (a : Attempts) (slug email ip : String) (scope : AttemptScope)
      → Keeps Sessions (assert_allowed a slug email ip scope)
  unfolding assert_allowed redis_operation
  assert_allowed-Keeps a slug email ip scope =
      then-Keeps Sessions _ _ (refuse_if-Keeps Sessions _ _)
        (bind-Keeps Sessions _ _ (query-Keeps Sessions _) (λ n. refuse_if-Keeps Sessions _ _))

  counted :
      (a : Attempts) (k : String) (scope : AttemptScope)
      → Keeps Sessions (modify (count_failure a k scope))
  unfolding count_failure modify put_counter
  counted a k scope s h = h

  put : (k : String) (c : Option Counter) → Keeps Sessions (modify (put_counter k c))
  unfolding modify put_counter
  put k c s h = h

  pub record_failure-Keeps :
      (a : Attempts) (slug email ip : String) (scope : AttemptScope)
      → Keeps Sessions (record_failure a slug email ip scope)
  unfolding record_failure redis_operation
  record_failure-Keeps a slug email ip scope =
      then-Keeps Sessions _ _ (refuse_if-Keeps Sessions _ _) (counted a _ scope)

  pub clear-Keeps :
      (a : Attempts) (slug email ip : String) (scope : AttemptScope)
      → Keeps Sessions (clear a slug email ip scope)
  unfolding clear redis_operation
  clear-Keeps a slug email ip scope =
      then-Keeps Sessions _ _ (refuse_if-Keeps Sessions _ _) (put _ none)

  pub update_users-Keeps : (p : User → Bool) (f : User → User) → Keeps Sessions (update_users p f)
  unfolding update_users query modify return ◌>>=◌ ◌>>◌ continue
  update_users-Keeps p f s h = h

  consume_recovery_code-Keeps :
      (o u c : String) (at : ℕ) → Keeps Sessions (consume_recovery_code o u c at)
  unfolding consume_recovery_code query modify return ◌>>=◌ ◌>>◌ continue
  consume_recovery_code-Keeps o u c at s h = h

  accept_verified-Keeps :
      (f : Factor) (u : User) (r : Result Bool) → Keeps Sessions (accept_verified f u r)
  unfolding accept_verified consume_step
  accept_verified-Keeps f u (err e) = throw-Keeps Sessions Bool e
  accept_verified-Keeps f u (ok false) = return-Keeps Sessions false
  accept_verified-Keeps f u (ok true) = update_users-Keeps _ _

  accept_app_code-Keeps :
      (f : Factor) (u : User) (code : String) → Keeps Sessions (accept_app_code f u code)
  unfolding accept_app_code
  accept_app_code-Keeps f u code s h = elim (Option-cases u.totp_secret) [
    | inl missing ↦ rw (missing, accept_app_code) (return-Keeps Sessions false s h)
    | inr (stored, there) ↦
        rw (there, accept_app_code) (accept_verified-Keeps f u (verify_stored f stored code) s h)
  ]

  note_recovery-Keeps : (u : User) (b : Bool) → Keeps Sessions (note_recovery u b)
  unfolding note_recovery
  note_recovery-Keeps u false = return-Keeps Sessions false
  note_recovery-Keeps u true = then-Keeps Sessions _ _ (event-Keeps _) (return-Keeps Sessions true)

  accept_recovery_code-Keeps :
      (f : Factor) (u : User) (code : String) → Keeps Sessions (accept_recovery_code f u code)
  unfolding accept_recovery_code
  accept_recovery_code-Keeps f u code =
      bind-Keeps Sessions _ _ (consume_recovery_code-Keeps _ _ _ _) (λ b. note_recovery-Keeps u b)

  accept_code-Keeps :
      (f : Factor) (u : User) (code : String) → Keeps Sessions (accept_code f u code)
  unfolding accept_code
  accept_code-Keeps f u code s h = elim (Bool-cases (is_app_code code)) [
    | inl app ↦ rw app (accept_app_code-Keeps f u code s h)
    | inr other ↦ rw other (accept_recovery_code-Keeps f u code s h)
  ]

  answer_challenge-Keeps :
      (f : Factor) (u : User) (ip : String) (b : Bool) → Keeps Sessions (answer_challenge f u ip b)
  unfolding answer_challenge
  answer_challenge-Keeps f u ip true = clear-Keeps f.attempts u.organization_id u.email ip totp
  answer_challenge-Keeps f u ip false =
      then-Keeps Sessions _ _ (record_failure-Keeps f.attempts u.organization_id u.email ip totp)
        (then-Keeps Sessions _ _ (event-Keeps _) (throw-Keeps Sessions (Unit {0}) _))

  challenge-Keeps :
      (f : Factor) (u : User) (code ip : String) → Keeps Sessions (challenge f u code ip)
  unfolding challenge
  challenge-Keeps f u code ip =
      then-Keeps Sessions _ _ (assert_allowed-Keeps f.attempts u.organization_id u.email ip totp) (
        bind-Keeps Sessions _ _ (accept_code-Keeps f u code) (λ b. answer_challenge-Keeps f u ip b))

  pub assert_login_challenge-Keeps :
      (f : Factor) (u : User) (code : Option String) (ip : String)
      → Keeps Sessions (assert_login_challenge f u code ip)
  unfolding assert_login_challenge
  assert_login_challenge-Keeps f u code ip s h = elim (Bool-cases (not (is_enrolled u))) [
    | inl free ↦ rw free (return-Keeps Sessions tt s h)
    | inr enrolled ↦ elim (Option-cases (given_code code)) [
      | inl missing ↦
          rw (enrolled, missing, assert_login_challenge) (throw-Keeps Sessions (Unit {0}) _ s h)
      | inr (c, given) ↦ rw (enrolled, given, assert_login_challenge) (challenge-Keeps f u c ip s h)
    ]
  ]
