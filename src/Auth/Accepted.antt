-- ===== src/Auth/Accepted.antt =====
-- What the challenge of a login accepts as a second factor (`assertLoginChallenge` of
-- apps/api/src/auth/second-factor.service.ts).
use lex_os.Prelude.{
  ℕ, ◌≡◌, refl, ◌∙◌, ap, ◌⊎◌, inl, inr, Bool, true, false, Option, some, List, String, Result, ok,
  err, ◌==◌, ==_iff, count_where, Bool-cases, Option-cases,
}
use lex_os.Processing.Cost.{codes}
use lex_os.Processing.Pipeline.Providers.{trim_start, trim_end}
use lex_os.Shared.Totp.Steps.{totp_step_at, verify_totp}
use lex_os.Shared.Totp.Stored.{decrypt_secret}
use lex_os.Auth.Rows.{User}
use lex_os.Auth.State.{State, ◌>>=◌, ◌>>◌, continue, return, throw, query, modify}
use lex_os.Auth.Attempts.{Attempts, AttemptScope, totp, redis_operation, assert_allowed}
use lex_os.Auth.SecondFactor.{
  Factor, update_users, can_consume, consume_step, can_use, consume_recovery_code, accept_verified,
  verify_stored, accept_app_code, note_recovery, accept_recovery_code, is_app_code, accept_code,
  answer_challenge, challenge, given_code, is_enrolled, assert_login_challenge,
}
use lex_os.Auth.Frame.{
  continue-eq-ok, bind-Keeps, then-Keeps, query-Keeps, refuse_if-Keeps, then-Fails, throw-Fails,
}

-- A code of the app that the stored secret has at the time of the check, where the step of time has
-- not been used by the person.
pub record IsAppCode (f : Factor) (u : User) (code : String) (s : State) : Type 0 where
  pub six_digits : is_app_code code ≡ true
  pub stored : List ℕ
  pub has_stored : u.totp_secret ≡ some stored
  pub secret : List ℕ
  pub decrypted : decrypt_secret f.cipher stored ≡ ok secret
  pub verified : verify_totp f.hmac secret (codes code) f.checked_at ≡ ok true
  pub unused :
      count_where (can_consume u.organization_id u.id (totp_step_at f.consumed_at)) s.users ≡ 1

-- A recovery code of the person that has not been used.
pub record IsRecoveryCode (f : Factor) (u : User) (code : String) (s : State) : Type 0 where
  pub other_shape : is_app_code code ≡ false
  pub unused :
      count_where
        (can_use u.organization_id u.id
          (f.hash_opaque_token (f.to_upper_case (trim_end (trim_start code)))))
        s.recovery_codes
      ≡ 1

abbrev pub IsRight : Factor → User → String → State → Type 0
IsRight f u code s = IsAppCode f u code s ⊎ IsRecoveryCode f u code s

-- A person with a second factor has given a code that is right.
abbrev pub HasPassed : Factor → User → Option String → State → Type 0
HasPassed f u code s =
    (is_enrolled u ≡ false) ⊎ ((c : String) × (given_code code ≡ some c) × IsRight f u c s)

-- A question to the counters changes nothing.
pub assert_allowed-same :
    (a : Attempts) (slug email ip : String) (scope : AttemptScope) (s : State)
    → (assert_allowed a slug email ip scope s).1 ≡ s
unfolding assert_allowed redis_operation
assert_allowed-same a slug email ip scope s =
    then-Keeps (λ z. z ≡ s) _ _ (refuse_if-Keeps (λ z. z ≡ s) _ _)
      (bind-Keeps (λ z. z ≡ s) _ _ (query-Keeps (λ z. z ≡ s) _)
        (λ n. refuse_if-Keeps (λ z. z ≡ s) _ _))
      s refl

module _ (f : Factor) (u : User) (code : String) (s : State) where
  accept_verified-true :
      (r : Result Bool)
      → (accept_verified f u r s).0 ≡ ok true
      → (r ≡ ok true)
        × (count_where (can_consume u.organization_id u.id (totp_step_at f.consumed_at)) s.users
            ≡ 1)
  unfolding accept_verified consume_step update_users query modify return throw ◌>>=◌ ◌>>◌ continue
  accept_verified-true (err e) h = absurd (cc)
  accept_verified-true (ok false) h = absurd (cc)
  accept_verified-true (ok true) h = (refl, (==_iff _ 1).0 (cc))

  verify_stored-true :
      (stored : List ℕ)
      → verify_stored f stored code ≡ ok true
      → (secret : List ℕ) × (decrypt_secret f.cipher stored ≡ ok secret)
        × (verify_totp f.hmac secret (codes code) f.checked_at ≡ ok true)
  unfolding verify_stored
  verify_stored-true stored h = go (decrypt_secret f.cipher stored) refl
    where
      go :
          (r : Result (List ℕ))
          → decrypt_secret f.cipher stored ≡ r
          → (secret : List ℕ) × (decrypt_secret f.cipher stored ≡ ok secret)
            × (verify_totp f.hmac secret (codes code) f.checked_at ≡ ok true)
      go (ok secret) same = (secret, same, rw (same, verify_stored) at h)
      go (err e) same = absurd (let bad : err e ≡ ok true = rw (same, verify_stored) at h in cc)

  accept_app_code-true :
      is_app_code code ≡ true → (accept_app_code f u code s).0 ≡ ok true → IsAppCode f u code s
  unfolding accept_app_code return
  accept_app_code-true shape h = elim (Option-cases u.totp_secret) [
    | inl missing ↦ absurd (let bad : ok false ≡ ok true = rw (missing, accept_app_code) at h in cc)
    | inr (stored, there) ↦
        let (verified, unused) =
          accept_verified-true (verify_stored f stored code) (rw (there, accept_app_code) at h) in
        let (secret, decrypted, valid) = verify_stored-true stored verified in
        record {
          six_digits = shape;
          stored = stored;
          has_stored = there;
          secret = secret;
          decrypted = decrypted;
          verified = valid;
          unused = unused;
        }
  ]

  accept_recovery_code-true :
      is_app_code code ≡ false
      → (accept_recovery_code f u code s).0 ≡ ok true
      → IsRecoveryCode f u code s
  unfolding accept_recovery_code consume_recovery_code query modify return ◌>>=◌ ◌>>◌ continue
      note_recovery
  accept_recovery_code-true shape h =
      let key = f.hash_opaque_token (f.to_upper_case (trim_end (trim_start code))) in
      let n = count_where (can_use u.organization_id u.id key) s.recovery_codes in
      elim (Bool-cases (n == 1)) [
        | inl one ↦ record { other_shape = shape; unused = (==_iff n 1).0 one }
        | inr other ↦
            absurd (let bad : ok false ≡ ok true = rw (other, accept_recovery_code) at h in cc)
      ]

  accept_code-true : (accept_code f u code s).0 ≡ ok true → IsRight f u code s
  unfolding accept_code
  accept_code-true h = elim (Bool-cases (is_app_code code)) [
    | inl app ↦ inl (accept_app_code-true app (rw app at h))
    | inr other ↦ inr (accept_recovery_code-true other (rw other at h))
  ]

  answered :
      (ip : String) (accepted : Bool) (t : State)
      → (answer_challenge f u ip accepted t).0 ≡ ok tt
      → accepted ≡ true
  unfolding answer_challenge
  answered ip true t h = refl
  answered ip false t h = absurd (then-Fails _ _ (then-Fails _ _ (throw-Fails (Unit {0}) _)) t tt h)

  challenge-ok : (ip : String) → (challenge f u code ip s).0 ≡ ok tt → IsRight f u code s
  unfolding challenge ◌>>◌ ◌>>=◌
  challenge-ok ip h =
      let m = assert_allowed f.attempts u.organization_id u.email ip totp in
      let (a, allowed, rest) = continue-eq-ok _ (m s) tt h in
      let same = assert_allowed-same f.attempts u.organization_id u.email ip totp s in
      let rest' = rw same at rest in
      let (accepted, first, last) = continue-eq-ok _ (accept_code f u code s) tt rest' in
      let is_true = answered ip accepted (accept_code f u code s).1 last in
      accept_code-true (first ∙ ap ok is_true)

-- A challenge that is passed.
pub challenged :
    (f : Factor) (u : User) (code : Option String) (ip : String) (s : State)
    → (assert_login_challenge f u code ip s).0 ≡ ok tt
    → HasPassed f u code s
unfolding assert_login_challenge throw
challenged f u code ip s h = elim (Bool-cases (is_enrolled u)) [
  | inr free ↦ inl free
  | inl enrolled ↦ elim (Option-cases (given_code code)) [
    | inr (c, there) ↦
        inr (c, there, challenge-ok f u c s ip (rw (enrolled, there, assert_login_challenge) at h))
    | inl missing ↦
        let refused : err "SECOND_FACTOR_REQUIRED" ≡ ok tt =
          rw (enrolled, missing, assert_login_challenge) at h in
        absurd (cc refused)
  ]
]
