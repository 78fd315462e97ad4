-- ===== src/Auth/NextStep.antt =====
-- The same code in the next step of time (apps/api/src/auth/second-factor.service.ts).
use lex_os.Prelude.{
  ◌⊎◌, ℕ, ◌+◌, ◌-◌, ◌≡◌, ◌≤◌, ◌<◌, refl, true, false, some, List, [], ◌∷◌, String, ok, arith, inl,
  inr, ◌==◌, count_where, update_where, length,
}
use lex_os.Processing.Cost.{codes}
use lex_os.Shared.Base32.{decode_base32}
use lex_os.Shared.Digits.{digits_only}
use lex_os.Shared.Cnj.{same_codes}
use lex_os.Shared.Totp.Steps.{
  Hmac, totp_digits, padded, code_for_step, totp_step_at, matches_near, verify_totp,
}
use lex_os.Shared.Totp.Stored.{decrypt_secret}
use lex_os.Auth.Rows.{User}
use lex_os.Auth.State.{State, ◌>>=◌, ◌>>◌, continue, return, query, modify}
use lex_os.Auth.SecondFactor.{
  Factor, is_user, is_before, can_consume, with_step, update_users, consume_step, accept_verified,
  verify_stored, accept_app_code,
}

same_codes_refl : (cs : List ℕ) → same_codes cs cs ≡ true
same_codes_refl [] = refl
same_codes_refl (c ∷ cs) = ground (arith, same_codes_refl cs)

six :
    (hmac : Hmac) (key : List ℕ) (k : ℕ) → (length (code_for_step hmac key k) == totp_digits) ≡ true
unfolding code_for_step padded
six hmac key k = refl

-- The code of a step is accepted in that step and in the next.
verify_totp_near :
    (hmac : Hmac) (secret key code : List ℕ) (at_ms k : ℕ)
    → decode_base32 secret ≡ ok key
    → digits_only code ≡ code_for_step hmac key k
    → 0 < k
    → (totp_step_at at_ms ≡ k) ⊎ (totp_step_at at_ms ≡ k + 1)
    → verify_totp hmac secret code at_ms ≡ ok true
unfolding verify_totp matches_near
verify_totp_near hmac secret key code at_ms k decoded own positive near =
    let six_digits = six hmac key k in
    let good = same_codes_refl (code_for_step hmac key k) in
    elim near [
      | inl now ↦
          let started : (k == 0) ≡ false = ground arith in
          rw (own, six_digits, decoded, verify_totp, now, started, own, good) (ground arith)
      | inr after ↦
          let started : (k + 1 == 0) ≡ false = ground arith in
          let back : k + 1 - 1 ≡ k = omega arith in
          rw (own, six_digits, decoded, verify_totp, after, started, own, back, good) refl
    ]

-- One row of the person, that a step can be written to: it can be again for the next step.
module _ (o u : String) (n : ℕ) where
  again_le :
      (xs : List User)
      → count_where (can_consume o u (n + 1)) (update_where (can_consume o u n) (with_step n) xs)
        ≤ count_where (is_user o u) xs
  unfolding can_consume is_user
  again_le [] = omega arith
  again_le (x ∷ xs) = ground (arith, again_le xs)

  is_before_next : is_before (n + 1) (some n) ≡ true
  unfolding is_before
  is_before_next = ground arith

  le_again :
      (xs : List User)
      → count_where (can_consume o u n) xs
        ≤ count_where (can_consume o u (n + 1)) (update_where (can_consume o u n) (with_step n) xs)
  unfolding can_consume is_user
  le_again [] = omega arith
  le_again (x ∷ xs) = ground (arith, is_before_next, le_again xs)

accepts :
    (f : Factor) (u : User) (stored : List ℕ) (code : String) (s : State)
    → u.totp_secret ≡ some stored
    → verify_stored f stored code ≡ ok true
    → count_where (can_consume u.organization_id u.id (totp_step_at f.consumed_at)) s.users ≡ 1
    → ((accept_app_code f u code s).0 ≡ ok true)
      × ((accept_app_code f u code s).1.users
          ≡ update_where
              (can_consume u.organization_id u.id (totp_step_at f.consumed_at))
              (with_step (totp_step_at f.consumed_at))
              s.users)
unfolding accept_app_code accept_verified consume_step update_users query modify return ◌>>=◌ ◌>>◌
    continue
accepts f u stored code s there verified one =
    rw (there, accept_app_code, verified, one) (refl, refl)

abbrev pub at_time : Factor → ℕ → Factor
at_time f t = record f { checked_at = t; consumed_at = t }

-- The code of a step that was accepted in that step is accepted a second time in the next one, by
-- the state that the first acceptance left: what is written down is the step of the clock, not the
-- step of the code. The person has one row, with the secret as it was read.
pub accept_app_code-replayed :
    (f : Factor) (u : User) (stored secret key : List ℕ) (code : String) (s : State) (t t' n : ℕ)
    → u.totp_secret ≡ some stored
    → decrypt_secret f.cipher stored ≡ ok secret
    → decode_base32 secret ≡ ok key
    → digits_only (codes code) ≡ code_for_step f.hmac key n
    → 0 < n
    → totp_step_at t ≡ n
    → totp_step_at t' ≡ n + 1
    → count_where (is_user u.organization_id u.id) s.users ≡ 1
    → count_where (can_consume u.organization_id u.id n) s.users ≡ 1
    → ((accept_app_code (at_time f t) u code s).0 ≡ ok true)
      × ((accept_app_code (at_time f t') u code (accept_app_code (at_time f t) u code s).1).0
          ≡ ok true)
unfolding verify_stored
accept_app_code-replayed f u stored secret key code s t t' n there opened decoded own positive now
      next one_row free =
    let first : verify_stored (at_time f t) stored code ≡ ok true =
      rw (opened, verify_stored)
        (verify_totp_near f.hmac secret key (codes code) t n decoded own positive (inl now)) in
    let second : verify_stored (at_time f t') stored code ≡ ok true =
      rw (opened, verify_stored)
        (verify_totp_near f.hmac secret key (codes code) t' n decoded own positive (inr next)) in
    let (accepted, users) = accepts (at_time f t) u stored code s there first (rw now free) in
    let users_n : (accept_app_code (at_time f t) u code s).1.users
        ≡ update_where (can_consume u.organization_id u.id n) (with_step n) s.users =
      rw now at users in
    let again : count_where (can_consume u.organization_id u.id (n + 1))
          (accept_app_code (at_time f t) u code s).1.users
        ≡ 1 =
      rw users_n (
        omega (
          arith,
          one_row,
          free,
          again_le u.organization_id u.id n s.users,
          le_again u.organization_id u.id n s.users,
        )) in
    (
      accepted,
      (accepts (at_time f t') u stored code (accept_app_code (at_time f t) u code s).1 there second
          (rw next again)).0,
    )
