-- ===== src/Auth/SingleUse.antt =====
-- What is used once: a request for a new password, a recovery code, and a step of the second
-- factor (apps/api/src/auth).
use lex_os.Prelude.{
  ℕ, ◌+◌, ◌≡◌, ◌≢◌, ◌≤◌, refl, Bool, true, false, ◌&&◌, Option, none, some, List, [], ◌∷◌, String,
  Result, ok, err, arith, inl, inr, text_eq, ◌==◌, Option-cases, find_first, count_where,
  update_where, count_where-update_where_none,
}
use lex_os.Shared.Totp.Steps.{totp_step_at}
use lex_os.Auth.Rows.{User, RefreshSession, PasswordResetRequest, TotpRecoveryCode}
use lex_os.Auth.State.{
  State, ◌>>=◌, ◌>>◌, continue, return, throw, query, modify, refuse_if, in_transaction,
  record_event, is_absent,
}
use lex_os.Auth.Sessions.{has_id}
use lex_os.Auth.Guard.{AccessTokenPayload, authenticated}
use lex_os.Auth.PasswordReset.{
  Reset, can_spend, spent, consume_request, set_password, is_open_session_of, dropped,
  revoke_sessions, change_password, reset_found,
}
use lex_os.Auth.SecondFactor.{
  Factor, is_user, is_before, can_consume, with_step, update_users, consume_step, accept_verified,
  verify_stored, accept_app_code, is_unused_code, can_use, used, consume_recovery_code,
  count_unused_recovery_codes,
}
use lex_os.Auth.Refused.{refused_of_revoked, closed_of_none_open}

abbrev pub is_session_of : String → String → RefreshSession → Bool
is_session_of organization_id user_id x =
    text_eq x.organization_id organization_id && text_eq x.user_id user_id

none_open_of :
    (o u : String) (at : ℕ) (xs : List RefreshSession)
    → count_where
        (λ x. is_session_of o u x && is_absent x.revoked_at)
        (update_where (is_open_session_of o u) (dropped at) xs)
      ≡ 0
unfolding is_open_session_of
none_open_of o u at xs =
    count_where-update_where_none _ (is_open_session_of o u) (dropped at) xs (λ x. ground arith)
      (λ x h. h)

reset_state :
    (q : Reset) (password : String) (s : State) (r : PasswordResetRequest)
    → (count_where (can_spend r.id r.organization_id) s.resets == 1) ≡ true
    → ((reset_found q password (some r) s).0 ≡ ok tt)
      × ((reset_found q password (some r) s).1.resets
          ≡ update_where (can_spend r.id r.organization_id) (spent q.now) s.resets)
      × ((reset_found q password (some r) s).1.sessions
          ≡ update_where
              (is_open_session_of r.organization_id r.user_id)
              (dropped q.now)
              s.sessions)
unfolding reset_found in_transaction query modify return refuse_if ◌>>=◌ ◌>>◌ continue
    consume_request change_password set_password revoke_sessions record_event
reset_state q password s r one = rw one (refl, refl, refl)

reset_refused :
    (q : Reset) (password : String) (s : State) (r : PasswordResetRequest)
    → (count_where (can_spend r.id r.organization_id) s.resets == 1) ≡ false
    → (reset_found q password (some r) s).0 ≡ err "PASSWORD_RESET_INVALID"
unfolding reset_found in_transaction query modify return refuse_if ◌>>=◌ ◌>>◌ continue
    consume_request change_password
reset_refused q password s r none_left = rw none_left refl

-- A reset of a request that is still open succeeds; from then on the same request is refused,
-- whatever password it brings, and the guard refuses every access token whose session is of that
-- person. The request has one row.
pub reset_found-once :
    (q : Reset) (password : String) (s : State) (r : PasswordResetRequest) (q' : Reset)
    (password' : String) (p : AccessTokenPayload) (now : ℕ) (x : RefreshSession)
    → count_where (can_spend r.id r.organization_id) s.resets ≡ 1
    → find_first (has_id p.sid) (reset_found q password (some r) s).1.sessions ≡ some x
    → is_session_of r.organization_id r.user_id x ≡ true
    → ((reset_found q password (some r) s).0 ≡ ok tt)
      × ((reset_found q' password' (some r) (reset_found q password (some r) s).1).0
          ≡ err "PASSWORD_RESET_INVALID")
      × (authenticated now (some p) (reset_found q password (some r) s).1 ≡ none)
unfolding can_spend
reset_found-once q password s r q' password' p now x one there own =
    let s' = (reset_found q password (some r) s).1 in
    let (answer, resets, sessions) = reset_state q password s r (ground arith) in
    let left : count_where (can_spend r.id r.organization_id) s'.resets ≡ 0 = rw resets (
      count_where-update_where_none _ (can_spend r.id r.organization_id) (spent q.now) s.resets
        (λ y. ground arith) (λ y h. h)) in
    (
      answer,
      reset_refused q' password' s' r (rw left refl),
      refused_of_revoked p now s' x there (
          closed_of_none_open (is_session_of r.organization_id r.user_id) p.sid s'.sessions x
            (rw sessions (none_open_of r.organization_id r.user_id q.now s.sessions)) there own),
    )

-- A step that was written is before no step that is no later.
not_before : (step step' : ℕ) → step' ≤ step → is_before step' (some step) ≡ false
unfolding is_before
not_before step step' h = ground arith

not_before_mono :
    (o : Option ℕ) (step step' : ℕ)
    → step' ≤ step
    → is_before step o ≡ false
    → is_before step' o ≡ false
unfolding is_before
not_before_mono none step step' h e = absurd (cc)
not_before_mono (some last) step step' h e = ground arith

module _ (o u : String) (step step' : ℕ) (h : step' ≤ step) where
  none_to_consume :
      (xs : List User)
      → count_where
          (can_consume o u step')
          (update_where (can_consume o u step) (with_step step) xs)
        ≡ 0
  unfolding can_consume is_user
  none_to_consume [] = refl
  none_to_consume (x ∷ xs) = ground (
    arith,
    not_before step step' h,
    not_before_mono x.totp_last_step step step' h,
    none_to_consume xs,
  )

-- The people after a code of the app was accepted.
module _ (f : Factor) (u : User) (s : State) where
  verified_users :
      (r : Result Bool)
      → (accept_verified f u r s).0 ≡ ok true
      → (accept_verified f u r s).1.users
        ≡ update_where
            (can_consume u.organization_id u.id (totp_step_at f.consumed_at))
            (with_step (totp_step_at f.consumed_at))
            s.users
  unfolding accept_verified throw return consume_step update_users query modify ◌>>=◌ ◌>>◌ continue
  verified_users (err x) e = absurd (cc)
  verified_users (ok false) e = absurd (cc)
  verified_users (ok true) e = refl

  verified_refused :
      (r : Result Bool)
      → count_where (can_consume u.organization_id u.id (totp_step_at f.consumed_at)) s.users ≡ 0
      → (accept_verified f u r s).0 ≢ ok true
  unfolding accept_verified throw return consume_step update_users query modify ◌>>=◌ ◌>>◌ continue
  verified_refused (err x) zero_of e = absurd (cc)
  verified_refused (ok false) zero_of e = absurd (cc)
  verified_refused (ok true) zero_of e =
      let counted : ok false ≡ ok true = rw zero_of at e in absurd (cc counted)

  accepted_users :
      (code : String)
      → (accept_app_code f u code s).0 ≡ ok true
      → (accept_app_code f u code s).1.users
        ≡ update_where
            (can_consume u.organization_id u.id (totp_step_at f.consumed_at))
            (with_step (totp_step_at f.consumed_at))
            s.users
  unfolding accept_app_code return
  accepted_users code e = elim (Option-cases u.totp_secret) [
    | inl missing ↦
        let nothing : ok false ≡ ok true = rw (missing, accept_app_code) at e in absurd (cc nothing)
    | inr (stored, there) ↦
        rw (there, accept_app_code)
          (verified_users (verify_stored f stored code) (rw (there, accept_app_code) at e))
  ]

  accepted_refused :
      (code : String)
      → count_where (can_consume u.organization_id u.id (totp_step_at f.consumed_at)) s.users ≡ 0
      → (accept_app_code f u code s).0 ≢ ok true
  unfolding accept_app_code return
  accepted_refused code zero_of e = elim (Option-cases u.totp_secret) [
    | inl missing ↦
        let nothing : ok false ≡ ok true = rw (missing, accept_app_code) at e in absurd (cc nothing)
    | inr (stored, there) ↦
        verified_refused (verify_stored f stored code) zero_of (rw (there, accept_app_code) at e)
  ]

-- After a code of the app is accepted for a person, no code of the app, this one or another, is
-- accepted for that person whose step of time is the same or an earlier one.
pub accept_app_code-once :
    (f f' : Factor) (u u' : User) (code code' : String) (s : State)
    → u'.id ≡ u.id
    → u'.organization_id ≡ u.organization_id
    → totp_step_at f'.consumed_at ≤ totp_step_at f.consumed_at
    → (accept_app_code f u code s).0 ≡ ok true
    → (accept_app_code f' u' code' (accept_app_code f u code s).1).0 ≢ ok true
accept_app_code-once f f' u u' code code' s same_id same_organization no_later accepted =
    accepted_refused f' u' (accept_app_code f u code s).1 code' (
      rw (accepted_users f u s code accepted, same_id, same_organization)
        (none_to_consume u.organization_id u.id (totp_step_at f.consumed_at)
          (totp_step_at f'.consumed_at) no_later s.users))

used_no_more : (o u h : String) (at : ℕ) (x : TotpRecoveryCode) → can_use o u h (used at x) ≡ false
unfolding can_use is_unused_code
used_no_more o u h at x = ground arith

-- The unused codes before and after one was used.
unused_after :
    (o u h : String) (at : ℕ) (xs : List TotpRecoveryCode)
    → count_where (is_unused_code o u) xs
      ≡ count_where (is_unused_code o u) (update_where (can_use o u h) (used at) xs)
        + count_where (can_use o u h) xs
unfolding can_use is_unused_code
unused_after o u h at [] = refl
unused_after o u h at (x ∷ xs) = ground (arith, unused_after o u h at xs)

-- A recovery code that is accepted is used up: there is one unused code less, and the same code is
-- refused from then on.
pub consume_recovery_code-once :
    (o u h : String) (at at' : ℕ) (s : State)
    → (consume_recovery_code o u h at s).0 ≡ ok true
    → (count_unused_recovery_codes o u s
        ≡ count_unused_recovery_codes o u (consume_recovery_code o u h at s).1 + 1)
      × ((consume_recovery_code o u h at' (consume_recovery_code o u h at s).1).0 ≡ ok false)
unfolding consume_recovery_code count_unused_recovery_codes query modify return ◌>>=◌ ◌>>◌ continue
consume_recovery_code-once o u h at at' s accepted =
    let one : (count_where (can_use o u h) s.recovery_codes == 1) ≡ true = cc accepted in
    let left =
      count_where-update_where_none (can_use o u h) (can_use o u h) (used at) s.recovery_codes
        (used_no_more o u h at) (λ x k. k) in
    (ground (arith, unused_after o u h at s.recovery_codes), rw left refl)
