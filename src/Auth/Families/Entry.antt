-- ===== src/Auth/Families/Entry.antt =====
-- `login` and `reset` keep the families of tokens sound.
use lex_os.Prelude.{
  ℕ, ◌≡◌, refl, Bool, true, false, Option, none, some, List, String, Bool-cases, inl, inr, arith,
  count_where,
}
use lex_os.Auth.Rows.{User, RefreshSession, PasswordResetRequest}
use lex_os.Auth.State.{State, ◌>>=◌, ◌>>◌, return, query, modify, continue, is_active_identity}
use lex_os.Auth.Sessions.{Request, Issued}
use lex_os.Auth.Login.{
  LoginRequest, LoginUser, Entry, note_wrong_password, fail_attempt, refuse_wrong, refuse_blocked,
  mark_successful_login, first_session, open_session, enter, admit, decide, checked_user, log_in,
}
use lex_os.Auth.PasswordReset.{
  Reset, consume_request, set_password, is_open_session_of, dropped, revoke_sessions,
  change_password, reset_found,
}
use lex_os.Auth.Frame.{
  Triple, Keeps, bind-Triple, then-Triple, in_transaction-Triple, bind-Keeps, then-Keeps,
  in_transaction-Keeps, query-Keeps, return-Keeps, throw-Keeps, refuse_if-Keeps,
}
use lex_os.Auth.Families.{is_live_in, IsSound, IsNarrowing, update_where-IsSound}
use lex_os.Auth.Families.Rotation.{Families, create-Triple, record_event-Keeps}
use lex_os.Auth.Families.Untouched.{
  event-Keeps, assert_allowed-Keeps, record_failure-Keeps, clear-Keeps,
  assert_login_challenge-Keeps,
}

module _ (views : List RefreshSession) (family : String) where
  -- As `NoneLive`, of the table alone.
  abbrev Unused : List RefreshSession → Type 0
  Unused xs = IsSound views xs × (count_where (is_live_in family) xs ≡ 0)

  abbrev Before : State → Type 0
  Before s = Unused s.sessions

  mark_successful_login-Keeps :
      (o u : String) (at : ℕ) → Keeps Before (mark_successful_login o u at)
  unfolding mark_successful_login query modify return ◌>>=◌ ◌>>◌ continue
  mark_successful_login-Keeps o u at s h = h

  open_session-Triple :
      (q : Request) (u : User)
      → q.new_family_id ≡ family
      → Triple Before (open_session q u) (Families views)
  unfolding open_session
  open_session-Triple q u same =
      in_transaction-Triple Before (Families views) _ (λ s h. h.0)
        (bind-Triple Before Before (Families views) _ _ (λ s h. h.0)
          (mark_successful_login-Keeps _ _ _)
          (λ b.
            then-Triple Before Before (Families views) _ _ (λ s h. h.0) (refuse_if-Keeps Before _ _)
              (then-Triple Before (Families views) (Families views) _ _ (λ s h. h)
                (λ s h. create-Triple views (first_session q u) s (rw same h))
                (record_event-Keeps views _))))

  enter-Triple :
      (e : Entry) (i : LoginRequest) (ip : String) (u : User)
      → e.request.new_family_id ≡ family
      → Triple Before (enter e i ip u) (Families views)
  unfolding enter
  enter-Triple e i ip u same =
      then-Triple Before Before (Families views) _ _ (λ s h. h.0)
        (assert_login_challenge-Keeps Unused _ _ _ _)
        (then-Triple Before Before (Families views) _ _ (λ s h. h.0) (clear-Keeps Unused _ _ _ _ _)
          (then-Triple Before (Families views) (Families views) _ _ (λ s h. h)
            (open_session-Triple e.request u same) (return-Keeps (Families views) _)))

  fail_attempt-Keeps :
      (e : Entry) (i : LoginRequest) (ip : String) → Keeps Before (fail_attempt e i ip)
  unfolding fail_attempt
  fail_attempt-Keeps e i ip = record_failure-Keeps Unused _ _ _ _ _

  refuse_blocked-Keeps :
      (e : Entry) (i : LoginRequest) (ip : String) (u : User)
      → Keeps Before (refuse_blocked e i ip u)
  unfolding refuse_blocked
  refuse_blocked-Keeps e i ip u =
      then-Keeps Before _ _ (fail_attempt-Keeps e i ip)
        (then-Keeps Before _ _ (event-Keeps Unused _) (throw-Keeps Before Issued _))

  note_wrong_password-Keeps : (o : Option LoginUser) → Keeps Before (note_wrong_password o)
  unfolding note_wrong_password
  note_wrong_password-Keeps none = return-Keeps Before tt
  note_wrong_password-Keeps (some x) = event-Keeps Unused _

  refuse_wrong-Keeps :
      (e : Entry) (i : LoginRequest) (ip : String) (o : Option LoginUser)
      → Keeps Before (refuse_wrong e i ip o)
  unfolding refuse_wrong
  refuse_wrong-Keeps e i ip o =
      then-Keeps Before _ _ (fail_attempt-Keeps e i ip)
        (then-Keeps Before _ _ (note_wrong_password-Keeps o) (throw-Keeps Before Issued _))

  admit-Triple :
      (e : Entry) (i : LoginRequest) (ip : String) (x : LoginUser)
      → e.request.new_family_id ≡ family
      → Triple Before (admit e i ip x) (Families views)
  unfolding admit
  admit-Triple e i ip x same s h = elim (Bool-cases (is_active_identity x.user x.organization)) [
    | inl active ↦ rw active (enter-Triple e i ip x.user same s h)
    | inr blocked ↦ rw blocked (refuse_blocked-Keeps e i ip x.user s h).0
  ]

  decide-Triple :
      (e : Entry) (i : LoginRequest) (ip : String) (found checked : Option LoginUser)
      → e.request.new_family_id ≡ family
      → Triple Before (decide e i ip found checked) (Families views)
  unfolding decide
  decide-Triple e i ip found none same s h = (refuse_wrong-Keeps e i ip found s h).0
  decide-Triple e i ip found (some x) same s h = admit-Triple e i ip x same s h

  -- A login whose new family no live token has.
  pub log_in-Triple :
      (e : Entry) (i : LoginRequest) (ip : String)
      → e.request.new_family_id ≡ family
      → Triple Before (log_in e i ip) (Families views)
  unfolding log_in
  log_in-Triple e i ip same =
      then-Triple Before Before (Families views) _ _ (λ s h. h.0)
        (assert_allowed-Keeps Unused _ _ _ _ _)
        (bind-Triple Before Before (Families views) _ _ (λ s h. h.0) (query-Keeps Before _)
          (λ found. decide-Triple e i ip found (checked_user e i found) same))

module _ (views : List RefreshSession) where
  dropped-IsNarrowing : (at : ℕ) → IsNarrowing (dropped at)
  unfolding is_live_in
  dropped-IsNarrowing at = record {
    id = λ r. refl;
    family = λ r. refl;
    live = λ g r h. ground arith;
  }

  revoke_sessions-Keeps : (o u : String) (at : ℕ) → Keeps (Families views) (revoke_sessions o u at)
  unfolding revoke_sessions query modify return ◌>>=◌ ◌>>◌ continue
  revoke_sessions-Keeps o u at s h =
      update_where-IsSound (is_open_session_of o u) (dropped at) (dropped-IsNarrowing at) views
        s.sessions h

  set_password-Keeps : (o u p : String) → Keeps (Families views) (set_password o u p)
  unfolding set_password modify
  set_password-Keeps o u p s h = h

  consume_request-Keeps : (o u : String) (at : ℕ) → Keeps (Families views) (consume_request o u at)
  unfolding consume_request query modify return ◌>>=◌ ◌>>◌ continue
  consume_request-Keeps o u at s h = h

  change_password-Keeps :
      (q : Reset) (p : String) (r : PasswordResetRequest) (b : Bool)
      → Keeps (Families views) (change_password q p r b)
  unfolding change_password
  change_password-Keeps q p r false = return-Keeps (Families views) false
  change_password-Keeps q p r true = then-Keeps (Families views) _ _ (set_password-Keeps _ _ _) (
      bind-Keeps (Families views) _ _ (revoke_sessions-Keeps _ _ _) (λ n.
        then-Keeps (Families views) _ _ (record_event-Keeps views _)
          (return-Keeps (Families views) true)))

  -- A reset of a request that was read before.
  pub reset_found-Keeps :
      (q : Reset) (p : String) (o : Option PasswordResetRequest)
      → Keeps (Families views) (reset_found q p o)
  unfolding reset_found
  reset_found-Keeps q p none = throw-Keeps (Families views) (Unit {0}) _
  reset_found-Keeps q p (some r) =
      bind-Keeps (Families views) _ _
        (in_transaction-Keeps (Families views) _ (
          bind-Keeps (Families views) _ _ (consume_request-Keeps _ _ _)
            (λ b. change_password-Keeps q p r b)))
        (λ b. refuse_if-Keeps (Families views) _ _)
