-- ===== src/Auth/Tests.antt =====
-- Runs of the sessions, and what the theorems say of them (apps/api/src/auth).
use lex_os.Prelude.{
  Bool-cases, inl, inr, text_eq_iff, ◌≡◌, ◌≤◌, refl, true, false, none, some, [], ◌∷◌, String, ok,
  err, arith, text_eq, count_where, find_first,
}
use lex_os.Processing.Pipeline.Providers.{units_of}
use lex_os.Auth.Rows.{RefreshSession}
use lex_os.Auth.State.{
  continue, ◌>>=◌, ◌>>◌, return, throw, query, modify, refuse_if, in_transaction, record_event,
  organization_of, user_of,
}
use lex_os.Auth.Sessions.{
  has_id, in_family, is_open_in, revoke_token_family, is_replayed, deny_replay, refresh_found,
  select_session, refresh_selected, issued_or_invalid, is_too_long, refresh,
  find_refresh_session_by_hash, find_session_for_logout, revoke_for_logout, logout,
}
use lex_os.Auth.Guard.{authenticated}
use lex_os.Auth.PasswordReset.{
  Reset, can_spend, consume_request, set_password, can_set_password, is_open_session_of,
  revoke_sessions, change_password, reset_found,
}
use lex_os.Auth.Families.{is_live_in}
use lex_os.Auth.Families.Steps.{World, Step, Reach, IsSafe, Reach-IsSafe}
use lex_os.Auth.Refused.{refresh-replayed, logout-refused}
use lex_os.Auth.SingleUse.{is_session_of, reset_found-once}
use lex_os.Auth.Fixture.{
  organization, user, first, second, reset_request, state, request, attempts, actor, payload,
}

abbrev world : World
world = record { views = []; state = state }

abbrev world_after : World
world_after = record { views = []; state = (logout request actor state).1 }

distinct : count_where (has_id "s1") (first ∷ second ∷ []) ≤ 1
unfolding has_id text_eq
distinct = omega arith

world-IsSafe : IsSafe world
unfolding has_id is_live_in in_family
world-IsSafe = record { unique = λ id. two_names id; single = λ g. ground arith; seen = tt }
  where
    two_names : (id : String) → count_where (has_id id) (first ∷ second ∷ []) ≤ 1
    two_names id = elim (Bool-cases (text_eq "s1" id)) [
      | inr other ↦ rw other (ground arith)
      | inl own ↦ let same : "s1" ≡ id = (text_eq_iff "s1" id).0 own in rw (← same) (distinct)
    ]

reached : Reach world world_after
reached = Reach.next Reach.here (Step.logs_out request actor refl)

Reach-IsSafe_example : IsSafe world_after
Reach-IsSafe_example = Reach-IsSafe world world_after world-IsSafe reached

short : is_too_long "t1" ≡ false
unfolding is_too_long units_of
short = refl

found_first : find_refresh_session_by_hash "t1" state ≡ some first
unfolding find_refresh_session_by_hash text_eq
found_first = refl

of_user : user_of "o1" "u1" state ≡ some user
unfolding user_of text_eq
of_user = refl

of_organization : organization_of "o1" state ≡ some organization
unfolding organization_of text_eq
of_organization = refl

replayed : is_replayed first ≡ true
unfolding is_replayed
replayed = refl

abbrev closed : RefreshSession
closed = record second { revoked_at = some 20; revocation_reason = some "REPLAY_DETECTED" }

closed_there : find_first (has_id "s2") (refresh request (some "t1") state).1.sessions ≡ some closed
unfolding refresh is_too_long units_of find_refresh_session_by_hash select_session user_of
    organization_of in_transaction query modify return throw ◌>>=◌ ◌>>◌ continue refresh_selected
    refresh_found is_replayed deny_replay revoke_token_family is_open_in in_family record_event
    issued_or_invalid has_id text_eq
closed_there = refl

closed_family : in_family "f1" closed ≡ true
unfolding in_family text_eq
closed_family = refl

refresh-replayed_example :
    ((refresh request (some "t1") state).0 ≡ err "INVALID_SESSION")
    × (authenticated 30 (some payload) (refresh request (some "t1") state).1 ≡ none)
refresh-replayed_example =
    refresh-replayed request "t1" state first user organization payload 30 closed short found_first
      of_user of_organization replayed closed_there closed_family

found_second : find_session_for_logout actor state ≡ some second
unfolding find_session_for_logout has_id text_eq
found_second = refl

abbrev left : RefreshSession
left = record second { revoked_at = some 20; revocation_reason = some "LOGOUT" }

left_there : find_first (has_id "s2") (logout request actor state).1.sessions ≡ some left
unfolding logout find_session_for_logout in_transaction query modify ◌>>=◌ ◌>>◌ continue
    revoke_for_logout revoke_token_family is_open_in in_family record_event has_id text_eq
left_there = refl

left_family : in_family "f1" left ≡ true
unfolding in_family text_eq
left_family = refl

logout-refused_example :
    ((logout request actor state).0 ≡ ok tt)
    × (authenticated 30 (some payload) (logout request actor state).1 ≡ none)
logout-refused_example =
    logout-refused request actor state second payload 30 left found_second left_there left_family

abbrev reset : Reset
reset = record {
  attempts = attempts;
  now = 20;
  hash_opaque_token = λ t. t;
  hash_password = λ t. t;
  new_request_id = "r2";
  new_token = "p2";
  link_to = λ t. t;
}

one_request : count_where (can_spend "r1" "o1") state.resets ≡ 1
unfolding can_spend text_eq
one_request = refl

abbrev dropped_second : RefreshSession
dropped_second = record second { revoked_at = some 20; revocation_reason = some "PASSWORD_RESET" }

dropped_there :
    find_first (has_id "s2") (reset_found reset "nova" (some reset_request) state).1.sessions
    ≡ some dropped_second
unfolding reset_found in_transaction query modify return refuse_if ◌>>=◌ ◌>>◌ continue
    consume_request can_spend change_password set_password can_set_password revoke_sessions
    is_open_session_of record_event has_id text_eq
dropped_there = refl

of_person : is_session_of "o1" "u1" dropped_second ≡ true
unfolding text_eq
of_person = refl

reset_found-once_example :
    ((reset_found reset "nova" (some reset_request) state).0 ≡ ok tt)
    × ((reset_found reset "outra"
          (some reset_request)
          (reset_found reset "nova" (some reset_request) state).1).0
        ≡ err "PASSWORD_RESET_INVALID")
    × (authenticated 30 (some payload) (reset_found reset "nova" (some reset_request) state).1
        ≡ none)
reset_found-once_example =
    reset_found-once reset "nova" state reset_request reset "outra" payload 30 dropped_second
      one_request dropped_there of_person
