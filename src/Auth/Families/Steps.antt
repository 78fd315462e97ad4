-- ===== src/Auth/Families/Steps.antt =====
-- What people do with their sessions, in any order and at any distance between a read and its use.
use lex_os.Prelude.{
  ℕ, ◌≡◌, refl, true, Option, some, List, [], ◌∷◌, String, text_eq, text_eq_refl, count_where, zero,
  suc, get_elem?, subst, any_where_named, All, found_row_named, All-map, ap,
}
use lex_os.Auth.Rows.{Organization, User, RefreshSession, PasswordResetRequest}
use lex_os.Auth.State.{State, in_transaction}
use lex_os.Auth.Sessions.{
  Request, ActorContext, has_id, refresh_found, find_refresh_session_by_hash, logout,
}
use lex_os.Auth.Login.{LoginRequest, Entry, log_in}
use lex_os.Auth.PasswordReset.{Reset, reset_found}
use lex_os.Auth.Frame.{in_transaction-Triple}
use lex_os.Auth.Families.{is_live_in, IsView, IsSound}
use lex_os.Auth.Families.Rotation.{Families, refresh_found_sound, logout-Keeps}
use lex_os.Auth.Families.Entry.{log_in-Triple, reset_found-Keeps}

-- The rows that refreshes have read, and the state.
pub record World : Type 0 where
  pub views : List RefreshSession
  pub state : State

-- A step: a refresh reads its row; it goes on with a row that was read, and with the person and the
-- organization that it read; a login with a family of no live token; a logout; a password reset.
pub data Step (w w' : World) : Type 0 where
  read :
      (token_hash : String) (r : RefreshSession)
      → find_refresh_session_by_hash token_hash w.state ≡ some r
      → w' ≡ record { views = r ∷ w.views; state = w.state }
      → Step w w'
  refreshes :
      (q : Request) (n : ℕ) (r : RefreshSession) (u : User) (o : Organization)
      → get_elem? w.views n ≡ some r
      → w' ≡ record { views = w.views; state = (in_transaction (refresh_found q r u o) w.state).1 }
      → Step w w'
  logs_in :
      (e : Entry) (i : LoginRequest) (client_ip : String)
      → count_where (is_live_in e.request.new_family_id) w.state.sessions ≡ 0
      → w' ≡ record { views = w.views; state = (log_in e i client_ip w.state).1 }
      → Step w w'
  logs_out :
      (q : Request) (a : ActorContext)
      → w' ≡ record { views = w.views; state = (logout q a w.state).1 }
      → Step w w'
  resets :
      (q : Reset) (password : String) (found : Option PasswordResetRequest)
      → w' ≡ record { views = w.views; state = (reset_found q password found w.state).1 }
      → Step w w'

pub data Reach (w : World) : World → Type 0 where
  here : Reach w w
  next : {v u : World} → Reach w v → Step v u → Reach w u

abbrev pub IsSafe : World → Type 0
IsSafe w = IsSound w.views w.state.sessions

All-get_elem? :
    (P : RefreshSession → Type 0) (xs : List RefreshSession) (n : ℕ) (r : RefreshSession)
    → All P xs
    → get_elem? xs n ≡ some r
    → P r
All-get_elem? P [] n r h e = absurd (cc)
All-get_elem? P (x ∷ xs) zero r h e = let same : x ≡ r = cc in subst P same h.0
All-get_elem? P (x ∷ xs) (suc n) r h e = All-get_elem? P xs n r h.1 e

-- A row that is found by its hash is a view of the table.
read-IsView :
    (views : List RefreshSession) (s : State) (token_hash : String) (r : RefreshSession)
    → IsSound views s.sessions
    → find_refresh_session_by_hash token_hash s ≡ some r
    → IsView r s.sessions
unfolding find_refresh_session_by_hash has_id
read-IsView views s token_hash r h e = record {
  present =
      any_where_named (has_id r.id) (λ x. text_eq x.token_hash token_hash) s.sessions r
        (text_eq_refl r.id) e;
  family =
      All-map (λ y. has_id r.id y ≡ true → y ≡ r)
        (λ y. has_id r.id y ≡ true → y.token_family_id ≡ r.token_family_id) s.sessions
        (λ y same own. ap (λ (x : RefreshSession). x.token_family_id) (same own))
        (found_row_named (has_id r.id) (λ x. text_eq x.token_hash token_hash) s.sessions r
          (text_eq_refl r.id) (h.unique r.id) e);
}

Step-IsSafe : {w w' : World} → Step w w' → IsSafe w → IsSafe w'
Step-IsSafe {w} {w'} (read token_hash r e same) h =
    let view = read-IsView w.views w.state token_hash r h e in
    rw same (record { unique = h.unique; single = h.single; seen = (view, h.seen) })
Step-IsSafe {w} {w'} (refreshes q n r u o e same) h = rw same (
    in_transaction-Triple (λ s. IsView r s.sessions × IsSound w.views s.sessions) (Families w.views)
      (refresh_found q r u o) (λ s k. k.1) (λ s k. refresh_found_sound w.views q r u o s k.0 k.1)
      w.state (All-get_elem? (λ x. IsView x w.state.sessions) w.views n r h.seen e, h))
Step-IsSafe {w} {w'} (logs_in x i client_ip unused same) h =
    rw same (log_in-Triple w.views x.request.new_family_id x i client_ip refl w.state (h, unused))
Step-IsSafe {w} {w'} (logs_out q a same) h = rw same (logout-Keeps w.views q a w.state h)
Step-IsSafe {w} {w'} (resets q password found same) h =
    rw same (reset_found-Keeps w.views q password found w.state h)

reach_sound : {w w' : World} → IsSafe w → Reach w w' → IsSafe w'
reach_sound h here = h
reach_sound h (next r st) = Step-IsSafe st (reach_sound h r)

-- From a sound state, whatever refreshes (each using a row that it read earlier), logins into new
-- families, logouts and password resets do, in any order, the state is sound: no two sessions have
-- one identifier, each family of tokens has at most one session that is neither rotated nor revoked,
-- and the rows that were read are still those of their sessions.
pub Reach-IsSafe : (w w' : World) → IsSafe w → Reach w w' → IsSafe w'
Reach-IsSafe w w' h r = reach_sound h r
