-- ===== src/Auth/Families.antt =====
-- The families of refresh tokens: what the rows of the sessions promise, and the updates of
-- apps/api/src/auth/auth.repository.ts.
pub mod Rotation
pub mod Untouched
pub mod Entry
pub mod Steps
use lex_os.Prelude.{
  ℕ, ◌+◌, ◌≤◌, ◌<◌, ◌≡◌, refl, Bool, true, false, not, ◌&&◌, ◌||◌, Option, none, some, List, [],
  ◌∷◌, ◌++◌, String, arith, inl, inr, text_eq, text_eq_iff, text_eq_refl, ltb, if◌then◌else◌,
  Bool-cases, any_where, count_where, update_where, find_first, All, All-map, All-concat,
  All-update_where, count_where-append, count_where-update_where, any_where-update_where,
  any_where-append, count_where-le-update_where, count_where_of_any_where, subst, ap, ◌∙◌,
}
use lex_os.Auth.Rows.{RefreshSession}
use lex_os.Auth.State.{State, is_absent}
use lex_os.Auth.Sessions.{NewSession, session_row, has_id, in_family, clashes_with}

-- A token that can still be exchanged, but for the time.
unfoldable pub is_live_in : String → RefreshSession → Bool
unfolding in_family
is_live_in family r = in_family family r && (is_absent r.rotated_at && is_absent r.revoked_at)

-- A row that was read, against the table later: it is there, and its family is its own.
pub record IsView (r : RefreshSession) (sessions : List RefreshSession) : Type 0 where
  pub present : any_where (has_id r.id) sessions ≡ true
  pub family : All (λ y. has_id r.id y ≡ true → y.token_family_id ≡ r.token_family_id) sessions

pub record IsSound (views sessions : List RefreshSession) : Type 0 where
  pub unique : (id : String) → count_where (has_id id) sessions ≤ 1
  pub single : (family : String) → count_where (is_live_in family) sessions ≤ 1
  pub seen : All (λ r. IsView r sessions) views

-- A change of a row that keeps its name and makes no token live again.
pub record IsNarrowing (f : RefreshSession → RefreshSession) : Type 0 where
  pub id : (r : RefreshSession) → (f r).id ≡ r.id
  pub family : (r : RefreshSession) → (f r).token_family_id ≡ r.token_family_id
  pub live : (g : String) (r : RefreshSession) → is_live_in g (f r) ≡ true → is_live_in g r ≡ true

module _ (p : RefreshSession → Bool) (f : RefreshSession → RefreshSession)
    (narrow : IsNarrowing f) where
  has_id-same : (id : String) (r : RefreshSession) → has_id id (f r) ≡ has_id id r
  unfolding has_id
  has_id-same id r = ap (λ k. text_eq k id) (narrow.id r)

  update_where-IsView :
      (r : RefreshSession) (sessions : List RefreshSession)
      → IsView r sessions
      → IsView r (update_where p f sessions)
  update_where-IsView r sessions v = record {
    present = any_where-update_where (has_id r.id) p f sessions (has_id-same r.id) ∙ v.present;
    family =
        All-update_where (λ y. has_id r.id y ≡ true → y.token_family_id ≡ r.token_family_id) p f
          sessions (λ x h hit own. narrow.family x ∙ h (rw (← has_id-same r.id x) own)) v.family;
  }

  pub update_where-IsSound :
      (views sessions : List RefreshSession)
      → IsSound views sessions
      → IsSound views (update_where p f sessions)
  update_where-IsSound views sessions h = record {
    unique =
        λ id. rw (count_where-update_where (has_id id) p f sessions (has_id-same id)) (h.unique id);
    single = λ g. omega (
      arith,
      h.single g,
      count_where-le-update_where (is_live_in g) p f sessions (narrow.live g),
    );
    seen =
        All-map (λ r. IsView r sessions) (λ r. IsView r (update_where p f sessions)) views
          (λ r v. update_where-IsView r sessions v) h.seen;
  }

-- A new row, whose identifier is no other's.
module _ (n : NewSession) (sessions : List RefreshSession)
    (new : any_where (clashes_with n) sessions ≡ false) where
  no_such_id :
      (xs : List RefreshSession)
      → any_where (clashes_with n) xs ≡ false
      → any_where (has_id n.id) xs ≡ false
  unfolding clashes_with
  no_such_id [] h = refl
  no_such_id (x ∷ xs) h = ground (arith, no_such_id xs)

  concat-IsView :
      (r : RefreshSession) → IsView r sessions → IsView r (sessions ++ session_row n ∷ [])
  unfolding has_id
  concat-IsView r v = record {
    present = any_where-append (has_id r.id) sessions (session_row n) v.present;
    family =
        All-concat (λ y. has_id r.id y ≡ true → y.token_family_id ≡ r.token_family_id) sessions
          (session_row n) v.family
          (λ own.
            let same : n.id ≡ r.id = (text_eq_iff n.id r.id).0 own in
            let there : any_where (has_id n.id) sessions ≡ true = rw same v.present in
            absurd (cc (no_such_id sessions new)));
  }

  unique_after :
      (id : String)
      → count_where (has_id id) sessions ≤ 1
      → count_where (has_id id) (sessions ++ session_row n ∷ []) ≤ 1
  unfolding has_id
  unique_after id one = elim (Bool-cases (text_eq n.id id)) [
    | inr other ↦
        rw (count_where-append (has_id id) sessions (session_row n)) (rw other (omega arith))
    | inl own ↦
        let same : n.id ≡ id = (text_eq_iff n.id id).0 own in
        let zero_of : count_where (has_id n.id) sessions ≡ 0 =
          count_where_of_any_where (has_id n.id) sessions (no_such_id sessions new) in
        let zero_here : count_where (has_id id) sessions ≡ 0 = rw (← same) zero_of in
        rw (count_where-append (has_id id) sessions (session_row n), zero_here, own) (omega arith)
  ]

  single_after :
      (g : String)
      → count_where (is_live_in n.token_family_id) sessions ≡ 0
      → count_where (is_live_in g) sessions ≤ 1
      → count_where (is_live_in g) (sessions ++ session_row n ∷ []) ≤ 1
  unfolding is_live_in
  single_after g none_live one = elim (Bool-cases (text_eq n.token_family_id g)) [
    | inr other ↦
        rw (count_where-append (is_live_in g) sessions (session_row n)) (rw other (omega arith))
    | inl own ↦
        let same : n.token_family_id ≡ g = (text_eq_iff n.token_family_id g).0 own in
        let zero_here : count_where (is_live_in g) sessions ≡ 0 = rw (← same) none_live in
        rw (count_where-append (is_live_in g) sessions (session_row n), zero_here, own)
          (omega arith)
  ]

  pub concat-IsSound :
      (views : List RefreshSession)
      → count_where (is_live_in n.token_family_id) sessions ≡ 0
      → IsSound views sessions
      → IsSound views (sessions ++ session_row n ∷ [])
  concat-IsSound views none_live h = record {
    unique = λ id. unique_after id (h.unique id);
    single = λ g. single_after g none_live (h.single g);
    seen =
        All-map (λ r. IsView r sessions) (λ r. IsView r (sessions ++ session_row n ∷ [])) views
          (λ r v. concat-IsView r v) h.seen;
  }
