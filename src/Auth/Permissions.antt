-- ===== src/Auth/Permissions.antt =====
-- The permissions of an actor against the roles of the person (access-token.guard.ts,
-- permissions.guard.ts of apps/api/src).
use lex_os.Prelude.{
  ℕ, All, sym, ◌≡◌, ◌↔◌, ◌⊎◌, refl, ap, none, some, Option-cases, Bool, true, false, ◌&&◌, ◌||◌,
  List, [], ◌∷◌, String, arith, inl, inr, text_eq, text_eq_iff, Bool-cases, any_where, ◌∙◌,
}
use mathlib.Core.List.{Memᴰ}
use lex_os.Auth.Rows.{Role}
use lex_os.Auth.State.{State}
use lex_os.Auth.Sessions.{ActorContext, Selected}
use lex_os.Auth.Guard.{
  AccessTokenPayload, add_permission, add_permissions, is_role_of, permissions_of, is_accepted,
  actor_of, find_actor_session, authenticated, has_all, has_permissions,
}

-- The role is of all organizations, or of this one.
abbrev pub IsFor : String → Role → Type 0
IsFor organization_id r = (r.organization_id ≡ none) ⊎ (r.organization_id ≡ some organization_id)

-- The specification: a role of the organization, or of all, has the permission.
abbrev pub Granted : String → List Role → String → Type 0
Granted organization_id roles c =
    (r : Role) × Memᴰ r roles × IsFor organization_id r × Memᴰ c r.permissions

-- The same as the code tests it.
abbrev grants : String → String → List Role → Bool
grants organization_id c [] = false
grants organization_id c (r ∷ rs) =
    (is_role_of organization_id r && any_where (text_eq c) r.permissions)
    || grants organization_id c rs

any_where-same :
    (c d : String) (cs : List String)
    → text_eq d c ≡ true
    → any_where (text_eq c) cs ≡ any_where (text_eq d) cs
any_where-same c d cs h = let same : d ≡ c = (text_eq_iff d c).0 h in rw same refl

any_where-add_permission :
    (c d : String) (cs : List String)
    → any_where (text_eq c) (add_permission d cs) ≡ (text_eq c d || any_where (text_eq c) cs)
unfolding add_permission
any_where-add_permission c d cs = elim (Bool-cases (any_where (text_eq d) cs)) [
  | inr new ↦ rw new refl
  | inl old ↦ rw old (elim (Bool-cases (text_eq c d)) [
    | inr other ↦ rw other refl
    | inl same ↦
        let is_d : c ≡ d = (text_eq_iff c d).0 same in
        let there : any_where (text_eq c) cs ≡ true = rw is_d old in rw (same, there) refl
  ])
]

any_where-add_permissions :
    (c : String) (ps cs : List String)
    → any_where (text_eq c) (add_permissions ps cs)
      ≡ (any_where (text_eq c) ps || any_where (text_eq c) cs)
unfolding add_permissions
any_where-add_permissions c [] cs = refl
any_where-add_permissions c (p ∷ ps) cs =
    any_where-add_permissions c ps (add_permission p cs)
    ∙ rw (any_where-add_permission c p cs) (ground arith)

any_where-permissions_of :
    (organization_id c : String) (rs : List Role) (cs : List String)
    → any_where (text_eq c) (permissions_of organization_id rs cs)
      ≡ (grants organization_id c rs || any_where (text_eq c) cs)
unfolding permissions_of
any_where-permissions_of organization_id c [] cs = refl
any_where-permissions_of organization_id c (r ∷ rs) cs =
    elim (Bool-cases (is_role_of organization_id r)) [
      | inl own ↦ rw own (
          any_where-permissions_of organization_id c rs (add_permissions r.permissions cs)
          ∙ rw (any_where-add_permissions c r.permissions cs) (ground arith))
      | inr other ↦ rw other (any_where-permissions_of organization_id c rs cs)
    ]

is_role_of_iff :
    (organization_id : String) (r : Role)
    → (is_role_of organization_id r ≡ true) ↔ IsFor organization_id r
unfolding is_role_of
is_role_of_iff organization_id r = elim (Option-cases r.organization_id) [
  | inl all ↦ rw all ((λ _. inl refl), (λ _. refl))
  | inr (o, own) ↦ rw own (
    (λ h. inr (ap some ((text_eq_iff o organization_id).0 h))),
    (λ h. ground (arith, text_eq_iff o organization_id)),
  )
]

any_where-Memᴰ : (c : String) (cs : List String) → any_where (text_eq c) cs ≡ true → Memᴰ c cs
any_where-Memᴰ c [] h = absurd (cc)
any_where-Memᴰ c (d ∷ ds) h = elim (Bool-cases (text_eq c d)) [
  | inl same ↦ Memᴰ.head ((text_eq_iff c d).0 same)
  | inr other ↦ Memᴰ.tail (any_where-Memᴰ c ds (rw other at h))
]

any_where_of_Memᴰ : (c : String) (cs : List String) → Memᴰ c cs → any_where (text_eq c) cs ≡ true
any_where_of_Memᴰ c [] m = elim m [ ]
any_where_of_Memᴰ c (d ∷ ds) (Memᴰ.head e) = rw ((text_eq_iff c d).1 e) refl
any_where_of_Memᴰ c (d ∷ ds) (Memᴰ.tail m) = ground (arith, any_where_of_Memᴰ c ds m)

module _ (o c : String) where
  granted : (roles : List Role) → grants o c roles ≡ true → Granted o roles c
  granted [] h = absurd (cc)
  granted (r ∷ rs) h = elim (Bool-cases (is_role_of o r && any_where (text_eq c) r.permissions)) [
    | inl here ↦ (
      r,
      Memᴰ.head refl,
      (is_role_of_iff o r).0 (ground arith),
      any_where-Memᴰ c r.permissions (ground arith),
    )
    | inr later ↦ let (x, m, own, has) = granted rs (rw later at h) in (x, Memᴰ.tail m, own, has)
  ]

  grants_of : (roles : List Role) → Granted o roles c → grants o c roles ≡ true
  grants_of [] (x, m, own, has) = elim m [ ]
  grants_of (r ∷ rs) (x, Memᴰ.head e, own, has) =
      let here : is_role_of o r ≡ true = rw (← e) ((is_role_of_iff o x).1 own) in
      let there : any_where (text_eq c) r.permissions ≡ true =
        rw (← e) (any_where_of_Memᴰ c x.permissions has) in
      rw (here, there) refl
  grants_of (r ∷ rs) (x, Memᴰ.tail m, own, has) = ground (arith, grants_of rs (x, m, own, has))

  -- A code of the set that the guard builds.
  permissions_of-Granted :
      (roles : List Role)
      → (any_where (text_eq c) (permissions_of o roles []) ≡ true) ↔ Granted o roles c
  permissions_of-Granted roles =
      let same = any_where-permissions_of o c roles [] ∙ or_false (grants o c roles) in
      ((λ h. granted roles (sym same ∙ h)), (λ g. same ∙ grants_of roles g))
    where
      or_false : (b : Bool) → (b || false) ≡ b
      or_false true = refl
      or_false false = refl

has_all-Granted :
    (o : String) (roles : List Role) (required : List String)
    → (has_all required (permissions_of o roles []) ≡ true) ↔ All (Granted o roles) required
unfolding has_all
has_all-Granted o roles [] = ((λ _. tt), (λ _. refl))
has_all-Granted o roles (c ∷ cs) =
    let (to, from) = permissions_of-Granted o c roles in
    let (to', from') = has_all-Granted o roles cs in
    ((λ h. (to (ground arith), to' (ground arith))), (λ g. rw (from g.0) (from' g.1)))

actor_of-permissions :
    (p : AccessTokenPayload) (now : ℕ) (x : Selected) (a : ActorContext)
    → actor_of p now (some x) ≡ some a
    → a.permissions ≡ permissions_of x.session.organization_id x.user.roles []
unfolding actor_of
actor_of-permissions p now x a e = elim (Bool-cases (is_accepted p now x)) [
  | inr refused ↦ absurd (cc (rw refused at e))
  | inl accepted ↦ let made = rw accepted at e in ground arith
]

-- A person whom the guard of tokens lets in passes the guard of permissions exactly if each
-- permission that the route requires is one of a role of that person, and the role is of the
-- organization of the session or of all organizations.
pub has_permissions-Granted :
    (p : AccessTokenPayload) (now : ℕ) (s : State) (x : Selected) (a : ActorContext)
    (required : List String)
    → find_actor_session p.sid s ≡ some x
    → authenticated now (some p) s ≡ some a
    → (has_permissions required (some a) ≡ true)
      ↔ All (Granted x.session.organization_id x.user.roles) required
unfolding authenticated has_permissions
has_permissions-Granted p now s x a [] found e = ((λ _. tt), (λ _. refl))
has_permissions-Granted p now s x a (c ∷ cs) found e =
    let e' : actor_of p now (some x) ≡ some a = rw found at e in
    let same = actor_of-permissions p now x a e' in
    rw same (has_all-Granted x.session.organization_id x.user.roles (c ∷ cs))
