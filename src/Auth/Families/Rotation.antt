-- ===== src/Auth/Families/Rotation.antt =====
-- `refresh` and `logout` of apps/api/src/auth/auth.service.ts keep the families of tokens sound.
use lex_os.Prelude.{
  ℕ, ◌+◌, ◌≡◌, refl, Bool, true, false, not, ◌||◌, Option, none, some, List, [], ◌∷◌, String, arith,
  inl, inr, text_eq, text_eq_iff, leb, ◌==◌, Bool-cases, any_where, count_where, update_where, All,
}
use lex_os.Auth.Rows.{Organization, User, RefreshSession, AuditEvent}
use lex_os.Auth.State.{
  State, ◌>>=◌, ◌>>◌, return, query, modify, refuse_if, record_event, is_active_identity, continue,
}
use lex_os.Auth.Sessions.{
  NewSession, Request, ActorContext, has_id, clashes_with, create_refresh_session, can_rotate,
  rotated, mark_refresh_session_rotated, is_open_in, revoked, revoke_token_family, is_replayed,
  deny_replay, deny_inactive, next_session, after_rotation, rotate_session, refresh_found,
  revoke_for_logout, logout,
}
use lex_os.Auth.Frame.{
  Triple, Keeps, then-Triple, bind-Keeps, then-Keeps, in_transaction-Keeps, query-Keeps,
  return-Keeps, throw-Keeps,
}
use lex_os.Auth.Families.{
  is_live_in, IsView, IsSound, IsNarrowing, update_where-IsSound, concat-IsSound,
}

revoked-IsNarrowing : (at : ℕ) (reason : String) → IsNarrowing (revoked at reason)
unfolding is_live_in
revoked-IsNarrowing at reason = record {
  id = λ r. refl;
  family = λ r. refl;
  live = λ g r h. ground arith;
}

rotated-IsNarrowing : (at : ℕ) → IsNarrowing (rotated at)
unfolding is_live_in
rotated-IsNarrowing at = record { id = λ r. refl; family = λ r. refl; live = λ g r h. ground arith }

-- After a rotation that counts one row, the family of that row has no live token.
none_live_after :
    (id family : String) (at : ℕ) (xs : List RefreshSession)
    → All (λ y. has_id id y ≡ true → y.token_family_id ≡ family) xs
    → count_where (is_live_in family) xs
      ≡ count_where (can_rotate id at) xs
        + count_where (is_live_in family) (update_where (can_rotate id at) (rotated at) xs)
unfolding can_rotate is_live_in
none_live_after id family at [] h = refl
none_live_after id family at (x ∷ xs) h = elim (Bool-cases (has_id id x)) [
  | inl own ↦
      let same : x.token_family_id ≡ family = h.0 own in
      let its : text_eq x.token_family_id family ≡ true =
        (text_eq_iff x.token_family_id family).1 same in
      ground (arith, none_live_after id family at xs h.1)
  | inr other ↦ ground (arith, none_live_after id family at xs h.1)
]

module _ (views : List RefreshSession) where
  abbrev pub Families : State → Type 0
  Families s = IsSound views s.sessions

  pub record_event-Keeps : (e : AuditEvent) → Keeps Families (record_event e)
  unfolding record_event modify
  record_event-Keeps e s h = h

  pub revoke_token_family-Keeps :
      (family : String) (at : ℕ) (reason : String)
      → Keeps Families (revoke_token_family family at reason)
  unfolding revoke_token_family modify
  revoke_token_family-Keeps family at reason s h =
      update_where-IsSound (is_open_in family) (revoked at reason) (revoked-IsNarrowing at reason)
        views s.sessions h

  pub create-Triple :
      (n : NewSession)
      → Triple
          (λ s.
            IsSound views s.sessions × (count_where (is_live_in n.token_family_id) s.sessions ≡ 0))
          (create_refresh_session n)
          Families
  unfolding create_refresh_session query modify ◌>>=◌ ◌>>◌ refuse_if continue
  create-Triple n s h = elim (Bool-cases (any_where (clashes_with n) s.sessions)) [
    | inl taken ↦ rw taken h.0
    | inr new ↦ rw new (concat-IsSound n s.sessions new views h.1 h.0)
  ]

  deny_replay-Keeps : (q : Request) (r : RefreshSession) → Keeps Families (deny_replay q r)
  unfolding deny_replay
  deny_replay-Keeps q r =
      then-Keeps Families _ _ (revoke_token_family-Keeps r.token_family_id q.now "REPLAY_DETECTED")
        (then-Keeps Families _ _ (record_event-Keeps _) (return-Keeps Families _))

  deny_inactive-Keeps :
      (q : Request) (r : RefreshSession) (b : Bool) → Keeps Families (deny_inactive q r b)
  unfolding deny_inactive
  deny_inactive-Keeps q r b =
      then-Keeps Families _ _ (revoke_token_family-Keeps r.token_family_id q.now _)
        (then-Keeps Families _ _ (record_event-Keeps _) (return-Keeps Families _))

  after_rotation-lost :
      (q : Request) (r : RefreshSession) (u : User) → Keeps Families (after_rotation q r u false)
  unfolding after_rotation
  after_rotation-lost q r u = deny_replay-Keeps q r

  -- No token of the family of a row is live.
  abbrev pub NoneLive : String → State → Type 0
  NoneLive family s = IsSound views s.sessions × (count_where (is_live_in family) s.sessions ≡ 0)

  after_rotation-Triple :
      (q : Request) (r : RefreshSession) (u : User)
      → Triple (NoneLive r.token_family_id) (after_rotation q r u true) Families
  unfolding after_rotation
  after_rotation-Triple q r u =
      then-Triple (NoneLive r.token_family_id) Families Families _ _ (λ s h. h)
        (create-Triple (next_session q r))
        (then-Keeps Families _ _ (record_event-Keeps _) (return-Keeps Families _))

  rotate_session_sound :
      (q : Request) (r : RefreshSession) (u : User) (s : State)
      → IsView r s.sessions
      → Families s
      → Families (rotate_session q r u s).1
  unfolding rotate_session mark_refresh_session_rotated query modify return ◌>>=◌ ◌>>◌ continue
  rotate_session_sound q r u s view h =
      let xs = update_where (can_rotate r.id q.now) (rotated q.now) s.sessions in
      let s' : State = record s { sessions = xs } in
      let sound : IsSound views xs =
        update_where-IsSound (can_rotate r.id q.now) (rotated q.now) (rotated-IsNarrowing q.now)
          views s.sessions h in
      elim (Bool-cases (count_where (can_rotate r.id q.now) s.sessions == 1)) [
        | inr lost ↦ rw lost (after_rotation-lost q r u s' sound)
        | inl won ↦
            let none_left : count_where (is_live_in r.token_family_id) xs ≡ 0 = ground (
              arith,
              none_live_after r.id r.token_family_id q.now s.sessions view.family,
              h.single r.token_family_id,
            ) in
            rw won (after_rotation-Triple q r u s' (sound, none_left))
      ]

  -- A refresh on a session that was read before, whatever happened in between.
  pub refresh_found_sound :
      (q : Request) (r : RefreshSession) (u : User) (o : Organization) (s : State)
      → IsView r s.sessions
      → Families s
      → Families (refresh_found q r u o s).1
  unfolding refresh_found
  refresh_found_sound q r u o s view h = elim (Bool-cases (is_replayed r)) [
    | inl replayed ↦ rw replayed (deny_replay-Keeps q r s h)
    | inr fresh ↦ elim (Bool-cases (not (is_active_identity u o) || leb r.expires_at q.now)) [
      | inl over ↦ rw (fresh, over) (deny_inactive-Keeps q r (is_active_identity u o) s h)
      | inr good ↦ rw (fresh, good) (rotate_session_sound q r u s view h)
    ]
  ]

  revoke_for_logout-Keeps :
      (q : Request) (a : ActorContext) (o : Option RefreshSession)
      → Keeps Families (revoke_for_logout q a o)
  unfolding revoke_for_logout
  revoke_for_logout-Keeps q a none = throw-Keeps Families (Unit {0}) "INVALID_SESSION"
  revoke_for_logout-Keeps q a (some r) =
      then-Keeps Families _ _ (revoke_token_family-Keeps r.token_family_id q.now "LOGOUT")
        (record_event-Keeps _)

  pub logout-Keeps : (q : Request) (a : ActorContext) → Keeps Families (logout q a)
  unfolding logout
  logout-Keeps q a =
      in_transaction-Keeps Families _
        (bind-Keeps Families _ _ (query-Keeps Families _) (λ o. revoke_for_logout-Keeps q a o))
