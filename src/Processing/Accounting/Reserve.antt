-- ===== src/Processing/Accounting/Reserve.antt =====
-- The whole of a claim keeps the accounting: the reservation fits the budget or the job is blocked.
use lex_os.Prelude.{
  ℕ, zero, suc, ◌+◌, ◌≤◌, ◌≡◌, refl, ◌∙◌, ap, inl, inr, false, some, List, ok, arith, text_eq,
  Bool-cases, Option-cases,
}
use native.Mathlib.Nat.{add-zero}
use lex_os.Processing.Status.{JobStatus, JobType, same_status, same_type, is_terminal}
use lex_os.Processing.Rows.{Job, CaseRow}
use lex_os.Processing.Store.{Store, lift, lock_case}
use lex_os.Processing.Target.{Claimed, JobTarget, join_job, narrow, assert_tenant_relationships}
use lex_os.Processing.Claim.{
  Call, ClaimResult, skip, is_claimable, start, to_reserve, is_blocked, reserve_amount, reserve_in,
  reserve, claim_checked, claim_related, claim_current,
}
use lex_os.Processing.Accounting.{Fresh, Sound}
use lex_os.Processing.Accounting.Moves.{Moves-refl, Moves-update_case}
use lex_os.Processing.Accounting.Frame.{bind-eq-ok, then-eq-ok, lift-eq-ok}
use lex_os.Processing.Accounting.Claim.{with_claimed, start-Sound, block-Sound}

not-blocked :
    (quoted : ℕ) (j : Job) (c : CaseRow)
    → is_blocked quoted j c ≡ false
    → c.spent + c.reserved + to_reserve quoted j ≤ c.limit
unfolding is_blocked
not-blocked quoted j c h = ground arith

module _ (call : Call) (quoted : ℕ) (h : Claimed) (s s' : Store) (r : ClaimResult)
    (views : List Job) (sound : Sound s.jobs s.cases views) (fresh : Fresh s.jobs h.job)
    (linked : h.job.case_id ≡ some h.case_id) where
  -- A start that reserves nothing.
  start-Sound_zero : start call h 0 s ≡ ok (r, s') → Sound s'.jobs s'.cases (with_claimed r views)
  start-Sound_zero e =
      start-Sound call h 0 s s s' r views sound fresh refl
        (rw add-zero (Moves-refl h.job s.jobs s.cases views sound)) e

  reserve_amount-Sound :
      (n : ℕ) (c : CaseRow)
      → lock_case h.job.organization_id h.case_id s ≡ some c
      → c.spent + c.reserved + n ≤ c.limit
      → reserve_amount call h n s ≡ ok (r, s')
      → Sound s'.jobs s'.cases (with_claimed r views)
  unfolding reserve_amount
  reserve_amount-Sound zero c locked fits e = start-Sound_zero e
  reserve_amount-Sound (suc n) c locked fits e =
      let (t, updated, started) = then-eq-ok _ _ s s' r e in
      let (same, moves) =
        Moves-update_case h.job (h.job.reserved_cost + suc n) h.job.organization_id h.case_id _ c s
          t sound.within linked locked (omega arith) (omega arith) updated in
      start-Sound call h (suc n) s t s' r views sound fresh same moves started

  reserve_in-Sound :
      (c : CaseRow)
      → lock_case h.job.organization_id h.case_id s ≡ some c
      → reserve_in call quoted h c s ≡ ok (r, s')
      → Sound s'.jobs s'.cases (with_claimed r views)
  unfolding reserve_in
  reserve_in-Sound c locked e = elim (Bool-cases (text_eq c.currency call.quote.currency)) [
    | inr other ↦ absurd (cc (rw other at e))
    | inl same ↦ elim (Bool-cases (is_blocked quoted h.job c)) [
      | inl blocked ↦
          block-Sound call h c s s' r views sound fresh linked locked (rw (same, blocked) at e)
      | inr free ↦
          reserve_amount-Sound (to_reserve quoted h.job) c locked (not-blocked quoted h.job c free)
            (rw (same, free) at e)
    ]
  ]

  reserve-Sound :
      reserve call quoted h s ≡ ok (r, s') → Sound s'.jobs s'.cases (with_claimed r views)
  unfolding reserve
  reserve-Sound e = elim (Option-cases (lock_case h.job.organization_id h.case_id s)) [
    | inl gone ↦ absurd (cc (rw (gone, reserve) at e))
    | inr (c, locked) ↦ reserve_in-Sound c locked (rw (locked, reserve) at e)
  ]

narrow-eq-some :
    (t : JobTarget) (h : Claimed)
    → narrow t ≡ some h
    → (h.job ≡ t.job) × (t.job.case_id ≡ some h.case_id)
unfolding narrow
narrow-eq-some t h e = ground arith

-- The check of the relations passes the row on, with its case.
pub assert_tenant-eq-ok :
    (t : JobTarget) (h : Claimed)
    → assert_tenant_relationships t ≡ ok h
    → (h.job ≡ t.job) × (t.job.case_id ≡ some h.case_id)
unfolding assert_tenant_relationships
assert_tenant-eq-ok t h e = elim (Option-cases (narrow t)) [
  | inl gone ↦ absurd (cc (rw (gone, assert_tenant_relationships) at e))
  | inr (n, found) ↦
      let e' = rw (found, assert_tenant_relationships) at e in
      let same : n ≡ h = ground arith in narrow-eq-some t h (found ∙ ap some same)
]

claim_checked-Sound :
    (call : Call) (h : Claimed) (status : JobStatus) (s s' : Store) (r : ClaimResult)
    (views : List Job)
    → Sound s.jobs s.cases views
    → Fresh s.jobs h.job
    → h.job.case_id ≡ some h.case_id
    → claim_checked call status h s ≡ ok (r, s')
    → Sound s'.jobs s'.cases (with_claimed r views)
unfolding claim_checked
claim_checked-Sound call h status s s' r views sound fresh linked e =
    let (t, lifted, rest) = then-eq-ok _ _ s s' r e in
    let (_, same) = lift-eq-ok _ s t tt lifted in
    let (quoted, u, parsed, body) = bind-eq-ok _ _ t s' r rest in
    let (_, same') = lift-eq-ok _ t u quoted parsed in
    let body' = rw (same', same) at body in
    elim (Bool-cases (same_status status JobStatus.processing)) [
      | inl running ↦
          start-Sound_zero call quoted h s s' r views sound fresh linked (rw running at body')
      | inr waits ↦ reserve-Sound call quoted h s s' r views sound fresh linked (rw waits at body')
    ]

claim_related-Sound :
    (call : Call) (j : Job) (s s' : Store) (r : ClaimResult) (views : List Job)
    → Sound s.jobs s.cases views
    → Fresh s.jobs j
    → claim_related call j s ≡ ok (r, s')
    → Sound s'.jobs s'.cases (with_claimed r views)
unfolding claim_related join_job
claim_related-Sound call j s s' r views sound fresh e =
    let (h, t, checked, rest) =
      bind-eq-ok (lift (assert_tenant_relationships (join_job s j))) (claim_checked call j.status) s
        s' r e in
    let (accepted, same) = lift-eq-ok _ s t h checked in
    let (is_j, linked) = assert_tenant-eq-ok (join_job s j) h accepted in
    claim_checked-Sound call h j.status s s' r views sound (rw is_j fresh)
      (ap (λ (k : Job). k.case_id) is_j ∙ linked) (rw same at rest)

-- From a sound state, a claim that returns, of a row that was read earlier and is fresh, ends in a
-- sound state, whether it starts, skips or blocks the job; a job that it hands out is a fresh view.
pub claim_current-Sound :
    (call : Call) (expected : JobType) (j : Job) (s s' : Store) (r : ClaimResult) (views : List Job)
    → Sound s.jobs s.cases views
    → Fresh s.jobs j
    → claim_current call expected j s ≡ ok (r, s')
    → Sound s'.jobs s'.cases (with_claimed r views)
unfolding claim_current
claim_current-Sound call expected j s s' r views sound fresh e =
    elim (Bool-cases (same_type j.job_type expected)) [
      | inr other ↦ absurd (cc (rw other at e))
      | inl same ↦ elim (Bool-cases (is_terminal j.status)) [
        | inl over ↦
            let skipped = rw (same, over) at e in
            let result : r ≡ skip (some j.status) = cc skipped in
            let store : s' ≡ s = cc skipped in rw (result, store) sound
        | inr runs ↦ elim (Bool-cases (is_claimable j.status)) [
          | inr bad ↦ absurd (cc (rw (same, runs, bad) at e))
          | inl good ↦
              claim_related-Sound call j s s' r views sound fresh (rw (same, runs, good) at e)
        ]
      ]
    ]
