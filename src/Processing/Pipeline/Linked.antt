-- ===== src/Processing/Pipeline/Linked.antt =====
-- A job that a claim hands out names its case in both places where the snapshot has it
-- (apps/worker/src/processing/processing.repository.ts): `caseId` is one field there.
use lex_os.Prelude.{
  ℕ, zero, suc, ◌≡◌, ◌∙◌, ap, inl, inr, some, ok, Bool-cases, Option-cases, text_eq,
}
use lex_os.Processing.Status.{JobStatus, JobType, same_status, same_type, is_terminal}
use lex_os.Processing.Rows.{Job, CaseRow}
use lex_os.Processing.Store.{Store, Tx, ◌>>=◌, ◌>>◌, return, lift, lock_case}
use lex_os.Processing.Target.{Claimed, join_job, assert_tenant_relationships}
use lex_os.Processing.Claim.{
  Call, ClaimResult, process, budget_limit_reached, skip, start, block, to_reserve, is_blocked,
  reserve_amount, reserve_in, reserve, is_claimable, claim_checked, claim_related, claim_current,
}
use lex_os.Processing.Accounting.Frame.{then-eq-ok, bind-eq-ok, lift-eq-ok, return-eq-ok}
use lex_os.Processing.Accounting.Reserve.{assert_tenant-eq-ok}

abbrev pub IsLinked : ClaimResult → Type 0
IsLinked (process h) = h.job.case_id ≡ some h.case_id
IsLinked _ = Unit

-- Every result of a transaction is linked.
record Links (m : Tx ClaimResult) : Type 0 where
  links : (s s' : Store) (r : ClaimResult) → m s ≡ ok (r, s') → IsLinked r

return-Links : (r : ClaimResult) → IsLinked r → Links (return r)
return-Links r h = record {
  links = λ s s' q e. let (same, _) = return-eq-ok r s s' q e in rw same h;
}

then-Links : (m : Tx (Unit {0})) (k : Tx ClaimResult) → Links k → Links (m >> k)
then-Links m k h = record {
  links = λ s s' r e. let (t, first, rest) = then-eq-ok m k s s' r e in h.links t s' r rest;
}

bind-Links :
    {A : Type 0} (m : Tx A) (k : A → Tx ClaimResult) → ((a : A) → Links (k a)) → Links (m >>= k)
bind-Links m k h = record {
  links = λ s s' r e. let (a, t, first, rest) = bind-eq-ok m k s s' r e in (h a).links t s' r rest;
}

start-Links :
    (call : Call) (h : Claimed) (n : ℕ) → h.job.case_id ≡ some h.case_id → Links (start call h n)
unfolding start
start-Links call h n linked =
    bind-Links _ _
      (λ count. then-Links _ _ (then-Links _ _ (then-Links _ _ (return-Links _ linked))))

block-Links : (call : Call) (h : Claimed) → Links (block call h)
unfolding block
block-Links call h = then-Links _ _ (
    bind-Links _ _ (λ count.
      then-Links _ _
        (then-Links _ _ (then-Links _ _ (then-Links _ _ (return-Links budget_limit_reached tt))))))

reserve_amount-Links :
    (call : Call) (h : Claimed) (n : ℕ)
    → h.job.case_id ≡ some h.case_id
    → Links (reserve_amount call h n)
unfolding reserve_amount
reserve_amount-Links call h zero linked = start-Links call h 0 linked
reserve_amount-Links call h (suc n) linked = then-Links _ _ (start-Links call h (suc n) linked)

module _ (call : Call) (quoted : ℕ) (h : Claimed) (linked : h.job.case_id ≡ some h.case_id)
    (s s' : Store) (r : ClaimResult) where
  reserve_in-IsLinked : (c : CaseRow) → reserve_in call quoted h c s ≡ ok (r, s') → IsLinked r
  unfolding reserve_in
  reserve_in-IsLinked c e = elim (Bool-cases (text_eq c.currency call.quote.currency)) [
    | inr other ↦ absurd (cc (rw other at e))
    | inl same ↦ elim (Bool-cases (is_blocked quoted h.job c)) [
      | inl blocked ↦ (block-Links call h).links s s' r (rw (same, blocked) at e)
      | inr free ↦
          (reserve_amount-Links call h (to_reserve quoted h.job) linked).links s s' r
            (rw (same, free) at e)
    ]
  ]

  reserve-IsLinked : reserve call quoted h s ≡ ok (r, s') → IsLinked r
  unfolding reserve
  reserve-IsLinked e = elim (Option-cases (lock_case h.job.organization_id h.case_id s)) [
    | inl gone ↦ absurd (cc (rw (gone, reserve) at e))
    | inr (c, locked) ↦ reserve_in-IsLinked c (rw (locked, reserve) at e)
  ]

claim_checked-IsLinked :
    (call : Call) (h : Claimed) (status : JobStatus) (s s' : Store) (r : ClaimResult)
    → h.job.case_id ≡ some h.case_id
    → claim_checked call status h s ≡ ok (r, s')
    → IsLinked r
unfolding claim_checked
claim_checked-IsLinked call h status s s' r linked e =
    let (t, lifted, rest) = then-eq-ok _ _ s s' r e in
    let (quoted, u, parsed, body) = bind-eq-ok _ _ t s' r rest in
    elim (Bool-cases (same_status status JobStatus.processing)) [
      | inl running ↦ (start-Links call h 0 linked).links u s' r (rw running at body)
      | inr waits ↦ reserve-IsLinked call quoted h linked u s' r (rw waits at body)
    ]

claim_related-IsLinked :
    (call : Call) (j : Job) (s s' : Store) (r : ClaimResult)
    → claim_related call j s ≡ ok (r, s')
    → IsLinked r
unfolding claim_related
claim_related-IsLinked call j s s' r e =
    let (h, t, checked, rest) =
      bind-eq-ok (lift (assert_tenant_relationships (join_job s j))) (claim_checked call j.status) s
        s' r e in
    let (accepted, same) = lift-eq-ok _ s t h checked in
    let (is_j, linked) = assert_tenant-eq-ok (join_job s j) h accepted in
    claim_checked-IsLinked call h j.status t s' r (ap (λ (k : Job). k.case_id) is_j ∙ linked) rest

pub claim_current-IsLinked :
    (call : Call) (expected : JobType) (j : Job) (s s' : Store) (r : ClaimResult)
    → claim_current call expected j s ≡ ok (r, s')
    → IsLinked r
unfolding claim_current
claim_current-IsLinked call expected j s s' r e =
    elim (Bool-cases (same_type j.job_type expected)) [
      | inr other ↦ absurd (cc (rw other at e))
      | inl same ↦ elim (Bool-cases (is_terminal j.status)) [
        | inl over ↦
            let result : r ≡ skip (some j.status) = cc (rw (same, over) at e) in rw result tt
        | inr runs ↦ elim (Bool-cases (is_claimable j.status)) [
          | inr bad ↦ absurd (cc (rw (same, runs, bad) at e))
          | inl good ↦ claim_related-IsLinked call j s s' r (rw (same, runs, good) at e)
        ]
      ]
    ]
