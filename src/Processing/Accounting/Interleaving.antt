-- ===== src/Processing/Accounting/Interleaving.antt =====
-- Workers, people and the reconciler act in any order: the accounting holds in every state that
-- they reach. A read of a row and the write that goes by it are two steps, with any others in
-- between, also of a cancellation, which reads its row without a lock; a transaction that throws is
-- no step, since it changes nothing, and neither is a cancellation that finds nothing to cancel.
use mathlib.Core.List.{Memᴰ}
use lex_os.Prelude.{
  ℕ, ◌+◌, ◌≤◌, ◌≡◌, refl, sym, ap, ◌⊎◌, inl, inr, Bool, true, false, Option, some, List, [], ◌∷◌,
  String, ok, ◌∙◌, sum_of, arith, subst, ltb, text_eq, text_eq_iff, All, Bool-cases, Option-cases,
}
use lex_os.Processing.Status.{JobType}
use lex_os.Processing.Rows.{Job, CaseRow}
use lex_os.Processing.Store.{Store, find_job, lock_case, update_row}
use lex_os.Processing.Target.{Claimed}
use lex_os.Processing.Claim.{Call, ClaimResult, claim_current}
use lex_os.Processing.Completion.{StageCompletion, Runtime, MeasuredCost}
use lex_os.Processing.Complete.{NextJob, complete}
use lex_os.Processing.Settle.{Failure, retry, fail, is_cancellable, cancel_current}
use lex_os.Processing.Limit.{LimitOutcome, with_limit, update_processing_budget}
use lex_os.Processing.Accounting.{held_for, Fresh, Sound}
use lex_os.Processing.Accounting.Moves.{locked-case}
use lex_os.Processing.Accounting.Claim.{with_claimed}
use lex_os.Processing.Accounting.Reserve.{claim_current-Sound}
use lex_os.Processing.Accounting.Settle.{retry-Sound, fail-Sound}
use lex_os.Processing.Accounting.Release.{found-Fresh}
use lex_os.Processing.Accounting.Cancel.{cancel_current-Sound_won, cancel_current-Sound_lost}
use lex_os.Processing.Accounting.Complete.{complete-Sound}

pub record World : Type 0 where
  pub store : Store
  -- The rows that some worker has read, and the snapshots that it holds while it executes.
  pub views : List Job

-- In the source `case_id` of a claimed job and of its row are one field.
abbrev pub IsHeld : World → Claimed → Type 0
IsHeld w h = Memᴰ h.job w.views × (h.job.case_id ≡ some h.case_id)

pub data Step (w : World) : World → Type 0 where
  reads :
      (organization_id id : String) (j : Job)
      → find_job organization_id id w.store.jobs ≡ some j
      → Step w (record { store = w.store; views = j ∷ w.views })
  claims :
      (call : Call) (expected : JobType) (j : Job) (r : ClaimResult) (s : Store)
      → Memᴰ j w.views
      → claim_current call expected j w.store ≡ ok (r, s)
      → Step w (record { store = s; views = with_claimed r w.views })
  completes :
      (env : Runtime) (h : Claimed) (c : StageCompletion) (next : Option NextJob) (s : Store)
      → IsHeld w h
      → complete env h c w.store ≡ ok (next, s)
      → Step w (record { store = s; views = w.views })
  retries :
      (x : Failure) (h : Claimed) (s : Store)
      → IsHeld w h
      → retry x h w.store ≡ ok (tt, s)
      → Step w (record { store = s; views = w.views })
  fails :
      (x : Failure) (h : Claimed) (cost : MeasuredCost) (s : Store)
      → IsHeld w h
      → fail x h cost w.store ≡ ok (tt, s)
      → Step w (record { store = s; views = w.views })
  cancels :
      (now : ℕ) (correlation_id : String) (j : Job) (done : Bool) (s : Store)
      → Memᴰ j w.views
      → is_cancellable j.status ≡ true
      → cancel_current now correlation_id j w.store ≡ ok (done, s)
      → Step w (record { store = s; views = w.views })
  limits :
      (now : ℕ) (organization_id id : String) (limit : ℕ) (outcome : LimitOutcome) (s : Store)
      → update_processing_budget now organization_id id limit w.store ≡ ok (outcome, s)
      → Step w (record { store = s; views = w.views })

pub data Reach (w : World) : World → Type 0 where
  here : Reach w w
  next : {u v : World} → Reach w u → Step u v → Reach w v

-- A cancellation that loses its race does not release a reservation.
abbrev pub IsClean : {w v : World} → Step w v → Type 0
IsClean (Step.cancels now correlation_id j done s _ _ _) = (done ≡ true) ⊎ (j.reserved_cost ≡ 0)
IsClean _ = Unit {0}

abbrev pub AllClean : {w v : World} → Reach w v → Type 0
AllClean Reach.here = Unit {0}
AllClean (Reach.next before step) = AllClean before × IsClean step

abbrev pub IsSound : World → Type 0
IsSound w = Sound w.store.jobs w.store.cases w.views

All-Memᴰ {ℓ κ} : {A : Type ℓ} (P : A → Type κ) {x : A} (xs : List A) → All P xs → Memᴰ x xs → P x
All-Memᴰ P [] h m = elim m [ ]
All-Memᴰ P (y ∷ ys) h (Memᴰ.head e) = subst P (sym e) h.0
All-Memᴰ P (y ∷ ys) h (Memᴰ.tail m) = All-Memᴰ P ys h.1 m

view : (w : World) (j : Job) → IsSound w → Memᴰ j w.views → Fresh w.store.jobs j
view w j h m = All-Memᴰ (Fresh w.store.jobs) w.views h.fresh m

with_limit-fits :
    (now limit : ℕ) (c : CaseRow)
    → ltb limit (c.spent + c.reserved) ≡ false
    → ((with_limit now limit c).reserved ≡ c.reserved)
      × ((with_limit now limit c).spent + (with_limit now limit c).reserved
          ≤ (with_limit now limit c).limit)
unfolding with_limit
with_limit-fits now limit c h = (refl, ground arith)

-- A case after the change: the changed one, or one that was there before.
limited-case :
    (now limit : ℕ) (id : String) (c : CaseRow) (jobs : List Job) (cases : String → Option CaseRow)
    (views : List Job)
    → Sound jobs cases views
    → cases id ≡ some c
    → ltb limit (c.spent + c.reserved) ≡ false
    → (k : String) (c' : CaseRow) → update_row id (with_limit now limit) cases k ≡ some c'
    → (c'.reserved ≡ sum_of (held_for k) jobs) × (c'.spent + c'.reserved ≤ c'.limit)
limited-case now limit id c jobs cases views h found fits k c' e =
    elim (Bool-cases (text_eq k id)) [
      | inl hit ↦
          let is_id : k ≡ id = (text_eq_iff k id).0 hit in
          let here : cases k ≡ some c = ap cases is_id ∙ found in
          let changed : some (with_limit now limit c) ≡ some c' = rw (hit, here) at e in
          let same : with_limit now limit c ≡ c' = cc in
          let (kept, inside) = with_limit-fits now limit c fits in
          subst (λ d. (d.reserved ≡ sum_of (held_for k) jobs) × (d.spent + d.reserved ≤ d.limit))
            same (kept ∙ h.accounted k c here, inside)
      | inr other ↦
          let before : cases k ≡ some c' = rw other at e in
          (h.accounted k c' before, h.within k c' before)
    ]

-- From a sound state, a change of the limit of a case that returns ends in a sound state, on each
-- of its outcomes.
pub limit-Sound :
    (now limit : ℕ) (organization_id id : String) (outcome : LimitOutcome) (s s' : Store)
    (views : List Job)
    → Sound s.jobs s.cases views
    → update_processing_budget now organization_id id limit s ≡ ok (outcome, s')
    → Sound s'.jobs s'.cases views
unfolding update_processing_budget
limit-Sound now limit organization_id id outcome s s' views h e =
    elim (Option-cases (lock_case organization_id id s)) [
      | inl missing ↦
          let r : ok (LimitOutcome.not_found, s) ≡ ok (outcome, s') =
            rw (missing, update_processing_budget) at e in
          let same : s ≡ s' = cc in subst (λ t. Sound t.jobs t.cases views) same h
      | inr (c, locked) ↦ elim (Bool-cases (ltb limit (c.spent + c.reserved))) [
        | inl below ↦
            let r : ok (LimitOutcome.below_committed_cost, s) ≡ ok (outcome, s') =
              rw (locked, update_processing_budget, below) at e in
            let same : s ≡ s' = cc in subst (λ t. Sound t.jobs t.cases views) same h
        | inr fits ↦
            let (found, _) = locked-case organization_id id c s locked in
            let changed = limited-case now limit id c s.jobs s.cases views h found fits in
            let r : ok (
              LimitOutcome.updated (with_limit now limit c),
              record s { cases = update_row id (with_limit now limit) s.cases },
            )
                ≡ ok (outcome, s') =
              rw (locked, update_processing_budget, fits) at e in
            let same : record s { cases = update_row id (with_limit now limit) s.cases } ≡ s' =
              cc in
            subst (λ t. Sound t.jobs t.cases views) same
              (record {
                unique = h.unique;
                accounted = λ k c' e'. (changed k c' e').0;
                within = λ k c' e'. (changed k c' e').1;
                fresh = h.fresh;
              })
      ]
    ]

-- A held snapshot is as fresh as the row that it was read from.
with_view :
    (w : World) (j : Job)
    → IsSound w
    → Memᴰ j w.views
    → Sound w.store.jobs w.store.cases (j ∷ w.views)
with_view w j h m = record {
  unique = h.unique;
  accounted = h.accounted;
  within = h.within;
  fresh = (view w j h m, h.fresh);
}

without_view :
    (j : Job) (jobs : List Job) (cases : String → Option CaseRow) (views : List Job)
    → Sound jobs cases (j ∷ views)
    → Sound jobs cases views
without_view j jobs cases views h = record {
  unique = h.unique;
  accounted = h.accounted;
  within = h.within;
  fresh = h.fresh.1;
}

cancels-IsSound :
    (w : World) (now : ℕ) (correlation_id : String) (j : Job) (done : Bool) (s : Store)
    → IsSound w
    → Memᴰ j w.views
    → (done ≡ true) ⊎ (j.reserved_cost ≡ 0)
    → cancel_current now correlation_id j w.store ≡ ok (done, s)
    → Sound s.jobs s.cases w.views
cancels-IsSound w now correlation_id j true s h m clean e =
    (cancel_current-Sound_won now correlation_id j w.store s true w.views h (view w j h m) refl e).0
cancels-IsSound w now correlation_id j false s h m (inl won) e = absurd (cc)
cancels-IsSound w now correlation_id j false s h m (inr free) e =
    cancel_current-Sound_lost now correlation_id j w.store s false w.views h free refl e

Step-IsSound : {u v : World} (step : Step u v) → IsClean step → IsSound u → IsSound v
Step-IsSound {u} (Step.reads organization_id id j found) clean h = record {
  unique = h.unique;
  accounted = h.accounted;
  within = h.within;
  fresh = (found-Fresh organization_id id u.store.jobs j h.unique found, h.fresh);
}
Step-IsSound {u} (Step.claims call expected j r s m e) clean h =
    claim_current-Sound call expected j u.store s r u.views h (view u j h m) e
Step-IsSound {u} (Step.completes env j c following s (m, linked) e) clean h =
    without_view j.job s.jobs s.cases u.views
      (complete-Sound env j c u.store s following u.views (with_view u j.job h m) linked e).0
Step-IsSound {u} (Step.retries x j s (m, linked) e) clean h =
    (retry-Sound x j u.store s u.views h (view u j.job h m) e).0
Step-IsSound {u} (Step.fails x j cost s (m, linked) e) clean h =
    (fail-Sound x j cost u.store s u.views h (view u j.job h m) linked e).0
Step-IsSound {u} (Step.cancels now correlation_id j done s m open_status e) clean h =
    cancels-IsSound u now correlation_id j done s h m clean e
Step-IsSound {u} (Step.limits now organization_id id limit outcome s e) clean h =
    limit-Sound now limit organization_id id outcome u.store s u.views h e

-- In any order of reads and transactions from a sound state, every state that is reached is
-- sound: a case shows exactly what its jobs hold, spent and reserved stay within the limit, job
-- identifiers are unique, and a row that was read earlier is out of date by its version, or says
-- the truth about its reservation. Every transaction may go by a row that was read earlier. The
-- condition is that each cancellation wins its race, or is of a row that held no reservation.
pub Reach-IsSound : {w v : World} (run : Reach w v) → AllClean run → IsSound w → IsSound v
Reach-IsSound Reach.here clean h = h
Reach-IsSound (Reach.next before step) clean h =
    Step-IsSound step clean.1 (Reach-IsSound before clean.0 h)
