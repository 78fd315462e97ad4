-- ===== src/Processing/Accounting/Moves.antt =====
-- The invariant under the writes of the repository: a guarded update of one job, with the budget
-- of its case, and a new job.
use lex_os.Prelude.{
  ℕ, ◌+◌, ◌≤◌, ◌≡◌, refl, sym, ◌∙◌, ap, inl, inr, Bool, true, false, Option, none, some, List, [],
  ◌∷◌, ok, ◌++◌, String, text_eq, text_eq_iff, if◌then◌else◌, any_where, count_where, update_where,
  find_first, sum_of, arith, Bool-cases, All-find_first, find_first-holds, All-update_where,
  All-concat, All-map, sum_of-update_where, sum_of-append, find_first_of_count,
  count_where-update_where, any_where-update_where, count_where-append, any_where-append,
  count_where_of_any_where, found_row-update_where,
}
use mathlib.Core.Option
use lex_os.Processing.Status.{JobStatus}
use lex_os.Processing.Rows.{Job, CaseRow}
use lex_os.Processing.Store.{Store, at_version, lock_case, update_case, is_live_case}
use lex_os.Processing.Accounting.{has_id, held_for, Agrees, Fresh, Within, Sound}

abbrev pub guard_of : Job → JobStatus → Job → Bool
guard_of v status = at_version v.organization_id v.id status v.version

pub guarded-has_id :
    (v : Job) (status : JobStatus) (j : Job) → guard_of v status j ≡ true → has_id v.id j ≡ true
unfolding at_version
guarded-has_id v status j h = ground arith

guarded-version :
    (v : Job) (status : JobStatus) (j : Job) → guard_of v status j ≡ true → j.version ≡ v.version
unfolding at_version
guarded-version v status j h = ground arith

-- What every write of a job does, whatever else it changes.
pub record IsWrite (f : Job → Job) : Type 0 where
  pub id : (j : Job) → (f j).id ≡ j.id
  pub version : (j : Job) → (f j).version ≡ j.version + 1
  pub case_id : (j : Job) → (f j).case_id ≡ j.case_id

module _ (f : Job → Job) (write : IsWrite f) where
  same_id : (id : String) (j : Job) → has_id id (f j) ≡ has_id id j
  same_id id j = ap (λ i. text_eq i id) (write.id j)

  Fresh-update :
      (p : Job → Bool) (jobs : List Job) (w : Job) → Fresh jobs w → Fresh (update_where p f jobs) w
  Fresh-update p jobs w h = record {
    present = any_where-update_where (has_id w.id) p f jobs (same_id w.id) ∙ h.present;
    agrees =
        All-update_where (λ j. has_id w.id j ≡ true → Agrees w j) p f jobs
          (λ j a hit named. ground (arith, a (rw (← same_id w.id j) named), write.version j))
          h.agrees;
  }

-- What a reservation of a job holds of the budget of a case.
abbrev pub share : String → Job → ℕ → ℕ
share k v amount = elim v.case_id [ none ↦ 0 | some i ↦ if text_eq i k then amount else 0 ]

-- The cases after a write that gives `v` the reservation `amount`.
abbrev pub Moves : Job → ℕ → (String → Option CaseRow) → (String → Option CaseRow) → Type 0
Moves v amount cases cases' =
    (k : String) (c' : CaseRow)
    → cases' k ≡ some c'
    → (c : CaseRow) × (cases k ≡ some c)
      × (c'.reserved + share k v v.reserved_cost ≡ c.reserved + share k v amount)
      × (c'.spent + c'.reserved ≤ c'.limit)

-- The row that the guard of a fresh view finds is the view, for the accounting.
pub found-view :
    (v : Job) (status : JobStatus) (jobs : List Job) (r : Job)
    → Fresh jobs v
    → find_first (guard_of v status) jobs ≡ some r
    → (r.reserved_cost ≡ v.reserved_cost) × (r.case_id ≡ v.case_id)
found-view v status jobs r h e =
    let hit = find_first-holds (guard_of v status) jobs e in
    let old = guarded-version v status r hit in
    let agrees =
      All-find_first (λ j. has_id v.id j ≡ true → Agrees v j) (guard_of v status) jobs r h.agrees e
        (guarded-has_id v status r hit) in
    ground arith

held_for-share :
    (k : String) (v r : Job) → r.case_id ≡ v.case_id → held_for k r ≡ share k v r.reserved_cost
unfolding held_for
held_for-share k v r e = rw e

held_for-none : (k : String) (j : Job) → j.reserved_cost ≡ 0 → held_for k j ≡ 0
unfolding held_for
held_for-none k j e = ground arith

module _ (f : Job → Job) (write : IsWrite f) (v : Job) (status : JobStatus) (jobs : List Job)
    (fresh : Fresh jobs v) (one : count_where (guard_of v status) jobs ≡ 1) where
  -- The sum of what is held moves by the reservation of the view.
  sum-write :
      (amount : ℕ) (k : String)
      → ((j : Job) → j.reserved_cost ≡ v.reserved_cost → (f j).reserved_cost ≡ amount)
      → sum_of (held_for k) (update_where (guard_of v status) f jobs) + share k v v.reserved_cost
        ≡ sum_of (held_for k) jobs + share k v amount
  sum-write amount k new =
      let (r, found) = find_first_of_count (guard_of v status) jobs one in
      let (same_cost, same_case) = found-view v status jobs r fresh found in
      let before : held_for k r ≡ share k v v.reserved_cost =
        held_for-share k v r same_case ∙ ap (share k v) same_cost in
      let after : held_for k (f r) ≡ share k v amount =
        held_for-share k v (f r) (write.case_id r ∙ same_case) ∙ ap (share k v) (new r same_cost) in
      omega (
        arith,
        before,
        after,
        sum_of-update_where (guard_of v status) (held_for k) f jobs r one found,
      )

  pub Sound-write :
      (amount : ℕ) (cases cases' : String → Option CaseRow) (views : List Job)
      → Sound jobs cases views
      → ((j : Job) → j.reserved_cost ≡ v.reserved_cost → (f j).reserved_cost ≡ amount)
      → Moves v amount cases cases'
      → Sound (update_where (guard_of v status) f jobs) cases' views
  Sound-write amount cases cases' views h new moves = record {
    unique = λ id.
        rw (count_where-update_where (has_id id) (guard_of v status) f jobs (same_id f write id))
          (h.unique id);
    accounted = λ k c' e'.
        let (c, e, moved, fits) = moves k c' e' in
        omega (arith, sum-write amount k new, h.accounted k c e);
    within = λ k c' e'. let (c, e, moved, fits) = moves k c' e' in fits;
    fresh =
        All-map (Fresh jobs) (Fresh (update_where (guard_of v status) f jobs)) views
          (Fresh-update f write (guard_of v status) jobs) h.fresh;
  }

  -- The row after the write is a view of the new table.
  pub Fresh-write :
      (n : Job)
      → count_where (has_id v.id) jobs ≤ 1
      → n.id ≡ v.id
      → n.version ≡ v.version + 1
      → n.case_id ≡ v.case_id
      → ((j : Job) → j.reserved_cost ≡ v.reserved_cost → (f j).reserved_cost ≡ n.reserved_cost)
      → Fresh (update_where (guard_of v status) f jobs) n
  Fresh-write n unique same_n version case_id new =
      let (r, found) = find_first_of_count (guard_of v status) jobs one in
      let (same_cost, same_case) = found-view v status jobs r fresh found in
      let old = guarded-version v status r (find_first-holds (guard_of v status) jobs found) in
      record {
        present = rw same_n (
            any_where-update_where (has_id v.id) (guard_of v status) f jobs (same_id f write v.id)
            ∙ fresh.present);
        agrees = rw same_n (
            All-map (λ y. has_id v.id y ≡ true → y ≡ f r) (λ y. has_id v.id y ≡ true → Agrees n y)
              (update_where (guard_of v status) f jobs)
              (λ y is_r named. ground (
                arith,
                is_r named,
                old,
                same_cost,
                same_case,
                write.version r,
                write.case_id r,
                new r same_cost,
              ))
              (found_row-update_where (has_id v.id) (guard_of v status) f (guarded-has_id v status)
                (same_id f write v.id) jobs r unique found));
      }

-- A new job under an identifier that is not taken, with no reservation.
module _ (n : Job) (jobs : List Job) (taken : any_where (has_id n.id) jobs ≡ false) where
  Fresh-append : (w : Job) → Fresh jobs w → Fresh (jobs ++ n ∷ []) w
  Fresh-append w h = record {
    present = any_where-append (has_id w.id) jobs n h.present;
    agrees =
        All-concat (λ j. has_id w.id j ≡ true → Agrees w j) jobs n h.agrees
          (λ named. absurd (
            let same : n.id ≡ w.id = (text_eq_iff n.id w.id).0 named in
            let free : any_where (has_id w.id) jobs ≡ false = rw (← same) taken in
            cc (h.present, free)));
  }

  pub Sound-append :
      (cases : String → Option CaseRow) (views : List Job)
      → n.reserved_cost ≡ 0
      → Sound jobs cases views
      → Sound (jobs ++ n ∷ []) cases views
  Sound-append cases views free h = record {
    unique = λ id. rw (count_where-append (has_id id) jobs n) (elim (Bool-cases (has_id id n)) [
      | inl named ↦
          let same : n.id ≡ id = (text_eq_iff n.id id).0 named in
          rw named (omega (arith, count_where_of_any_where (has_id id) jobs (rw (← same) taken)))
      | inr other ↦ rw other (omega (arith, h.unique id))
    ]);
    accounted = λ k c e.
        omega (arith, sum_of-append (held_for k) jobs n, h.accounted k c e, held_for-none k n free);
    within = h.within;
    fresh = All-map (Fresh jobs) (Fresh (jobs ++ n ∷ [])) views Fresh-append h.fresh;
  }

-- No budget changes where the reservation stays.
pub Moves-refl :
    (v : Job) (jobs : List Job) (cases : String → Option CaseRow) (views : List Job)
    → Sound jobs cases views
    → Moves v v.reserved_cost cases cases
Moves-refl v jobs cases views h k c e = (c, e, refl, h.within k c e)

pub locked-case :
    (organization_id k : String) (c : CaseRow) (s : Store)
    → lock_case organization_id k s ≡ some c
    → (s.cases k ≡ some c) × (is_live_case organization_id c ≡ true)
unfolding lock_case
locked-case organization_id k c s e = ground arith

pub updated-case :
    (organization_id k : String) (f : CaseRow → CaseRow) (s t : Store)
    → update_case organization_id k f s ≡ ok (tt, t)
    → (t.jobs ≡ s.jobs)
      × ((i : String)
          → t.cases i ≡ (
              if text_eq i k
              then Option.map (λ c. if is_live_case organization_id c then f c else c) (s.cases i)
              else s.cases i))
unfolding update_case
updated-case organization_id k f s t e = (ground arith, λ i. ground arith)

pub lock_case-same :
    (organization_id k : String) (s t : Store)
    → t.cases ≡ s.cases
    → lock_case organization_id k t ≡ lock_case organization_id k s
unfolding lock_case
lock_case-same organization_id k s t e = rw e

text_eq-false_symm : (a b : String) → text_eq a b ≡ false → text_eq b a ≡ false
text_eq-false_symm a b h = ground (arith, text_eq_iff a b, text_eq_iff b a)

-- An update of the locked case of the job.
pub Moves-update_case :
    (v : Job) (amount : ℕ) (organization_id k : String) (f : CaseRow → CaseRow) (c : CaseRow)
    (s t : Store)
    → Within s.cases
    → v.case_id ≡ some k
    → lock_case organization_id k s ≡ some c
    → ((f c).reserved + v.reserved_cost ≡ c.reserved + amount)
    → ((f c).spent + (f c).reserved ≤ (f c).limit)
    → update_case organization_id k f s ≡ ok (tt, t)
    → (t.jobs ≡ s.jobs) × Moves v amount s.cases t.cases
Moves-update_case v amount organization_id k f c s t h linked locked moved fits e =
    let (found, live) = locked-case organization_id k c s locked in
    let (jobs, cases) = updated-case organization_id k f s t e in
    (
      jobs,
      λ i c' e'. elim (Bool-cases (text_eq i k)) [
        | inl same ↦
            let here : i ≡ k = (text_eq_iff i k).0 same in
            let there : text_eq k i ≡ true = (text_eq_iff k i).1 (sym here) in
            let old : s.cases i ≡ some c = rw here found in
            let new : c' ≡ f c = ground (arith, cases i) in (c, old, ground arith, rw new fits)
        | inr other ↦
            let there : text_eq k i ≡ false = text_eq-false_symm i k other in
            let old : s.cases i ≡ some c' = ground (arith, cases i) in
            (c', old, ground arith, h i c' old)
      ],
    )
