-- ===== src/Processing/Accounting/Frame.antt =====
-- The transactions that touch neither a job nor a budget, and what the writing ones leave behind.
use lex_os.Prelude.{
  ℕ, ◌≡◌, refl, ◌∙◌, ap, Bool, true, false, String, Result, ok, err, arith, not, ◌==◌, count_where,
  update_where,
}
use lex_os.Processing.Rows.{Job, DocumentRow}
use lex_os.Processing.Store.{
  Store, Tx, ◌>>=◌, ◌>>◌, return, throw, lift, refuse_if, update_document, AuditInput, audit,
  update_jobs, stamped,
}

abbrev pub SameMoney : Store → Store → Type 0
SameMoney s s' = (s'.jobs ≡ s.jobs) × (s'.cases ≡ s.cases)

pub record Keeps {A : Type 0} (m : Tx A) : Type 0 where
  pub keeps : (s s' : Store) (a : A) → m s ≡ ok (a, s') → SameMoney s s'

-- Inversion of a chain that succeeds.
module _ {A B : Type 0} where
  pub bind-eq-ok :
      (m : Tx A) (f : A → Tx B) (s s' : Store) (b : B)
      → (m >>= f) s ≡ ok (b, s')
      → (a : A) × (t : Store) × (m s ≡ ok (a, t)) × (f a t ≡ ok (b, s'))
  unfolding ◌>>=◌
  bind-eq-ok m f s s' b e = go (m s) refl
    where
      go :
          (r : Result (A × Store))
          → m s ≡ r
          → (a : A) × (t : Store) × (m s ≡ ok (a, t)) × (f a t ≡ ok (b, s'))
      go (ok (a, t)) same = (a, t, same, rw (same, ◌>>=◌) at e)
      go (err x) same = absurd (let bad : err x ≡ ok (b, s') = rw (same, ◌>>=◌) at e in cc)

  pub bind-Keeps : (m : Tx A) (f : A → Tx B) → Keeps m → ((a : A) → Keeps (f a)) → Keeps (m >>= f)
  bind-Keeps m f km kf = record {
    keeps = λ s s' b e.
        let (a, t, first, second) = bind-eq-ok m f s s' b e in
        let (jobs1, cases1) = km.keeps s t a first in
        let (jobs2, cases2) = (kf a).keeps t s' b second in (jobs2 ∙ jobs1, cases2 ∙ cases1);
  }

module _ {B : Type 0} where
  pub then-eq-ok :
      (m : Tx (Unit {0})) (k : Tx B) (s s' : Store) (b : B)
      → (m >> k) s ≡ ok (b, s')
      → (t : Store) × (m s ≡ ok (tt, t)) × (k t ≡ ok (b, s'))
  unfolding ◌>>◌ ◌>>=◌
  then-eq-ok m k s s' b e =
      let (_, t, first, second) = bind-eq-ok m (λ _. k) s s' b e in (t, first, second)

  pub then-Keeps : (m : Tx (Unit {0})) (k : Tx B) → Keeps m → Keeps k → Keeps (m >> k)
  then-Keeps m k km kk = record {
    keeps = λ s s' b e.
        let (t, first, second) = then-eq-ok m k s s' b e in
        let (jobs1, cases1) = km.keeps s t tt first in
        let (jobs2, cases2) = kk.keeps t s' b second in (jobs2 ∙ jobs1, cases2 ∙ cases1);
  }

module _ {A : Type 0} where
  pub return-Keeps : (a : A) → Keeps (return a)
  unfolding return
  return-Keeps a = record { keeps = λ s s' b e. ground arith }

  pub throw-Keeps : (x : String) → Keeps (throw {A = A} x)
  unfolding throw
  throw-Keeps x = record { keeps = λ s s' b e. absurd (cc) }

  pub lift-Keeps : (r : Result A) → Keeps (lift r)
  unfolding lift
  lift-Keeps (ok a) = record { keeps = λ s s' b e. ground arith }
  lift-Keeps (err x) = record { keeps = λ s s' b e. absurd (cc) }

  pub lift-eq-ok :
      (r : Result A) (s s' : Store) (a : A) → lift r s ≡ ok (a, s') → (r ≡ ok a) × (s' ≡ s)
  unfolding lift
  lift-eq-ok (ok b) s s' a e = (cc, cc)
  lift-eq-ok (err x) s s' a e = absurd (cc)

  pub return-eq-ok : (a : A) (s s' : Store) (b : A) → return a s ≡ ok (b, s') → (b ≡ a) × (s' ≡ s)
  unfolding return
  return-eq-ok a s s' b e = (cc, cc)

pub refuse-Keeps : (b : Bool) (x : String) → Keeps (refuse_if b x)
unfolding refuse_if
refuse-Keeps true x = record { keeps = λ s s' b e. absurd (cc) }
refuse-Keeps false x = record { keeps = λ s s' b e. ground arith }

pub refuse-eq-ok :
    (b : Bool) (x : String) (s s' : Store) → refuse_if b x s ≡ ok (tt, s') → (b ≡ false) × (s' ≡ s)
unfolding refuse_if
refuse-eq-ok true x s s' e = absurd (cc)
refuse-eq-ok false x s s' e = (refl, cc)

pub update_document-Keeps :
    (organization_id id : String) (f : DocumentRow → DocumentRow)
    → Keeps (update_document organization_id id f)
unfolding update_document
update_document-Keeps organization_id id f = record { keeps = λ s s' a e. ground arith }

pub audit-Keeps : (input : AuditInput) → Keeps (audit input)
unfolding audit
audit-Keeps input = record { keeps = λ s s' a e. ground arith }

pub ruleset frame = (
  bind-Keeps, then-Keeps, return-Keeps, throw-Keeps, lift-Keeps, refuse-Keeps,
  update_document-Keeps, audit-Keeps,
)

-- A guarded update that must count one row, and what comes behind it.
pub write-eq-ok :
    {B : Type 0} (now : ℕ) (p : Job → Bool) (f : Job → Job) (x : String) (k : Tx B) (s s' : Store)
    (b : B)
    → (do count ← update_jobs now p f; refuse_if (not (count == 1)) x; k) s ≡ ok (b, s')
    → (count_where p s.jobs ≡ 1)
      × ((u : Store) × (u.jobs ≡ update_where p (stamped now f) s.jobs)
          × (u.cases ≡ s.cases)
          × (k u ≡ ok (b, s')))
unfolding update_jobs ◌>>=◌
write-eq-ok now p f x k s s' b e =
    let t : Store = record s { jobs = update_where p (stamped now f) s.jobs } in
    let (u, refused, rest) =
      then-eq-ok (refuse_if (not (count_where p s.jobs == 1)) x) k t s' b e in
    let (one, same) = refuse-eq-ok (not (count_where p s.jobs == 1)) x t u refused in
    (ground arith, (u, ap (λ (w : Store). w.jobs) same, ap (λ (w : Store). w.cases) same, rest))

-- The one value that a transaction can return.
pub record Returns {A : Type 0} (m : Tx A) (a : A) : Type 0 where
  pub returns : (s s' : Store) (b : A) → m s ≡ ok (b, s') → b ≡ a

pub return-Returns : {A : Type 0} (a : A) → Returns (return a) a
unfolding return
return-Returns a = record { returns = λ s s' b e. cc }

pub then-Returns :
    {A : Type 0} (m : Tx (Unit {0})) (k : Tx A) (a : A) → Returns k a → Returns (m >> k) a
then-Returns m k a h = record {
  returns = λ s s' b e. let (t, first, second) = then-eq-ok m k s s' b e in h.returns t s' b second;
}

-- A chain whose rest keeps the money and has one value.
pub then-end :
    {A : Type 0} (m : Tx (Unit {0})) (k : Tx A) (a : A) (s s' : Store) (b : A)
    → Keeps k
    → Returns k a
    → (m >> k) s ≡ ok (b, s')
    → (t : Store) × (m s ≡ ok (tt, t)) × (s'.jobs ≡ t.jobs) × (s'.cases ≡ t.cases) × (b ≡ a)
then-end m k a s s' b kk rk e =
    let (t, first, second) = then-eq-ok m k s s' b e in
    let (jobs, cases) = kk.keeps t s' b second in (t, first, jobs, cases, rk.returns t s' b second)

pub write-end :
    {A : Type 0} (now : ℕ) (p : Job → Bool) (f : Job → Job) (x : String) (k : Tx A) (a : A)
    (s s' : Store) (b : A)
    → Keeps k
    → Returns k a
    → (do count ← update_jobs now p f; refuse_if (not (count == 1)) x; k) s ≡ ok (b, s')
    → (count_where p s.jobs ≡ 1)
      × (s'.jobs ≡ update_where p (stamped now f) s.jobs)
      × (s'.cases ≡ s.cases)
      × (b ≡ a)
write-end now p f x k a s s' b kk rk e =
    let (one, (u, jobs, cases, rest)) = write-eq-ok now p f x k s s' b e in
    let (jobs', cases') = kk.keeps u s' b rest in
    (one, jobs' ∙ jobs, cases' ∙ cases, rk.returns u s' b rest)

-- The same where the value does not matter.
pub write-keep :
    {A : Type 0} (now : ℕ) (p : Job → Bool) (f : Job → Job) (x : String) (k : Tx A) (s s' : Store)
    (b : A)
    → Keeps k
    → (do count ← update_jobs now p f; refuse_if (not (count == 1)) x; k) s ≡ ok (b, s')
    → (count_where p s.jobs ≡ 1)
      × (s'.jobs ≡ update_where p (stamped now f) s.jobs)
      × (s'.cases ≡ s.cases)
write-keep now p f x k s s' b kk e =
    let (one, (u, jobs, cases, rest)) = write-eq-ok now p f x k s s' b e in
    let (jobs', cases') = kk.keeps u s' b rest in (one, jobs' ∙ jobs, cases' ∙ cases)

pub ruleset ends = (return-Returns, then-Returns)
