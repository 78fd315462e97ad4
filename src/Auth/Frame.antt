-- ===== src/Auth/Frame.antt =====
-- What holds after an operation, however it ends.
use lex_os.Prelude.{◌≡◌, ◌≢◌, refl, ap, Bool, true, false, String, Result, ok, err}
use lex_os.Auth.State.{
  State, Act, continue, ◌>>=◌, ◌>>◌, return, throw, query, modify, refuse_if, in_transaction,
  rolled_back,
}

-- From a state with `P` the operation ends in one with `Q`, an error included.
abbrev pub Triple : {A : Type 0} → (State → Type 0) → Act A → (State → Type 0) → Type 0
Triple P m Q = (s : State) → P s → Q (m s).1

abbrev pub Keeps : {A : Type 0} → (State → Type 0) → Act A → Type 0
Keeps P m = Triple P m P

-- After a first part that ends in `R`, also by an error, the rest goes on from `R`.
module _ (P R Q : State → Type 0) where
  continue-holds :
      {A B : Type 0} (k : A → Act B) (r : Result A × State)
      → ((s : State) → R s → Q s)
      → ((a : A) → Triple R (k a) Q)
      → R r.1
      → Q (continue k r).1
  unfolding continue
  continue-holds k (ok a, s) weaker rest h = rest a s h
  continue-holds k (err e, s) weaker rest h = weaker s h

  pub bind-Triple :
      {A B : Type 0} (m : Act A) (k : A → Act B)
      → ((s : State) → R s → Q s)
      → Triple P m R
      → ((a : A) → Triple R (k a) Q)
      → Triple P (m >>= k) Q
  unfolding ◌>>=◌
  bind-Triple m k weaker first rest s h = continue-holds k (m s) weaker rest (first s h)

  pub then-Triple :
      {B : Type 0} (m : Act (Unit {0})) (k : Act B)
      → ((s : State) → R s → Q s)
      → Triple P m R
      → Triple R k Q
      → Triple P (m >> k) Q
  unfolding ◌>>◌
  then-Triple m k weaker first rest s h =
      continue-holds (λ _. k) (m s) weaker (λ _. rest) (first s h)

module _ (P Q : State → Type 0) where
  pub in_transaction-Triple :
      {A : Type 0} (m : Act A)
      → ((s : State) → P s → Q s)
      → Triple P m Q
      → Triple P (in_transaction m) Q
  unfolding in_transaction
  in_transaction-Triple {A} m weaker t s h = go (m s) (t s h)
    where
      go : (r : Result A × State) → Q r.1 → Q (rolled_back s r).1
      go (ok a, s') after = after
      go (err e, s') after = weaker s h

module _ (P : State → Type 0) where
  pub bind-Keeps :
      {A B : Type 0} (m : Act A) (k : A → Act B)
      → Keeps P m
      → ((a : A) → Keeps P (k a))
      → Keeps P (m >>= k)
  bind-Keeps m k first rest = bind-Triple P P P m k (λ s h. h) first rest

  pub then-Keeps :
      {B : Type 0} (m : Act (Unit {0})) (k : Act B) → Keeps P m → Keeps P k → Keeps P (m >> k)
  then-Keeps m k first rest = then-Triple P P P m k (λ s h. h) first rest

  pub in_transaction-Keeps : {A : Type 0} (m : Act A) → Keeps P m → Keeps P (in_transaction m)
  in_transaction-Keeps m t = in_transaction-Triple P P m (λ s h. h) t

  pub query-Keeps : {A : Type 0} (f : State → A) → Keeps P (query f)
  unfolding query
  query-Keeps f s h = h

  pub return-Keeps : {A : Type 0} (a : A) → Keeps P (return a)
  unfolding return
  return-Keeps a s h = h

  pub throw-Keeps : (A : Type 0) (e : String) → Keeps P (throw {A = A} e)
  unfolding throw
  throw-Keeps A e s h = h

  pub modify-Keeps : (f : State → State) → ((s : State) → P s → P (f s)) → Keeps P (modify f)
  unfolding modify
  modify-Keeps f keep s h = keep s h

  pub refuse_if-Keeps : (b : Bool) (e : String) → Keeps P (refuse_if b e)
  unfolding refuse_if
  refuse_if-Keeps true e s h = h
  refuse_if-Keeps false e s h = h

-- Inversion of a chain that answers.
pub continue-eq-ok :
    {A B : Type 0} (k : A → Act B) (r : Result A × State) (b : B)
    → (continue k r).0 ≡ ok b
    → (a : A) × (r.0 ≡ ok a) × ((k a r.1).0 ≡ ok b)
unfolding continue
continue-eq-ok k (ok a, s) b e = (a, refl, e)
continue-eq-ok k (err x, s) b e = absurd (cc)

-- An operation that never answers.
abbrev pub Fails : {A : Type 0} → Act A → Type 0
Fails {A} m = (s : State) (a : A) → (m s).0 ≢ ok a

pub then-Fails : {B : Type 0} (m : Act (Unit {0})) (k : Act B) → Fails k → Fails (m >> k)
unfolding ◌>>◌
then-Fails m k fails s b e =
    let (a, first, rest) = continue-eq-ok (λ _. k) (m s) b e in fails (m s).1 b rest

pub throw-Fails : (A : Type 0) (e : String) → Fails (throw {A = A} e)
unfolding throw
throw-Fails A e s a h = absurd (cc)

-- Where a first part answers, the rest goes on from its state.
pub continue-run :
    {A B : Type 0} (k : A → Act B) (r : Result A × State) (a : A)
    → r.0 ≡ ok a
    → continue k r ≡ k a r.1
unfolding continue
continue-run k (ok b, s) a e = let same : b ≡ a = cc in ap (λ c. k c s) same
continue-run k (err x, s) a e = absurd (cc)
