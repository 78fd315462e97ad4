-- ===== src/Prelude/Tables.antt =====
-- Updates of a table under a guard: the row that an update counts is the row that was meant.
use Prim.Native.Nat.{◌+◌, ◌≤◌}
use mathlib.Core.Path.{◌≡◌, refl, ap, ◌∙◌, subst}
use mathlib.Core.Logic.{inl, inr}
use mathlib.Core.Bool.{Bool, true, false}
use mathlib.Core.Option.{some}
use mathlib.Core.List.{List, [], ◌∷◌, ◌++◌}
use native.Mathlib.Omega.{arith}
use lex_os.Prelude.Tests.{if◌then◌else◌, Bool-cases}
use lex_os.Prelude.Lists.{find_first, any_where, count_where, update_where, All}

module _ {ℓ} {A : Type ℓ} where
  pub find_first_of_count :
      (p : A → Bool) (xs : List A) → count_where p xs ≡ 1 → (c : A) × (find_first p xs ≡ some c)
  find_first_of_count p [] h = absurd (omega arith)
  find_first_of_count p (x ∷ xs) h = elim (Bool-cases (p x)) [
    | inl hit ↦ (x, rw hit)
    | inr miss ↦ let (c, found) = find_first_of_count p xs (ground arith) in (c, rw miss found)
  ]

  pub found_counts :
      (p : A → Bool) (xs : List A) (r : A) → find_first p xs ≡ some r → 1 ≤ count_where p xs
  found_counts p [] r e = absurd (cc)
  found_counts p (x ∷ xs) r e = elim (Bool-cases (p x)) [
    | inl hit ↦ rw hit (omega arith)
    | inr miss ↦ rw miss (omega (arith, found_counts p xs r (ground arith)))
  ]

  pub count_where-update_where :
      (q p : A → Bool) (f : A → A) (xs : List A)
      → ((x : A) → q (f x) ≡ q x)
      → count_where q (update_where p f xs) ≡ count_where q xs
  count_where-update_where q p f [] same = refl
  count_where-update_where q p f (x ∷ xs) same = elim (Bool-cases (p x)) [
    | inl hit ↦ rw hit (
        rw (same x) (ap (λ n. (if q x then 1 else 0) + n) (count_where-update_where q p f xs same)))
    | inr miss ↦
        rw miss (ap (λ n. (if q x then 1 else 0) + n) (count_where-update_where q p f xs same))
  ]

  pub any_where-update_where :
      (q p : A → Bool) (f : A → A) (xs : List A)
      → ((x : A) → q (f x) ≡ q x)
      → any_where q (update_where p f xs) ≡ any_where q xs
  any_where-update_where q p f [] same = refl
  any_where-update_where q p f (x ∷ xs) same =
      ground (arith, same x, any_where-update_where q p f xs same)

  pub count_where-append :
      (q : A → Bool) (xs : List A) (y : A)
      → count_where q (xs ++ y ∷ []) ≡ count_where q xs + (if q y then 1 else 0)
  count_where-append q [] y = omega arith
  count_where-append q (x ∷ xs) y = omega (arith, count_where-append q xs y)

  pub any_where-append :
      (q : A → Bool) (xs : List A) (y : A)
      → any_where q xs ≡ true
      → any_where q (xs ++ y ∷ []) ≡ true
  any_where-append q [] y h = absurd (cc)
  any_where-append q (x ∷ xs) y h = ground (arith, any_where-append q xs y)

  pub count_where_of_any_where :
      (q : A → Bool) (xs : List A) → any_where q xs ≡ false → count_where q xs ≡ 0
  count_where_of_any_where q [] h = refl
  count_where_of_any_where q (x ∷ xs) h = ground (arith, count_where_of_any_where q xs)

  -- Where no row answers to `q`, what asks for one holds of all.
  pub All-of_count_zero {κ} :
      (q : A → Bool) (P : A → Type κ) (xs : List A)
      → count_where q xs ≡ 0
      → All (λ x. q x ≡ true → P x) xs
  All-of_count_zero q P [] h = tt
  All-of_count_zero q P (x ∷ xs) h =
      ((λ hit. absurd (ground arith)), All-of_count_zero q P xs (ground arith))

-- `q` names one row at most, and a row that `p` finds is one of those.
module _ {ℓ} {A : Type ℓ} (q p : A → Bool) (f : A → A) (inside : (x : A) → p x ≡ true → q x ≡ true)
    (same : (x : A) → q (f x) ≡ q x) where
  none_found : (xs : List A) → count_where q xs ≡ 0 → count_where p xs ≡ 0
  none_found [] h = refl
  none_found (x ∷ xs) h = ground (arith, inside x, none_found xs)

  -- After the update, that row is the changed one.
  pub found_row-update_where :
      (xs : List A) (r : A)
      → count_where q xs ≤ 1
      → find_first p xs ≡ some r
      → All (λ y. q y ≡ true → y ≡ f r) (update_where p f xs)
  found_row-update_where [] r h e = absurd (cc)
  found_row-update_where (x ∷ xs) r h e = elim (Bool-cases (p x)) [
    | inl hit ↦
        let is_r : x ≡ r = ground arith in
        let rest : count_where q xs ≡ 0 = ground (arith, inside x hit) in
        (
          rw hit (λ _. ap f is_r),
          All-of_count_zero q (λ y. y ≡ f r) (update_where p f xs)
              (count_where-update_where q p f xs same ∙ rest),
        )
    | inr miss ↦ (
      rw miss (λ hit.
          absurd (omega (arith, none_found xs (ground arith), found_counts p xs r (ground arith)))),
      found_row-update_where xs r (ground arith) (ground arith),
    )
  ]

module _ {ℓ} {A : Type ℓ} where
  update_where_id : (p : A → Bool) (xs : List A) → update_where p (λ x. x) xs ≡ xs
  update_where_id p [] = refl
  update_where_id p (x ∷ xs) = elim (Bool-cases (p x)) [
    | inl hit ↦ rw hit (ap (λ ys. x ∷ ys) (update_where_id p xs))
    | inr miss ↦ rw miss (ap (λ ys. x ∷ ys) (update_where_id p xs))
  ]

  -- The row that is found is the only one of its name.
  pub found_row :
      (q p : A → Bool) (xs : List A) (r : A)
      → ((x : A) → p x ≡ true → q x ≡ true)
      → count_where q xs ≤ 1
      → find_first p xs ≡ some r
      → All (λ y. q y ≡ true → y ≡ r) xs
  found_row q p xs r inside one e =
      subst (All (λ y. q y ≡ true → y ≡ r)) (update_where_id p xs)
        (found_row-update_where q p (λ x. x) inside (λ x. refl) xs r one e)

  pub any_where_of_find_first :
      (q p : A → Bool) (xs : List A) (r : A)
      → ((x : A) → p x ≡ true → q x ≡ true)
      → find_first p xs ≡ some r
      → any_where q xs ≡ true
  any_where_of_find_first q p [] r inside e = absurd (cc)
  any_where_of_find_first q p (x ∷ xs) r inside e = elim (Bool-cases (p x)) [
    | inl hit ↦ rw (inside x hit)
    | inr miss ↦ ground (arith, any_where_of_find_first q p xs r inside (ground arith))
  ]

  pub count_where-le :
      (q g : A → Bool) (xs : List A)
      → ((x : A) → g x ≡ true → q x ≡ true)
      → count_where g xs ≤ count_where q xs
  count_where-le q g [] narrow = omega arith
  count_where-le q g (x ∷ xs) narrow = ground (arith, narrow x, count_where-le q g xs narrow)

  pub found_counts_too :
      (p g : A → Bool) (xs : List A) (r : A)
      → g r ≡ true
      → find_first p xs ≡ some r
      → 1 ≤ count_where g xs
  found_counts_too p g [] r own e = absurd (cc)
  found_counts_too p g (x ∷ xs) r own e = elim (Bool-cases (p x)) [
    | inl hit ↦
        let same : x ≡ r = ground arith in
        let here : g x ≡ true = rw same own in rw here (omega arith)
    | inr miss ↦ omega (arith, found_counts_too p g xs r own (ground arith))
  ]

  -- A narrower test counts the found row, and no other.
  pub count_where_one :
      (q p g : A → Bool) (xs : List A) (r : A)
      → ((x : A) → g x ≡ true → q x ≡ true)
      → g r ≡ true
      → count_where q xs ≤ 1
      → find_first p xs ≡ some r
      → count_where g xs ≡ 1
  count_where_one q p g xs r narrow own one e =
      omega (arith, count_where-le q g xs narrow, found_counts_too p g xs r own e)

  -- A row that is found is the only one of a name that it has.
  pub found_row_named :
      (q p : A → Bool) (xs : List A) (r : A)
      → q r ≡ true
      → count_where q xs ≤ 1
      → find_first p xs ≡ some r
      → All (λ y. q y ≡ true → y ≡ r) xs
  found_row_named q p [] r own one e = absurd (cc)
  found_row_named q p (x ∷ xs) r own one e = elim (Bool-cases (p x)) [
    | inl hit ↦
        let is_r : x ≡ r = ground arith in
        let here : q x ≡ true = rw is_r own in
        ((λ _. is_r), All-of_count_zero q (λ y. y ≡ r) xs (ground arith))
    | inr miss ↦
        let later : find_first p xs ≡ some r = ground arith in
        let counts = found_counts_too p q xs r own later in
        ((λ hit. absurd (ground arith)), found_row_named q p xs r own (ground arith) later)
  ]

  -- An update that makes no row answer to `q` leaves no more such rows.
  pub count_where-le-update_where :
      (q p : A → Bool) (f : A → A) (xs : List A)
      → ((x : A) → q (f x) ≡ true → q x ≡ true)
      → count_where q (update_where p f xs) ≤ count_where q xs
  count_where-le-update_where q p f [] narrow = omega arith
  count_where-le-update_where q p f (x ∷ xs) narrow =
      ground (arith, narrow x, count_where-le-update_where q p f xs narrow)

  -- An update after which none of its rows answers to `q`, and which reaches all that do.
  pub count_where-update_where_none :
      (q p : A → Bool) (f : A → A) (xs : List A)
      → ((x : A) → q (f x) ≡ false)
      → ((x : A) → q x ≡ true → p x ≡ true)
      → count_where q (update_where p f xs) ≡ 0
  count_where-update_where_none q p f [] off reaches = refl
  count_where-update_where_none q p f (x ∷ xs) off reaches =
      ground (arith, off x, reaches x, count_where-update_where_none q p f xs off reaches)

  pub any_where_named :
      (q p : A → Bool) (xs : List A) (r : A)
      → q r ≡ true
      → find_first p xs ≡ some r
      → any_where q xs ≡ true
  any_where_named q p [] r own e = absurd (cc)
  any_where_named q p (x ∷ xs) r own e = elim (Bool-cases (p x)) [
    | inl hit ↦ let is_r : x ≡ r = ground arith in let here : q x ≡ true = rw is_r own in rw here
    | inr miss ↦ ground (arith, any_where_named q p xs r own (ground arith))
  ]

  -- An update that counts no row changes nothing.
  pub update_where_none :
      (p : A → Bool) (f : A → A) (xs : List A) → count_where p xs ≡ 0 → update_where p f xs ≡ xs
  update_where_none p f [] h = refl
  update_where_none p f (x ∷ xs) h = elim (Bool-cases (p x)) [
    | inl hit ↦ absurd (ground arith)
    | inr miss ↦ rw miss (ap (λ ys. x ∷ ys) (update_where_none p f xs (ground arith)))
  ]
