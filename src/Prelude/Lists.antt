-- ===== src/Prelude/Lists.antt =====
-- Lists over native numbers, and the tables of the model: rows found, counted, updated and summed.
use Prim.Native.Nat.{ℕ, zero, suc, ◌+◌}
use mathlib.Core.Path.{◌≡◌, refl, subst}
use mathlib.Core.Logic.{inl, inr}
use mathlib.Core.Bool.{Bool, true, false, ◌||◌}
use mathlib.Core.Option.{Option, none, some}
use mathlib.Core.List.{List, [], ◌∷◌, ◌++◌}
use native.Mathlib.Omega.{arith}
use lex_os.Prelude.Tests.{if◌then◌else◌, Bool-cases}

module _ {ℓ} {A : Type ℓ} where
  abbrev pub length : List A → ℕ
  length [] = 0
  length (x ∷ xs) = suc (length xs)

  abbrev pub get_elem? : List A → ℕ → Option A
  get_elem? [] i = none
  get_elem? (x ∷ xs) zero = some x
  get_elem? (x ∷ xs) (suc i) = get_elem? xs i

  abbrev pub take : ℕ → List A → List A
  take zero xs = []
  take (suc n) [] = []
  take (suc n) (x ∷ xs) = x ∷ take n xs

  abbrev pub drop : ℕ → List A → List A
  drop zero xs = xs
  drop (suc n) [] = []
  drop (suc n) (x ∷ xs) = drop n xs

  pub length-append : (xs ys : List A) → length (xs ++ ys) ≡ length xs + length ys
  length-append [] ys = omega arith
  length-append (x ∷ xs) ys = omega (arith, length-append xs ys)

  -- `find_first` is a query for one row, `count_where` and `update_where` are an `updateMany`.
  abbrev pub find_first : (A → Bool) → List A → Option A
  find_first p [] = none
  find_first p (x ∷ xs) = if p x then some x else find_first p xs

  abbrev pub any_where : (A → Bool) → List A → Bool
  any_where p [] = false
  any_where p (x ∷ xs) = p x || any_where p xs

  abbrev pub count_where : (A → Bool) → List A → ℕ
  count_where p [] = 0
  count_where p (x ∷ xs) = (if p x then 1 else 0) + count_where p xs

  abbrev pub update_where : (A → Bool) → (A → A) → List A → List A
  update_where p f [] = []
  update_where p f (x ∷ xs) = (if p x then f x else x) ∷ update_where p f xs

  abbrev pub sum_of : (A → ℕ) → List A → ℕ
  sum_of g [] = 0
  sum_of g (x ∷ xs) = g x + sum_of g xs

  -- A predicate that holds of every element.
  abbrev pub All {κ} : (A → Type κ) → List A → Type κ
  All P [] = Unit
  All P (x ∷ xs) = P x × All P xs

module _ {ℓ} {A : Type ℓ} (p : A → Bool) where
  -- Of the rows that an update changes when it counts none, nothing is left.
  pub sum_of-update_where_none :
      (g : A → ℕ) (f : A → A) (xs : List A)
      → count_where p xs ≡ 0
      → sum_of g (update_where p f xs) ≡ sum_of g xs
  sum_of-update_where_none g f [] h = refl
  sum_of-update_where_none g f (x ∷ xs) h = ground (arith, sum_of-update_where_none g f xs)

  -- An update that counts one row changes a sum by that row alone.
  pub sum_of-update_where :
      (g : A → ℕ) (f : A → A) (xs : List A) (c : A)
      → count_where p xs ≡ 1
      → find_first p xs ≡ some c
      → sum_of g (update_where p f xs) + g c ≡ sum_of g xs + g (f c)
  sum_of-update_where g f [] c h e = absurd (omega arith)
  sum_of-update_where g f (x ∷ xs) c h e = elim (Bool-cases (p x)) [
    | inl hit ↦
        let same : x ≡ c = ground arith in
        ground (arith, sum_of-update_where_none g f xs (ground arith))
    | inr miss ↦ ground (arith, sum_of-update_where g f xs c (ground arith) (ground arith))
  ]

module _ {ℓ κ} {A : Type ℓ} (P : A → Type κ) where
  pub All-find_first :
      (p : A → Bool) (xs : List A) (c : A) → All P xs → find_first p xs ≡ some c → P c
  All-find_first p [] c h e = absurd (cc)
  All-find_first p (x ∷ xs) c h e = elim (Bool-cases (p x)) [
    | inl hit ↦ let same : x ≡ c = ground arith in subst P same h.0
    | inr miss ↦ All-find_first p xs c h.1 (ground arith)
  ]

  -- What an update keeps of the rows that it changes, it keeps of all.
  pub All-update_where :
      (p : A → Bool) (f : A → A) (xs : List A)
      → ((x : A) → P x → p x ≡ true → P (f x))
      → All P xs
      → All P (update_where p f xs)
  All-update_where p f [] keep h = tt
  All-update_where p f (x ∷ xs) keep h = (
    elim (Bool-cases (p x)) [ inl hit ↦ rw hit (keep x h.0 hit) | inr miss ↦ rw miss h.0 ],
    All-update_where p f xs keep h.1,
  )

  pub All-concat : (xs : List A) (y : A) → All P xs → P y → All P (xs ++ y ∷ [])
  All-concat [] y h k = (k, tt)
  All-concat (x ∷ xs) y h k = (h.0, All-concat xs y h.1 k)

module _ {ℓ} {A : Type ℓ} where
  pub find_first-holds :
      (p : A → Bool) (xs : List A) {c : A} → find_first p xs ≡ some c → p c ≡ true
  find_first-holds p [] e = absurd (cc)
  find_first-holds p (x ∷ xs) e = elim (Bool-cases (p x)) [
    | inl hit ↦ ground arith
    | inr miss ↦ find_first-holds p xs (ground arith)
  ]

  pub sum_of-append :
      (g : A → ℕ) (xs : List A) (y : A) → sum_of g (xs ++ y ∷ []) ≡ sum_of g xs + g y
  sum_of-append g [] y = omega arith
  sum_of-append g (x ∷ xs) y = omega (arith, sum_of-append g xs y)

module _ {ℓ κ μ} {A : Type ℓ} (P : A → Type κ) (Q : A → Type μ) where
  pub All-map : (xs : List A) → ((x : A) → P x → Q x) → All P xs → All Q xs
  All-map [] g h = tt
  All-map (x ∷ xs) g h = (g x h.0, All-map xs g h.1)
