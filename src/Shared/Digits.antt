-- ===== src/Shared/Digits.antt =====
-- Digits of a text, as the list of its characters' codes: `\d` and `\D`.
use lex_os.Prelude.{
  ℕ, zero, suc, ◌+◌, ◌-◌, ◌*◌, ◌≡◌, refl, Bool, true, ◌&&◌, List, [], ◌∷◌, ◌++◌, Option, none, some,
  arith, leb, if◌then◌else◌, length,
}

unfoldable pub is_digit : ℕ → Bool
is_digit c = leb 48 c && leb c 57

-- `value.replace(/\D/gu, '')`.
unfoldable pub digits_only : List ℕ → List ℕ
digits_only [] = []
digits_only (c ∷ cs) = if is_digit c then c ∷ digits_only cs else digits_only cs

unfoldable pub all_digits : List ℕ → Bool
all_digits [] = true
all_digits (c ∷ cs) = is_digit c && all_digits cs

-- The number that digits go on to write.
unfoldable pub value_from : ℕ → List ℕ → ℕ
value_from n [] = n
value_from n (c ∷ cs) = value_from (n * 10 + (c - 48)) cs

-- `(\d{n})` at the front, and the rest.
unfoldable pub digits_then : ℕ → List ℕ → Option (List ℕ × List ℕ)
digits_then zero cs = some ([], cs)
digits_then (suc n) [] = none
digits_then (suc n) (c ∷ cs) =
    if is_digit c
    then elim (digits_then n cs) [ none ↦ none | some (ds, rest) ↦ some (c ∷ ds, rest) ]
    else none

-- One character at the front.
unfoldable pub exactly : ℕ → List ℕ → Option (List ℕ)
exactly k [] = none
exactly k (c ∷ cs) = if leb c k && leb k c then some cs else none

pub digits_then-append :
    (ds rest : List ℕ)
    → all_digits ds ≡ true
    → digits_then (length ds) (ds ++ rest) ≡ some (ds, rest)
unfolding digits_then all_digits
digits_then-append [] rest h = refl
digits_then-append (d ∷ ds) rest h = ground (arith, digits_then-append ds rest)

pub digits_only-append :
    (ds rest : List ℕ) → all_digits ds ≡ true → digits_only (ds ++ rest) ≡ ds ++ digits_only rest
unfolding digits_only all_digits
digits_only-append [] rest h = refl
digits_only-append (d ∷ ds) rest h = ground (arith, digits_only-append ds rest)
