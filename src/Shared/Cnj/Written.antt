-- ===== src/Shared/Cnj/Written.antt =====
-- A case number that is written with its punctuation is read back (packages/shared/src/cnj.ts).
use mathlib.Core.List.{append-nil}
use lex_os.Prelude.{
  subst, take, drop, length-append, ℕ, zero, suc, ◌+◌, ◌-◌, ◌≡◌, refl, ◌∙◌, ap, true, false, some,
  List, [], ◌∷◌, ◌++◌, arith, ◌==◌, length,
}
use lex_os.Shared.Digits.{
  is_digit, all_digits, digits_only, digits_then, exactly, digits_then-append, digits_only-append,
}
use lex_os.Shared.Cnj.{CnjParts, punctuated, normalize_cnj, match_pattern, parse_cnj, slice}

-- A number that is put together from its parts, each of its length and all of digits.
pub record IsWritten (p : CnjParts) : Type 0 where
  pub sequential : (length p.sequential ≡ 7) × (all_digits p.sequential ≡ true)
  pub check_digit : (length p.check_digit ≡ 2) × (all_digits p.check_digit ≡ true)
  pub year : (length p.year ≡ 4) × (all_digits p.year ≡ true)
  pub segment : (length p.segment ≡ 1) × (all_digits p.segment ≡ true)
  pub court : (length p.court ≡ 2) × (all_digits p.court ≡ true)
  pub origin : (length p.origin ≡ 4) × (all_digits p.origin ≡ true)

field :
    (n : ℕ) (ds rest : List ℕ)
    → (length ds ≡ n) × (all_digits ds ≡ true)
    → digits_then n (ds ++ rest) ≡ some (ds, rest)
field n ds rest (long, written) =
    subst (λ k. digits_then k (ds ++ rest) ≡ some (ds, rest)) long
      (digits_then-append ds rest written)

match_pattern-punctuated : (p : CnjParts) → IsWritten p → match_pattern (punctuated p) ≡ some p
unfolding match_pattern punctuated exactly
match_pattern-punctuated p w =
    let last : digits_then 4 p.origin ≡ some (p.origin, []) =
      rw append-nil at (field 4 p.origin [] w.origin) in
    rw
      (
        field 7 p.sequential _ w.sequential,
        field 2 p.check_digit _ w.check_digit,
        field 4 p.year _ w.year,
        field 1 p.segment _ w.segment,
        field 2 p.court _ w.court,
        last,
      )
      refl

drop_past :
    (n m k : ℕ) (ds rest : List ℕ) → length ds ≡ n → m ≡ n + k → drop m (ds ++ rest) ≡ drop k rest
drop_past n m k [] rest long e = let same : m ≡ k = omega arith in rw same refl
drop_past n zero k (d ∷ ds) rest long e = absurd (omega arith)
drop_past n (suc m) k (d ∷ ds) rest long e =
    drop_past (n - 1) m k ds rest (omega arith) (omega arith)

take_field : (n : ℕ) (ds rest : List ℕ) → length ds ≡ n → take n (ds ++ rest) ≡ ds
take_field zero [] rest long = refl
take_field zero (d ∷ ds) rest long = absurd (omega arith)
take_field (suc n) [] rest long = absurd (omega arith)
take_field (suc n) (d ∷ ds) rest long = ap (λ xs. d ∷ xs) (take_field n ds rest (omega arith))

take_all : (n : ℕ) (ds : List ℕ) → length ds ≡ n → take n ds ≡ ds
take_all n ds long = rw append-nil at (take_field n ds [] long)

abbrev run_of : CnjParts → List ℕ
run_of p = p.sequential ++ (p.check_digit ++ (p.year ++ (p.segment ++ (p.court ++ p.origin))))

digits_only_all : (ds : List ℕ) → all_digits ds ≡ true → digits_only ds ≡ ds
unfolding digits_only all_digits
digits_only_all [] h = refl
digits_only_all (d ∷ ds) h = ground (arith, digits_only_all ds)

digits_only-skip :
    (c : ℕ) (cs : List ℕ) → is_digit c ≡ false → digits_only (c ∷ cs) ≡ digits_only cs
unfolding digits_only
digits_only-skip c cs h = rw h refl

dash : is_digit 45 ≡ false
unfolding is_digit
dash = refl

point : is_digit 46 ≡ false
unfolding is_digit
point = refl

digits_only-punctuated : (p : CnjParts) → IsWritten p → digits_only (punctuated p) ≡ run_of p
unfolding punctuated
digits_only-punctuated p w =
    rw
      (
        digits_only-append p.sequential _ w.sequential.1,
        digits_only-skip 45 _ dash,
        digits_only-append p.check_digit _ w.check_digit.1,
        digits_only-skip 46 (p.year ++ 46 ∷ (p.segment ++ 46 ∷ (p.court ++ 46 ∷ p.origin))) point,
        digits_only-append p.year _ w.year.1,
        digits_only-skip 46 (p.segment ++ 46 ∷ (p.court ++ 46 ∷ p.origin)) point,
        digits_only-append p.segment _ w.segment.1,
        digits_only-skip 46 (p.court ++ 46 ∷ p.origin) point,
        digits_only-append p.court _ w.court.1,
        digits_only-skip 46 p.origin point,
        digits_only_all p.origin w.origin.1,
      )
      refl

module _ (p : CnjParts) (w : IsWritten p) where
  check_slice : slice (run_of p) 7 9 ≡ p.check_digit
  check_slice =
      rw (drop_past 7 7 0 p.sequential _ w.sequential.0 (omega arith))
        (take_field 2 p.check_digit _ w.check_digit.0)

  after_check :
      (m k : ℕ)
      → m ≡ 9 + k
      → drop m (run_of p) ≡ drop k (p.year ++ (p.segment ++ (p.court ++ p.origin)))
  after_check m k e =
      drop_past 7 m (2 + k) p.sequential _ w.sequential.0 (omega arith)
      ∙ drop_past 2 (2 + k) k p.check_digit _ w.check_digit.0 refl

  year_slice : slice (run_of p) 9 13 ≡ p.year
  year_slice = rw (after_check 9 0 (omega arith)) (take_field 4 p.year _ w.year.0)

  segment_slice : slice (run_of p) 13 14 ≡ p.segment
  segment_slice =
      rw (after_check 13 4 (omega arith), drop_past 4 4 0 p.year _ w.year.0 (omega arith))
        (take_field 1 p.segment _ w.segment.0)

  court_slice : slice (run_of p) 14 16 ≡ p.court
  court_slice =
      rw
        (
          after_check 14 5 (omega arith),
          drop_past 4 5 1 p.year _ w.year.0 (omega arith),
          drop_past 1 1 0 p.segment _ w.segment.0 (omega arith),
        )
        (take_field 2 p.court _ w.court.0)

  origin_slice : slice (run_of p) 16 20 ≡ p.origin
  origin_slice =
      rw
        (
          after_check 16 7 (omega arith),
          drop_past 4 7 3 p.year _ w.year.0 (omega arith),
          drop_past 1 3 2 p.segment _ w.segment.0 (omega arith),
          drop_past 2 2 0 p.court _ w.court.0 (omega arith),
        )
        (take_all 4 p.origin w.origin.0)

  length-run_of : length (run_of p) ≡ 20
  length-run_of = omega (
    arith,
    length-append p.sequential (p.check_digit ++ (p.year ++ (p.segment ++ (p.court ++ p.origin)))),
    length-append p.check_digit (p.year ++ (p.segment ++ (p.court ++ p.origin))),
    length-append p.year (p.segment ++ (p.court ++ p.origin)),
    length-append p.segment (p.court ++ p.origin),
    length-append p.court p.origin,
    w.sequential.0,
    w.check_digit.0,
    w.year.0,
    w.segment.0,
    w.court.0,
    w.origin.0,
  )

  -- The punctuated text of a number is left as it is by the normalization.
  normalize_cnj-punctuated : normalize_cnj (punctuated p) ≡ punctuated p
  unfolding normalize_cnj
  normalize_cnj-punctuated =
      let twenty : (length (run_of p) == 20) ≡ true = rw length-run_of refl in
      rw
        (
          digits_only-punctuated p w,
          twenty,
          take_field 7 p.sequential _ w.sequential.0,
          check_slice,
          year_slice,
          segment_slice,
          court_slice,
          origin_slice,
        )
        refl

-- A number that is put together from well-formed parts and written with its punctuation is read
-- back as those parts.
pub parse_cnj-punctuated : (p : CnjParts) → IsWritten p → parse_cnj (punctuated p) ≡ some p
unfolding parse_cnj
parse_cnj-punctuated p w = rw (normalize_cnj-punctuated p w) (match_pattern-punctuated p w)
