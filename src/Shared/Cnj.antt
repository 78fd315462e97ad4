-- ===== src/Shared/Cnj.antt =====
-- The number of a court case: packages/shared/src/cnj.ts. A text is the list of its characters'
-- codes, and a number of any size a natural number, as `BigInt` is.
pub mod Errors
pub mod Written
use lex_os.Prelude.{
  ℕ, zero, suc, ◌+◌, ◌-◌, ◌*◌, ◌/◌, ◌%◌, Bool, true, false, ◌&&◌, ◌||◌, Option, none, some, List,
  [], ◌∷◌, ◌++◌, String, leb, ltb, ◌==◌, if◌then◌else◌, length, take, drop,
}
use lex_os.Shared.Knowledge.{is_space}
use lex_os.Shared.Digits.{digits_only, value_from, digits_then, exactly}

pub record CnjParts : Type 0 where
  pub sequential : List ℕ
  pub check_digit : List ℕ
  pub year : List ℕ
  pub segment : List ℕ
  pub court : List ℕ
  pub origin : List ℕ

unfoldable pub trim_start : List ℕ → List ℕ
trim_start [] = []
trim_start (c ∷ cs) = if is_space c then trim_start cs else c ∷ cs

abbrev is_nil : List ℕ → Bool
is_nil [] = true
is_nil (c ∷ cs) = false

unfoldable pub trim_end : List ℕ → List ℕ
trim_end [] = []
trim_end (c ∷ cs) = let rest = trim_end cs in if is_space c && is_nil rest then [] else c ∷ rest

abbrev pub slice : List ℕ → ℕ → ℕ → List ℕ
slice ds i e = take (e - i) (drop i ds)

-- The number with its punctuation, which is also what the pattern accepts.
unfoldable pub punctuated : CnjParts → List ℕ
punctuated p =
    p.sequential
    ++ 45 ∷ (p.check_digit ++ 46 ∷ (p.year ++ 46 ∷ (p.segment ++ 46 ∷ (p.court ++ 46 ∷ p.origin))))

unfoldable pub normalize_cnj : List ℕ → List ℕ
unfolding trim_start trim_end punctuated
normalize_cnj value =
    let digits = digits_only value in
    if length digits == 20
    then punctuated (record {
      sequential = slice digits 0 7;
      check_digit = slice digits 7 9;
      year = slice digits 9 13;
      segment = slice digits 13 14;
      court = slice digits 14 16;
      origin = slice digits 16 20;
    })
    else trim_end (trim_start value)

infixl 5 ◌>>=◌
abbrev ◌>>=◌ : {A B : Type 0} → Option A → (A → Option B) → Option B
none >>= k = none
some a >>= k = k a

-- `CNJ_PATTERN.exec`.
unfoldable pub match_pattern : List ℕ → Option CnjParts
match_pattern value = do
  (sequential, r1) ← digits_then 7 value
  r2 ← exactly 45 r1
  (check_digit, r3) ← digits_then 2 r2
  r4 ← exactly 46 r3
  (year, r5) ← digits_then 4 r4
  r6 ← exactly 46 r5
  (segment, r7) ← digits_then 1 r6
  r8 ← exactly 46 r7
  (court, r9) ← digits_then 2 r8
  r10 ← exactly 46 r9
  (origin, r11) ← digits_then 4 r10
  (if is_nil r11
      then some (record {
        sequential = sequential;
        check_digit = check_digit;
        year = year;
        segment = segment;
        court = court;
        origin = origin;
      })
      else none)

unfoldable pub parse_cnj : List ℕ → Option CnjParts
unfolding normalize_cnj match_pattern
parse_cnj value = match_pattern (normalize_cnj value)

unfoldable pub without_check : CnjParts → List ℕ
without_check p = p.sequential ++ (p.year ++ (p.segment ++ (p.court ++ p.origin)))

-- `98n - …` in two digits; the remainder is at most 96.
unfoldable pub expected_digit : CnjParts → ℕ
unfolding without_check
expected_digit p = 98 - (value_from 0 (without_check p) * 100) % 97

abbrev pub two_digits : ℕ → List ℕ
two_digits n = (48 + n / 10) ∷ (48 + n % 10) ∷ []

abbrev pub same_codes : List ℕ → List ℕ → Bool
same_codes [] [] = true
same_codes (c ∷ cs) (d ∷ ds) = c == d && same_codes cs ds
same_codes _ _ = false

unfoldable pub has_expected_digit : CnjParts → Bool
unfolding expected_digit
has_expected_digit p = same_codes (two_digits (expected_digit p)) p.check_digit

unfoldable pub is_valid_cnj : List ℕ → Bool
unfolding parse_cnj has_expected_digit
is_valid_cnj value = elim (parse_cnj value) [ none ↦ false | some p ↦ has_expected_digit p ]

segment_of : ℕ → Option String
segment_of c =
    if c == 49
    then some "Supremo Tribunal Federal"
    else if c == 50
    then some "Conselho Nacional de Justiça"
    else if c == 51
    then some "Superior Tribunal de Justiça"
    else if c == 52
    then some "Justiça Federal"
    else if c == 53
    then some "Justiça do Trabalho"
    else if c == 54
    then some "Justiça Eleitoral"
    else if c == 55
    then some "Justiça Militar da União"
    else if c == 56
    then some "Justiça dos Estados e do Distrito Federal"
    else if c == 57
    then some "Justiça Militar Estadual"
    else none

unfoldable pub cnj_segment_name : List ℕ → Option String
unfolding parse_cnj segment_of
cnj_segment_name value = elim (parse_cnj value) [
  | none ↦ none
  | some p ↦ elim p.segment [ [] ↦ none | c ∷ cs ↦ segment_of c ]
]
