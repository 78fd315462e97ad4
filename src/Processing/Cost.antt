-- ===== src/Processing/Cost.antt =====
-- Amounts of money: `costDecimal` of apps/worker/src/processing/processing.repository.ts. An
-- amount is counted in millionths, the six decimals of the columns.
use Prim.Native.Char.{code}
use lex_os.Prelude.{
  ℕ, ◌+◌, ◌-◌, ◌*◌, ◌^◌, Bool, true, false, ◌&&◌, ◌||◌, Option, none, some, List, [], ◌∷◌, String,
  Result, ok, err, length, leb, ◌==◌, if◌then◌else◌,
}

-- The code points of a text.
abbrev pub codes : String → List ℕ
codes String.[] = []
codes (String.◌∷◌ c s) = code c ∷ codes s

abbrev pub is_digit : ℕ → Bool
is_digit c = leb b'0' c && leb c b'9'

abbrev pub all_digits : List ℕ → Bool
all_digits [] = true
all_digits (c ∷ cs) = is_digit c && all_digits cs

abbrev pub digits_value : ℕ → List ℕ → ℕ
digits_value n [] = n
digits_value n (c ∷ cs) = digits_value (10 * n + (c - b'0')) cs

-- The part before the first dot, and the part behind it if there is a dot.
split_dot : List ℕ → List ℕ × Option (List ℕ)
split_dot [] = ([], none)
split_dot (c ∷ cs) =
    let (whole, rest) = split_dot cs in if c == b'.' then ([], some cs) else (c ∷ whole, rest)

-- `0|[1-9]\d{0,11}`
whole_part_ok : List ℕ → Bool
whole_part_ok [] = false
whole_part_ok (c ∷ cs) =
    ((c == b'0') && (length cs == 0))
    || ((leb b'1' c && leb c b'9') && (all_digits cs && leb (length cs) 11))

-- `(\.\d{1,6})?`
fraction_ok : Option (List ℕ) → Bool
fraction_ok none = true
fraction_ok (some ds) = all_digits ds && (leb 1 (length ds) && leb (length ds) 6)

-- The fraction in millionths.
fraction_value : Option (List ℕ) → ℕ
fraction_value none = 0
fraction_value (some ds) = digits_value 0 ds * 10 ^ (6 - length ds)

abbrev pub invalid_amount : String
invalid_amount = "Cost policy returned an invalid non-negative six-decimal amount."

unfoldable pub cost_decimal : String → Result ℕ
unfolding split_dot whole_part_ok fraction_ok fraction_value
cost_decimal value =
    let (whole, fraction) = split_dot (codes value) in
    if whole_part_ok whole && fraction_ok fraction
    then ok (digits_value 0 whole * 1000000 + fraction_value fraction)
    else err invalid_amount
