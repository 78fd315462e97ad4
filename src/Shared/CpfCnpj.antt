-- ===== src/Shared/CpfCnpj.antt =====
-- The numbers of persons and of companies: packages/shared/src/cpf-cnpj.ts. A text is the list of
-- its characters' codes.
pub mod Valid
use lex_os.Prelude.{
  ℕ, zero, suc, ◌+◌, ◌-◌, ◌*◌, ◌%◌, ◌≤◌, ◌<◌, ◌≡◌, refl, ap, Bool, true, false, not, ◌&&◌, ◌||◌,
  List, [], ◌∷◌, ◌++◌, Option, none, some, arith, leb, ltb, ◌==◌, if◌then◌else◌, length, get_elem?,
  length-append,
}
use lex_os.Shared.Digits.{is_digit, all_digits}

abbrev all_same : ℕ → List ℕ → Bool
all_same c [] = true
all_same c (d ∷ ds) = d == c && all_same c ds

-- `/^(\d)\1+$/u`: two equal digits at least.
unfoldable pub tem_digitos_repetidos : List ℕ → Bool
unfolding is_digit
tem_digitos_repetidos [] = false
tem_digitos_repetidos (c ∷ []) = false
tem_digitos_repetidos (c ∷ d ∷ ds) = is_digit c && all_same c (d ∷ ds)

-- The loop of the sum: `n` digits, under falling weights.
unfoldable pub weighted : ℕ → ℕ → List ℕ → ℕ
weighted zero w cs = 0
weighted (suc n) w [] = 0
weighted (suc n) w (c ∷ cs) = (c - 48) * w + weighted n (w - 1) cs

unfoldable pub digito_cpf : List ℕ → ℕ → ℕ
digito_cpf digitos posicao =
    let resto = (weighted posicao (posicao + 1) digitos * 10) % 11 in
    if resto == 10 then 0 else resto

-- `Number(value[i])`, for the digits that the length makes sure of.
abbrev pub is_at : List ℕ → ℕ → ℕ → Bool
is_at cs i n = elim (get_elem? cs i) [ none ↦ false | some c ↦ c - 48 == n ]

unfoldable pub is_valid_cpf : List ℕ → Bool
is_valid_cpf value =
    (all_digits value && length value == 11)
    && (not (tem_digitos_repetidos value)
        && (is_at value 9 (digito_cpf value 9) && is_at value 10 (digito_cpf value 10)))

unfoldable pub weighted_by : List ℕ → List ℕ → ℕ
weighted_by [] cs = 0
weighted_by (w ∷ ws) [] = 0
weighted_by (w ∷ ws) (c ∷ cs) = (c - 48) * w + weighted_by ws cs

unfoldable pub digito_cnpj : List ℕ → List ℕ → ℕ
digito_cnpj digitos pesos =
    let resto = weighted_by pesos digitos % 11 in if ltb resto 2 then 0 else 11 - resto

abbrev pub primeiros_pesos : List ℕ
primeiros_pesos = 5 ∷ 4 ∷ 3 ∷ 2 ∷ 9 ∷ 8 ∷ 7 ∷ 6 ∷ 5 ∷ 4 ∷ 3 ∷ 2 ∷ []

abbrev pub segundos_pesos : List ℕ
segundos_pesos = 6 ∷ primeiros_pesos

unfoldable pub is_valid_cnpj : List ℕ → Bool
is_valid_cnpj value =
    if not (all_digits value && length value == 14) || tem_digitos_repetidos value
    then false
    else is_at value 12 (digito_cnpj value primeiros_pesos)
      && is_at value 13 (digito_cnpj value segundos_pesos)
