-- ===== src/Shared/CpfCnpj/Valid.antt =====
-- Which CPF and CNPJ numbers are valid, by the sums that their check digits close (packages/shared/
-- src/cpf-cnpj.ts).
use mathlib.Core.List.{append_assoc, Memᴰ}
use lex_os.Prelude.{
  ℕ, zero, suc, ◌+◌, ◌-◌, ◌*◌, ◌%◌, ◌<◌, ◌≡◌, ◌≢◌, ◌↔◌, ◌⊎◌, refl, sym, ◌∙◌, ap, inl, inr, Bool,
  true, false, not, ◌&&◌, ◌||◌, List, [], ◌∷◌, ◌++◌, some, arith, length, get_elem?, length-append,
  ltb, ◌==◌, ==_iff, if◌then◌else◌, Bool-cases,
}
use lex_os.Shared.Digits.{all_digits}
use lex_os.Shared.CpfCnpj.{
  all_same, tem_digitos_repetidos, weighted, weighted_by, digito_cpf, digito_cnpj, is_at,
  is_valid_cpf, is_valid_cnpj, primeiros_pesos, segundos_pesos,
}

-- The sum of the digits, each under its weight.
abbrev pub dot : List ℕ → List ℕ → ℕ
dot [] cs = 0
dot (w ∷ ws) [] = 0
dot (w ∷ ws) (c ∷ cs) = (c - 48) * w + dot ws cs

-- A check digit closes a sum: together they are a multiple of 11, or the digit is 0 where the sum
-- would ask for ten.
abbrev pub Closes : ℕ → ℕ → Type 0
Closes sum digit = ((digit < 10) × ((sum + digit) % 11 ≡ 0)) ⊎ ((digit ≡ 0) × (sum % 11 ≡ 1))

-- Some character differs from the first.
abbrev pub Differ : List ℕ → Type 0
Differ [] = ⊥
Differ (c ∷ cs) = (d : ℕ) × Memᴰ d cs × (d ≢ c)

abbrev pub cpf_weights : List ℕ
cpf_weights = 10 ∷ 9 ∷ 8 ∷ 7 ∷ 6 ∷ 5 ∷ 4 ∷ 3 ∷ 2 ∷ []

abbrev pub cnpj_weights : List ℕ
cnpj_weights = 5 ∷ 4 ∷ 3 ∷ 2 ∷ 9 ∷ 8 ∷ 7 ∷ 6 ∷ 5 ∷ 4 ∷ 3 ∷ 2 ∷ []

cpf_rule : ℕ → ℕ
cpf_rule sum = let resto = (sum * 10) % 11 in if resto == 10 then 0 else resto

cnpj_rule : ℕ → ℕ
cnpj_rule sum = let resto = sum % 11 in if ltb resto 2 then 0 else 11 - resto

cpf_rule-Closes : (sum d : ℕ) → (d ≡ cpf_rule sum) ↔ Closes sum d
unfolding cpf_rule
cpf_rule-Closes sum d = (there, back)
  where
    there : d ≡ cpf_rule sum → Closes sum d
    there h = elim (Bool-cases ((sum * 10) % 11 == 10)) [
      | inl ten ↦ inr (ground arith, ground arith)
      | inr other ↦ inl (ground arith, ground arith)
    ]

    back : Closes sum d → d ≡ cpf_rule sum
    back h = ground arith

cnpj_rule-Closes : (sum d : ℕ) → (d ≡ cnpj_rule sum) ↔ Closes sum d
unfolding cnpj_rule
cnpj_rule-Closes sum d = (there, back)
  where
    there : d ≡ cnpj_rule sum → Closes sum d
    there h = elim (Bool-cases (sum % 11 == 1)) [
      | inl one ↦ inr (ground arith, ground arith)
      | inr other ↦ inl (ground arith, ground arith)
    ]

    back : Closes sum d → d ≡ cnpj_rule sum
    back h = ground arith

falling : ℕ → ℕ → List ℕ
falling zero w = []
falling (suc n) w = w ∷ falling n (w - 1)

weighted-dot :
    (n w : ℕ) (base rest : List ℕ)
    → length base ≡ n
    → weighted n w (base ++ rest) ≡ dot (falling n w) base
unfolding weighted falling
weighted-dot zero w [] rest h = refl
weighted-dot zero w (c ∷ base) rest h = absurd (omega arith)
weighted-dot (suc n) w [] rest h = absurd (omega arith)
weighted-dot (suc n) w (c ∷ base) rest h =
    ap (λ k. (c - 48) * w + k) (weighted-dot n (w - 1) base rest (omega arith))

weighted_by-dot :
    (ws base rest : List ℕ) → length base ≡ length ws → weighted_by ws (base ++ rest) ≡ dot ws base
unfolding weighted_by
weighted_by-dot [] [] rest h = refl
weighted_by-dot [] (c ∷ base) rest h = absurd (omega arith)
weighted_by-dot (w ∷ ws) [] rest h = absurd (omega arith)
weighted_by-dot (w ∷ ws) (c ∷ base) rest h =
    ap (λ k. (c - 48) * w + k) (weighted_by-dot ws base rest (omega arith))

get_elem?-append :
    (n : ℕ) (base rest : List ℕ) (x : ℕ) → length base ≡ n → get_elem? (base ++ x ∷ rest) n ≡ some x
get_elem?-append zero [] rest x h = refl
get_elem?-append zero (b ∷ base) rest x h = absurd (omega arith)
get_elem?-append (suc n) [] rest x h = absurd (omega arith)
get_elem?-append (suc n) (b ∷ base) rest x h = get_elem?-append n base rest x (omega arith)

is_at-append :
    (n d : ℕ) (base rest : List ℕ) (x : ℕ)
    → length base ≡ n
    → (is_at (base ++ x ∷ rest) n d ≡ true) ↔ (x - 48 ≡ d)
is_at-append n d base rest x h = rw (get_elem?-append n base rest x h, is_at) (==_iff (x - 48) d)

differs : (c : ℕ) (ds : List ℕ) → all_same c ds ≡ false → (d : ℕ) × Memᴰ d ds × (d ≢ c)
differs c [] h = absurd (cc)
differs c (d ∷ ds) h = elim (Bool-cases (d == c)) [
  | inr other ↦ (d, Memᴰ.head refl, λ same. absurd (ground arith))
  | inl same ↦ let (e, m, other) = differs c ds (rw same at h) in (e, Memᴰ.tail m, other)
]

not_all_same : (c d : ℕ) (ds : List ℕ) → Memᴰ d ds → d ≢ c → all_same c ds ≡ false
not_all_same c d [] m other = elim m [ ]
not_all_same c d (e ∷ ds) (Memᴰ.head is) other =
    let here : e ≢ c = λ same. other (is ∙ same) in ground (arith, here)
not_all_same c d (e ∷ ds) (Memᴰ.tail m) other = ground (arith, not_all_same c d ds m other)

-- The repeated digits that are refused are those with no two that differ.
repeated-Differ :
    (value : List ℕ)
    → all_digits value ≡ true
    → 1 < length value
    → (tem_digitos_repetidos value ≡ false) ↔ Differ value
unfolding tem_digitos_repetidos all_digits
repeated-Differ [] digits long = absurd (omega arith)
repeated-Differ (c ∷ []) digits long = absurd (omega arith)
repeated-Differ (c ∷ d ∷ ds) digits long = (
  (λ h. differs c (d ∷ ds) (ground arith)),
  (λ (e, m, other). let mixed = not_all_same c e (d ∷ ds) m other in ground arith),
)

module _ (base rest : List ℕ) (x n : ℕ) (h : length base ≡ n) where
  cpf_place :
      (is_at (base ++ x ∷ rest) n (digito_cpf (base ++ x ∷ rest) n) ≡ true)
      ↔ Closes (dot (falling n (n + 1)) base) (x - 48)
  unfolding digito_cpf cpf_rule
  cpf_place =
      let same : digito_cpf (base ++ x ∷ rest) n ≡ cpf_rule (dot (falling n (n + 1)) base) =
        ap cpf_rule (weighted-dot n (n + 1) base (x ∷ rest) h) in
      let place = is_at-append n (digito_cpf (base ++ x ∷ rest) n) base rest x h in
      let rule = cpf_rule-Closes (dot (falling n (n + 1)) base) (x - 48) in
      ((λ e. rule.0 (place.0 e ∙ same)), (λ k. place.1 (rule.1 k ∙ sym same)))

  cnpj_place :
      (ws : List ℕ)
      → length base ≡ length ws
      → (is_at (base ++ x ∷ rest) n (digito_cnpj (base ++ x ∷ rest) ws) ≡ true)
        ↔ Closes (dot ws base) (x - 48)
  unfolding digito_cnpj cnpj_rule
  cnpj_place ws k =
      let same : digito_cnpj (base ++ x ∷ rest) ws ≡ cnpj_rule (dot ws base) =
        ap cnpj_rule (weighted_by-dot ws base (x ∷ rest) k) in
      let place = is_at-append n (digito_cnpj (base ++ x ∷ rest) ws) base rest x h in
      let rule = cnpj_rule-Closes (dot ws base) (x - 48) in
      ((λ e. rule.0 (place.0 e ∙ same)), (λ k. place.1 (rule.1 k ∙ sym same)))

-- How the two checks put their tests together.
cpf_tests :
    (a b c d e : Bool)
    → a ≡ true
    → b ≡ true
    → (((a && b) && (not c && (d && e))) ≡ true) ↔ ((c ≡ false) × (d ≡ true) × (e ≡ true))
cpf_tests a b c d e h k = ground arith

cnpj_tests :
    (a b c d e : Bool)
    → a ≡ true
    → b ≡ true
    → ((if not (a && b) || c then false else d && e) ≡ true)
      ↔ ((c ≡ false) × (d ≡ true) × (e ≡ true))
cnpj_tests a b c d e h k = ground arith

module _ (base : List ℕ) (x y : ℕ) (digits : all_digits (base ++ x ∷ y ∷ []) ≡ true) where
  abbrev whole : List ℕ
  whole = base ++ x ∷ y ∷ []

  again : base ++ x ∷ y ∷ [] ≡ (base ++ x ∷ []) ++ y ∷ []
  again = sym (append_assoc base (x ∷ []) (y ∷ []))

  -- Eleven digits are a valid CPF number exactly if they are not all the same, the tenth closes the
  -- sum of the first nine under the weights 10 to 2, and the last closes the sum of the first ten
  -- under the weights 11 to 2.
  pub is_valid_cpf_iff :
      length base ≡ 9
      → (is_valid_cpf (base ++ x ∷ y ∷ []) ≡ true) ↔ (
          Differ (base ++ x ∷ y ∷ [])
          × Closes (dot cpf_weights base) (x - 48)
          × Closes (dot (11 ∷ cpf_weights) (base ++ x ∷ [])) (y - 48))
  unfolding is_valid_cpf falling
  is_valid_cpf_iff h =
      let eleven : length whole ≡ 11 = omega (arith, h, length-append base (x ∷ y ∷ [])) in
      let ten : length (base ++ x ∷ []) ≡ 10 = omega (arith, h, length-append base (x ∷ [])) in
      let first = cpf_place base (y ∷ []) x 9 h in
      let second : (is_at whole 10 (digito_cpf whole 10) ≡ true)
          ↔ Closes (dot (11 ∷ cpf_weights) (base ++ x ∷ [])) (y - 48) =
        rw again (cpf_place (base ++ x ∷ []) [] y 10 ten) in
      let mixed = repeated-Differ whole digits (omega arith) in
      let tests =
        cpf_tests (all_digits whole) (length whole == 11) (tem_digitos_repetidos whole)
          (is_at whole 9 (digito_cpf whole 9)) (is_at whole 10 (digito_cpf whole 10)) digits
          ((==_iff (length whole) 11).1 eleven) in
      (
        (λ v. let (c, d, e) = tests.0 v in (mixed.0 c, first.0 d, second.0 e)),
        (λ (c, d, e). tests.1 (mixed.1 c, first.1 d, second.1 e)),
      )

  -- Fourteen digits are a valid CNPJ number exactly if they are not all the same, the thirteenth
  -- closes the sum of the first twelve under the weights 5 to 2 and 9 to 2, and the last closes the
  -- sum of the first thirteen under the weights 6 to 2 and 9 to 2.
  pub is_valid_cnpj_iff :
      length base ≡ 12
      → (is_valid_cnpj (base ++ x ∷ y ∷ []) ≡ true) ↔ (
          Differ (base ++ x ∷ y ∷ [])
          × Closes (dot cnpj_weights base) (x - 48)
          × Closes (dot (6 ∷ cnpj_weights) (base ++ x ∷ [])) (y - 48))
  unfolding is_valid_cnpj
  is_valid_cnpj_iff h =
      let fourteen : length whole ≡ 14 = omega (arith, h, length-append base (x ∷ y ∷ [])) in
      let thirteen : length (base ++ x ∷ []) ≡ 13 = omega (arith, h, length-append base (x ∷ [])) in
      let first = cnpj_place base (y ∷ []) x 12 h primeiros_pesos h in
      let second : (is_at whole 13 (digito_cnpj whole segundos_pesos) ≡ true)
          ↔ Closes (dot (6 ∷ cnpj_weights) (base ++ x ∷ [])) (y - 48) =
        rw again (cnpj_place (base ++ x ∷ []) [] y 13 thirteen segundos_pesos thirteen) in
      let mixed = repeated-Differ whole digits (omega arith) in
      let tests =
        cnpj_tests (all_digits whole) (length whole == 14) (tem_digitos_repetidos whole)
          (is_at whole 12 (digito_cnpj whole primeiros_pesos))
          (is_at whole 13 (digito_cnpj whole segundos_pesos)) digits
          ((==_iff (length whole) 14).1 fourteen) in
      (
        (λ v. let (c, d, e) = tests.0 v in (mixed.0 c, first.0 d, second.0 e)),
        (λ (c, d, e). tests.1 (mixed.1 c, first.1 d, second.1 e)),
      )
