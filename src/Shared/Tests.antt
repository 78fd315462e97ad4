-- ===== src/Shared/Tests.antt =====
-- Runs of the shared helpers (packages/shared/src), and what the theorems say of them.
use lex_os.Prelude.{
  ℕ, ◌⊎◌, ◌≡◌, ◌↔◌, ◌≢◌, refl, ◌<◌, ◌++◌, length, false, true, List, [], ◌∷◌, ok, some, String, All,
  arith, ◌+◌, ◌-◌, ◌==◌, ap,
}
use lex_os.Shared.Totp.Stored.{
  Cipher, IsFaithful, encrypt_secret, decrypt_secret, decrypt_secret-encrypt_secret,
}
use lex_os.Shared.Knowledge.{
  Options, normalize_with_source_map, chunk_knowledge_text, is_invalid, Chunk,
}
use lex_os.Shared.Knowledge.Boundaries.{Cover, chunk_knowledge_text-Cover}
use lex_os.Shared.Knowledge.Normalized.{Forward, normalize-Forward}
use lex_os.Shared.Base32.{encode_base32, decode_base32}
use lex_os.Shared.Base32.Rounds.{decode_base32-encode_base32}
use lex_os.Shared.Digits.{is_digit, all_digits, value_from}
use lex_os.Shared.Cnj.{
  CnjParts, punctuated, parse_cnj, has_expected_digit, expected_digit, without_check,
}
use lex_os.Shared.Cnj.Written.{IsWritten, parse_cnj-punctuated}
use lex_os.Shared.Cnj.Errors.{has_expected_digit_refuses}
use lex_os.Shared.CpfCnpj.{
  is_valid_cpf, is_valid_cnpj, digito_cpf, digito_cnpj, weighted, weighted_by,
  tem_digitos_repetidos,
}
use lex_os.Shared.CpfCnpj.Valid.{
  dot, Closes, Differ, cpf_weights, cnpj_weights, is_valid_cpf_iff, is_valid_cnpj_iff,
}

-- "Um  texto\n de prova com mais de trinta e duas unidades ", with its repeated spaces and its break of line.
abbrev text : List ℕ
text =
    85 ∷ 109 ∷ 32 ∷ 32 ∷ 116 ∷ 101 ∷ 120 ∷ 116 ∷ 111 ∷ 10 ∷ 32 ∷ 100 ∷ 101 ∷ 32 ∷ 112 ∷ 114 ∷ 111
    ∷ 118 ∷ 97 ∷ 32 ∷ 99 ∷ 111 ∷ 109 ∷ 32 ∷ 109 ∷ 97 ∷ 105 ∷ 115 ∷ 32 ∷ 100 ∷ 101 ∷ 32 ∷ 116 ∷ 114
    ∷ 105 ∷ 110 ∷ 116 ∷ 97 ∷ 32 ∷ 101 ∷ 32 ∷ 100 ∷ 117 ∷ 97 ∷ 115 ∷ 32 ∷ 117 ∷ 110 ∷ 105 ∷ 100 ∷ 97
    ∷ 100 ∷ 101 ∷ 115 ∷ 32 ∷ []

abbrev short : Options
short = record { maximum_characters = 32; overlap_characters = 4; page_number = 1 }

abbrev no_hash : List ℕ → String
no_hash cs = ""

short_is_valid : is_invalid short ≡ false
unfolding is_invalid
short_is_valid = refl

chunk_knowledge_text-Cover_example :
    (cs : List Chunk) × (chunk_knowledge_text no_hash short text ≡ ok cs)
    × Cover no_hash short (normalize_with_source_map text) 0 0 cs
chunk_knowledge_text-Cover_example = chunk_knowledge_text-Cover no_hash short text short_is_valid

normalize-Forward_example :
    (normalize_with_source_map text ≡ [])
    ⊎ Forward (length text) 0 true (normalize_with_source_map text)
normalize-Forward_example = normalize-Forward text

abbrev secret : List ℕ
secret = 0 ∷ 255 ∷ 17 ∷ 128 ∷ 64 ∷ 3 ∷ 200 ∷ []

secret_bytes : All (λ b. b < 256) secret
secret_bytes = ground arith

decode_base32-encode_base32_example : decode_base32 (encode_base32 secret) ≡ ok secret
decode_base32-encode_base32_example = decode_base32-encode_base32 secret secret_bytes

abbrev number : CnjParts
number = record {
  sequential = 48 ∷ 48 ∷ 48 ∷ 49 ∷ 50 ∷ 51 ∷ 52 ∷ [];
  check_digit = 55 ∷ 49 ∷ [];
  year = 50 ∷ 48 ∷ 50 ∷ 52 ∷ [];
  segment = 56 ∷ [];
  court = 50 ∷ 54 ∷ [];
  origin = 48 ∷ 49 ∷ 48 ∷ 48 ∷ [];
}

number-IsWritten : IsWritten number
unfolding all_digits is_digit
number-IsWritten = record {
  sequential = (refl, refl);
  check_digit = (refl, refl);
  year = (refl, refl);
  segment = (refl, refl);
  court = (refl, refl);
  origin = (refl, refl);
}

parse_cnj-punctuated_example : parse_cnj (punctuated number) ≡ some number
parse_cnj-punctuated_example = parse_cnj-punctuated number number-IsWritten

has_digit : has_expected_digit number ≡ true
unfolding has_expected_digit expected_digit without_check value_from
has_digit = refl

abbrev before : List ℕ
before = 48 ∷ 48 ∷ 48 ∷ 49 ∷ []

abbrev after : List ℕ
after = 51 ∷ 52 ∷ 50 ∷ 48 ∷ 50 ∷ 52 ∷ 56 ∷ 50 ∷ 54 ∷ 48 ∷ 49 ∷ 48 ∷ 48 ∷ []

split : without_check number ≡ before ++ 50 ∷ after
unfolding without_check
split = refl

two_is_digit : is_digit 50 ≡ true
unfolding is_digit
two_is_digit = refl

abbrev misread : CnjParts
misread = record number { sequential = 48 ∷ 48 ∷ 48 ∷ 49 ∷ 55 ∷ 51 ∷ 52 ∷ [] }

misread_split : without_check misread ≡ before ++ 55 ∷ after
unfolding without_check
misread_split = refl

seven_is_digit : is_digit 55 ≡ true
unfolding is_digit
seven_is_digit = refl

two_not_seven : ◌≢◌ {A = ℕ} 50 55
two_not_seven e = omega (arith, e)

has_expected_digit_refuses_example : has_expected_digit misread ≡ false
has_expected_digit_refuses_example =
    has_expected_digit_refuses number misread before after 50 55 has_digit refl split misread_split
      two_is_digit seven_is_digit two_not_seven

abbrev cpf : List ℕ
cpf = 53 ∷ 50 ∷ 57 ∷ 57 ∷ 56 ∷ 50 ∷ 50 ∷ 52 ∷ 55 ∷ []

cpf_holds : is_valid_cpf (cpf ++ 50 ∷ 53 ∷ []) ≡ true
unfolding is_valid_cpf all_digits is_digit tem_digitos_repetidos digito_cpf weighted
cpf_holds = refl

cpf_digits : all_digits (cpf ++ 50 ∷ 53 ∷ []) ≡ true
unfolding all_digits is_digit
cpf_digits = refl

is_valid_cpf_iff_example : (is_valid_cpf (cpf ++ 50 ∷ 53 ∷ []) ≡ true) ↔ (
    Differ (cpf ++ 50 ∷ 53 ∷ [])
    × Closes (dot cpf_weights cpf) 2
    × Closes (dot (11 ∷ cpf_weights) (cpf ++ 50 ∷ [])) 5)
is_valid_cpf_iff_example = is_valid_cpf_iff cpf 50 53 cpf_digits refl

abbrev cnpj : List ℕ
cnpj = 49 ∷ 49 ∷ 50 ∷ 50 ∷ 50 ∷ 51 ∷ 51 ∷ 51 ∷ 48 ∷ 48 ∷ 48 ∷ 49 ∷ []

cnpj_holds : is_valid_cnpj (cnpj ++ 56 ∷ 49 ∷ []) ≡ true
unfolding is_valid_cnpj all_digits is_digit tem_digitos_repetidos digito_cnpj weighted_by
cnpj_holds = refl

cnpj_digits : all_digits (cnpj ++ 56 ∷ 49 ∷ []) ≡ true
unfolding all_digits is_digit
cnpj_digits = refl

is_valid_cnpj_iff_example : (is_valid_cnpj (cnpj ++ 56 ∷ 49 ∷ []) ≡ true) ↔ (
    Differ (cnpj ++ 56 ∷ 49 ∷ [])
    × Closes (dot cnpj_weights cnpj) 8
    × Closes (dot (6 ∷ cnpj_weights) (cnpj ++ 56 ∷ [])) 1)
is_valid_cnpj_iff_example = is_valid_cnpj_iff cnpj 56 49 cnpj_digits refl

abbrev raised : List ℕ → List ℕ
raised [] = []
raised (c ∷ cs) = (c + 59) ∷ raised cs

abbrev lowered : List ℕ → List ℕ
lowered [] = []
lowered (c ∷ cs) = (c - 59) ∷ lowered cs

-- A cipher that moves every code out of the reach of the colon.
abbrev cipher : Cipher
cipher = record {
  seal = λ cs. record { iv = 49 ∷ []; tag = 50 ∷ []; payload = raised cs };
  open_sealed = λ x. ok (lowered x.payload);
}

sub_after_add : (c : ℕ) → c + 59 - 59 ≡ c
sub_after_add c = omega arith

lowered-raised : (cs : List ℕ) → lowered (raised cs) ≡ cs
lowered-raised [] = refl
lowered-raised (c ∷ cs) = rw (lowered-raised cs, sub_after_add c) refl

raised-HasNoColon : (cs : List ℕ) → All (λ c. (c == 58) ≡ false) (raised cs)
raised-HasNoColon [] = tt
raised-HasNoColon (c ∷ cs) = (grind arith, raised-HasNoColon cs)

cipher-IsFaithful : IsFaithful cipher
cipher-IsFaithful = record {
  opens = λ cs. ap ok (lowered-raised cs);
  iv = λ cs. (refl, tt);
  tag = λ cs. (refl, tt);
  payload = raised-HasNoColon;
}

decrypt_secret-encrypt_secret_example :
    decrypt_secret cipher (encrypt_secret cipher (74 ∷ 66 ∷ 58 ∷ 50 ∷ []))
    ≡ ok (74 ∷ 66 ∷ 58 ∷ 50 ∷ [])
decrypt_secret-encrypt_secret_example =
    decrypt_secret-encrypt_secret cipher (74 ∷ 66 ∷ 58 ∷ 50 ∷ []) cipher-IsFaithful
