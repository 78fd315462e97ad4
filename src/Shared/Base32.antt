-- ===== src/Shared/Base32.antt =====
-- The text of a second-factor secret: `encodeBase32` and `decodeBase32` of
-- packages/shared/src/totp.ts. A JavaScript shift gives a number modulo 2 ^ 32; a text is the list
-- of its characters' codes.
pub mod Rounds
use lex_os.Prelude.{
  ℕ, zero, suc, ◌+◌, ◌-◌, ◌*◌, ◌/◌, ◌%◌, ◌^◌, ◌&&◌, ◌||◌, Bool, true, false, Option, none, some,
  List, [], ◌∷◌, ◌++◌, String, Result, ok, err, leb, ltb, ◌==◌, if◌then◌else◌, get_elem?, or_else,
}
use lex_os.Processing.Cost.{codes}
use lex_os.Shared.Knowledge.{is_space}

-- `number << count | low`, where `low` fits in the bits that become free.
abbrev pub shift_in : ℕ → ℕ → ℕ → ℕ
shift_in number count low = (number * 2 ^ count) % 2 ^ 32 + low

-- `number >>> count & mask`, the mask one less than `size`.
abbrev pub bits_at : ℕ → ℕ → ℕ → ℕ
bits_at number count size = number / 2 ^ count % size

unfoldable pub alphabet : List ℕ
alphabet = codes "ABCDEFGHIJKLMNOPQRSTUVWXYZ234567"

unfoldable pub character : ℕ → ℕ
unfolding alphabet
character d = or_else (get_elem? alphabet d) 0

-- `while (bits >= 5)`: the digits that the bits give, and the bits that are left.
unfoldable pub digits : ℕ → ℕ → ℕ → List ℕ
digits zero value bits = []
digits (suc fuel) value bits =
    let rest = digits fuel value (bits - 5) in
    if leb 5 bits then bits_at value (bits - 5) 32 ∷ rest else []

unfoldable pub left_over : ℕ → ℕ → ℕ
left_over zero bits = bits
left_over (suc fuel) bits =
    let rest = left_over fuel (bits - 5) in if leb 5 bits then rest else bits

-- The loop on the bytes, with the digits as numbers; as many rounds of the inner loop as bits.
unfoldable pub encode_digits : List ℕ → ℕ → ℕ → List ℕ
unfolding digits left_over
encode_digits [] bits value = if ltb 0 bits then (value * 2 ^ (5 - bits)) % 2 ^ 32 % 32 ∷ [] else []
encode_digits (b ∷ bs) bits value =
    let value' = shift_in value 8 b in
    digits (bits + 8) value' (bits + 8) ++ encode_digits bs (left_over (bits + 8) (bits + 8)) value'

unfoldable pub characters : List ℕ → List ℕ
characters [] = []
characters (d ∷ ds) = character d ∷ characters ds

unfoldable pub encode_base32 : List ℕ → List ℕ
unfolding encode_digits characters character
encode_base32 bytes = characters (encode_digits bytes 0 0)

-- `toUpperCase` of one character, for those whose capitals are in the alphabet; no other character
-- becomes one of it.
unfoldable pub to_upper : ℕ → List ℕ
to_upper c =
    if leb 97 c && leb c 122
    then (c - 32) ∷ []
    else if c == 223
    then 83 ∷ 83 ∷ []
    else if c == 305
    then 73 ∷ []
    else if c == 383
    then 83 ∷ []
    else if c == 64256
    then 70 ∷ 70 ∷ []
    else if c == 64257
    then 70 ∷ 73 ∷ []
    else if c == 64258
    then 70 ∷ 76 ∷ []
    else if c == 64259
    then 70 ∷ 70 ∷ 73 ∷ []
    else if c == 64260
    then 70 ∷ 70 ∷ 76 ∷ []
    else if c == 64261 || c == 64262
    then 83 ∷ 84 ∷ []
    else c ∷ []

-- `value.replace(/[\s=]/gu, '').toUpperCase()`.
unfoldable pub clean : List ℕ → List ℕ
clean [] = []
clean (c ∷ cs) = if is_space c || c == 61 then clean cs else to_upper c ++ clean cs

abbrev pub index_in : ℕ → List ℕ → ℕ → Option ℕ
index_in c [] i = none
index_in c (x ∷ xs) i = if x == c then some i else index_in c xs (i + 1)

abbrev pub invalid_base32 : String
invalid_base32 = "The shared secret is not valid base32."

unfoldable pub digits_of : List ℕ → Result (List ℕ)
digits_of [] = ok []
digits_of (c ∷ cs) = elim (index_in c alphabet 0) [
  | none ↦ err invalid_base32
  | some d ↦ elim (digits_of cs) [ err e ↦ err e | ok ds ↦ ok (d ∷ ds) ]
]

unfoldable pub decode_digits : List ℕ → ℕ → ℕ → List ℕ
decode_digits [] bits accumulator = []
decode_digits (d ∷ ds) bits accumulator =
    let accumulator' = shift_in accumulator 5 d in
    let full = decode_digits ds (bits + 5 - 8) accumulator' in
    let more = decode_digits ds (bits + 5) accumulator' in
    if leb 8 (bits + 5) then bits_at accumulator' (bits + 5 - 8) 256 ∷ full else more

unfoldable pub decode_base32 : List ℕ → Result (List ℕ)
unfolding clean digits_of decode_digits
decode_base32 value = elim (digits_of (clean value)) [
  | err e ↦ err e
  | ok ds ↦ ok (decode_digits ds 0 0)
]
