-- ===== src/Shared/Base32/Rounds.antt =====
-- Decoding an encoded secret gives it back (packages/shared/src/totp.ts).
use lex_os.Prelude.{
  ℕ, zero, suc, ◌+◌, ◌-◌, ◌*◌, ◌/◌, ◌%◌, ◌^◌, ◌<◌, ◌≡◌, refl, ap, ◌∙◌, inl, inr, not, ◌++◌, Option,
  none, some, Bool, true, false, ◌&&◌, ◌||◌, Bool-cases, all_below, all_below_sound, List, [], ◌∷◌,
  ok, arith, All, ltb, leb, ◌==◌,
}
use lex_os.Shared.Knowledge.{is_space}
use lex_os.Shared.Base32.{
  alphabet, character, characters, digits, encode_digits, encode_base32, to_upper, clean, index_in,
  digits_of, decode_digits, decode_base32, shift_in, bits_at,
}

-- Between two bytes the encoder holds none to four bits, and the decoder the rest of a byte.
data Phase : Type 0 where
  whole three one four two : Phase

abbrev held : Phase → ℕ
held whole = 0
held three = 3
held one = 1
held four = 4
held two = 2

abbrev decoded : Phase → ℕ
decoded whole = 0
decoded three = 5
decoded one = 7
decoded four = 4
decoded two = 6

-- What is still to be decoded: the byte that both hold together, and the bytes to come.
abbrev pending : Phase → ℕ → ℕ → List ℕ → List ℕ
pending whole a v bs = bs
pending three a v bs = (a % 32 * 8 + v % 8) ∷ bs
pending one a v bs = (a % 128 * 2 + v % 2) ∷ bs
pending four a v bs = (a % 16 * 16 + v % 16) ∷ bs
pending two a v bs = (a % 64 * 4 + v % 4) ∷ bs

cons_eq : {x y : ℕ} {xs ys : List ℕ} → x ≡ y → xs ≡ ys → x ∷ xs ≡ y ∷ ys
cons_eq p q = cc

decode_digits-encode_digits :
    (p : Phase) (bs : List ℕ) (v a : ℕ)
    → All (λ b. b < 256) bs
    → decode_digits (encode_digits bs (held p) v) (decoded p) a ≡ pending p a v bs
unfolding encode_digits decode_digits
decode_digits-encode_digits whole [] v a h = refl
decode_digits-encode_digits three [] v a h = ap (λ x. x ∷ []) (omega arith)
decode_digits-encode_digits one [] v a h = ap (λ x. x ∷ []) (omega arith)
decode_digits-encode_digits four [] v a h = ap (λ x. x ∷ []) (omega arith)
decode_digits-encode_digits two [] v a h = ap (λ x. x ∷ []) (omega arith)
decode_digits-encode_digits whole (b ∷ bs) v a h =
    let v' = shift_in v 8 b in
    decode_digits-encode_digits three bs v' (shift_in a 5 (v' / 2 ^ 3 % 32)) h.1
    ∙ ap (λ x. x ∷ bs) (omega arith)
decode_digits-encode_digits three (b ∷ bs) v a h =
    let v' = shift_in v 8 b in
    let a1 = shift_in a 5 (bits_at v' 6 32) in
    cons_eq (omega arith) (
      decode_digits-encode_digits one bs v' (shift_in a1 5 (bits_at v' 1 32)) h.1
      ∙ ap (λ x. x ∷ bs) (omega arith))
decode_digits-encode_digits one (b ∷ bs) v a h =
    let v' = shift_in v 8 b in
    cons_eq (omega arith) (
      decode_digits-encode_digits four bs v' (shift_in a 5 (bits_at v' 4 32)) h.1
      ∙ ap (λ x. x ∷ bs) (omega arith))
decode_digits-encode_digits four (b ∷ bs) v a h =
    let v' = shift_in v 8 b in
    let a1 = shift_in a 5 (bits_at v' 7 32) in
    cons_eq (omega arith) (
      decode_digits-encode_digits two bs v' (shift_in a1 5 (bits_at v' 2 32)) h.1
      ∙ ap (λ x. x ∷ bs) (omega arith))
decode_digits-encode_digits two (b ∷ bs) v a h =
    let v' = shift_in v 8 b in
    let a1 = shift_in a 5 (bits_at v' 5 32) in
    cons_eq (omega arith) (
      cons_eq (omega arith)
        (decode_digits-encode_digits whole bs v' (shift_in a1 5 (bits_at v' 0 32)) h.1))

digits-lt :
    (fuel v bits : ℕ) (ds : List ℕ)
    → All (λ d. d < 32) ds
    → All (λ d. d < 32) (digits fuel v bits ++ ds)
unfolding digits
digits-lt zero v bits ds h = h
digits-lt (suc fuel) v bits ds h = elim (Bool-cases (leb 5 bits)) [
  | inl more ↦ rw (more, digits) (omega arith, digits-lt fuel v (bits - 5) ds h)
  | inr done ↦ rw (done, digits) h
]

encode_digits-lt : (bs : List ℕ) (bits v : ℕ) → All (λ d. d < 32) (encode_digits bs bits v)
unfolding encode_digits
encode_digits-lt [] bits v = elim (Bool-cases (ltb 0 bits)) [
  | inl more ↦ rw more (omega arith, tt)
  | inr done ↦ rw done tt
]
encode_digits-lt (b ∷ bs) bits v =
    digits-lt (bits + 8) (shift_in v 8 b) (bits + 8) (encode_digits bs _ (shift_in v 8 b))
      (encode_digits-lt bs _ (shift_in v 8 b))

abbrev index_is : Option ℕ → ℕ → Bool
index_is none d = false
index_is (some i) d = i == d

-- Each character of the alphabet survives the cleaning, and is found at its place.
is_found : ℕ → Bool
is_found d =
    let c = character d in
    not (is_space c)
    && (not (c == 61) && (not (leb 97 c) && (ltb c 122 && index_is (index_in c alphabet 0) d)))

found_below : all_below 32 is_found ≡ true
unfolding is_found character is_space all_below
found_below = refl

index_is-eq-some : (o : Option ℕ) (d : ℕ) → index_is o d ≡ true → o ≡ some d
index_is-eq-some none d h = absurd (cc)
index_is-eq-some (some i) d h = ground arith

is_found-eq-true :
    (d : ℕ)
    → is_found d ≡ true
    → ((is_space (character d) || character d == 61) ≡ false)
      × (to_upper (character d) ≡ character d ∷ [])
      × (index_in (character d) alphabet 0 ≡ some d)
unfolding is_found to_upper
is_found-eq-true d h = (
  ground arith,
  ground arith,
  index_is-eq-some (index_in (character d) alphabet 0) d (ground arith),
)

digits_of-clean-characters :
    (ds : List ℕ) → All (λ d. d < 32) ds → digits_of (clean (characters ds)) ≡ ok ds
unfolding digits_of clean characters
digits_of-clean-characters [] h = refl
digits_of-clean-characters (d ∷ ds) h =
    let (kept, upper, index) = is_found-eq-true d (all_below_sound 32 is_found d found_below h.0) in
    let rest = digits_of-clean-characters ds h.1 in
    rw (kept, clean, upper, index, digits_of, rest) refl

-- A secret that is encoded and decoded is the same, of whatever length.
pub decode_base32-encode_base32 :
    (bytes : List ℕ) → All (λ b. b < 256) bytes → decode_base32 (encode_base32 bytes) ≡ ok bytes
unfolding decode_base32 encode_base32
decode_base32-encode_base32 bytes h =
    rw
      (
        digits_of-clean-characters (encode_digits bytes 0 0) (encode_digits-lt bytes 0 0),
        decode_base32,
      )
      (ap ok (decode_digits-encode_digits whole bytes 0 0 h))
