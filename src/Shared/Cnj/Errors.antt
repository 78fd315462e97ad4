-- ===== src/Shared/Cnj/Errors.antt =====
-- What the check digits of a case number promise (packages/shared/src/cnj.ts).
use lex_os.Prelude.{
  Bool-cases, inl, inr, ◌≢◌, ℕ, ◌+◌, ◌-◌, ◌*◌, ◌/◌, ◌%◌, ◌≡◌, refl, ◌∙◌, sym, true, false, List, [],
  ◌∷◌, ◌++◌, arith,
}
use lex_os.Shared.Digits.{is_digit, value_from}
use lex_os.Shared.Cnj.{
  CnjParts, without_check, expected_digit, has_expected_digit, two_digits, same_codes,
}

value_from-append :
    (n : ℕ) (cs ds : List ℕ) → value_from n (cs ++ ds) ≡ value_from (value_from n cs) ds
unfolding value_from
value_from-append n [] ds = refl
value_from-append n (c ∷ cs) ds = value_from-append (n * 10 + (c - 48)) cs ds

-- The digits that follow do not hide a difference modulo 97.
value_from-mod :
    (m n : ℕ) (ds : List ℕ) → value_from m ds % 97 ≡ value_from n ds % 97 → m % 97 ≡ n % 97
unfolding value_from
value_from-mod m n [] e = e
value_from-mod m n (d ∷ ds) e =
    let step = value_from-mod (m * 10 + (d - 48)) (n * 10 + (d - 48)) ds e in omega (arith, step)

value_from-mod_head :
    (n x y : ℕ) (after : List ℕ)
    → value_from n (x ∷ after) % 97 ≡ value_from n (y ∷ after) % 97
    → is_digit x ≡ true
    → is_digit y ≡ true
    → x ≡ y
unfolding value_from is_digit
value_from-mod_head n x y after e dx dy =
    let step = value_from-mod (n * 10 + (x - 48)) (n * 10 + (y - 48)) after e in
    ground (arith, step)

same_codes-eq-true : (cs ds : List ℕ) → same_codes cs ds ≡ true → cs ≡ ds
same_codes-eq-true [] [] h = refl
same_codes-eq-true [] (d ∷ ds) h = absurd (cc)
same_codes-eq-true (c ∷ cs) [] h = absurd (cc)
same_codes-eq-true (c ∷ cs) (d ∷ ds) h =
    let tails = same_codes-eq-true cs ds (ground arith) in let heads : c ≡ d = ground arith in cc

two_digits-inj : (m n : ℕ) → two_digits m ≡ two_digits n → m ≡ n
two_digits-inj m n e =
    let tens : 48 + m / 10 ≡ 48 + n / 10 = cc in
    let ones : 48 + m % 10 ≡ 48 + n % 10 = cc in omega arith

check-eq-mod :
    (p q : CnjParts)
    → has_expected_digit p ≡ true
    → has_expected_digit q ≡ true
    → p.check_digit ≡ q.check_digit
    → value_from 0 (without_check p) % 97 ≡ value_from 0 (without_check q) % 97
unfolding has_expected_digit expected_digit
check-eq-mod p q hp hq same =
    let left = same_codes-eq-true (two_digits (expected_digit p)) p.check_digit hp in
    let right = same_codes-eq-true (two_digits (expected_digit q)) q.check_digit hq in
    let expected = two_digits-inj (expected_digit p) (expected_digit q) (left ∙ same ∙ sym right) in
    omega arith

-- The digit that two numbers with their expected check digits may differ in is the same.
has_expected_digit_unique :
    (p q : CnjParts) (before after : List ℕ) (x y : ℕ)
    → has_expected_digit p ≡ true
    → has_expected_digit q ≡ true
    → p.check_digit ≡ q.check_digit
    → without_check p ≡ before ++ x ∷ after
    → without_check q ≡ before ++ y ∷ after
    → is_digit x ≡ true
    → is_digit y ≡ true
    → x ≡ y
has_expected_digit_unique p q before after x y hp hq same ep eq dx dy =
    let whole = check-eq-mod p q hp hq same in
    let split : value_from 0 (before ++ x ∷ after) % 97 ≡ value_from 0 (before ++ y ∷ after) % 97 =
      rw (← ep, ← eq) whole in
    let shape : value_from (value_from 0 before) (x ∷ after) % 97
        ≡ value_from (value_from 0 before) (y ∷ after) % 97 =
      rw (← value_from-append 0 before (x ∷ after), ← value_from-append 0 before (y ∷ after))
        split in
    value_from-mod_head (value_from 0 before) x y after shape dx dy

-- A number that differs from one with its expected check digits in a single other digit is refused:
-- its own check digits are not the expected ones.
pub has_expected_digit_refuses :
    (p q : CnjParts) (before after : List ℕ) (x y : ℕ)
    → has_expected_digit p ≡ true
    → p.check_digit ≡ q.check_digit
    → without_check p ≡ before ++ x ∷ after
    → without_check q ≡ before ++ y ∷ after
    → is_digit x ≡ true
    → is_digit y ≡ true
    → x ≢ y
    → has_expected_digit q ≡ false
has_expected_digit_refuses p q before after x y hp same ep eq dx dy differ =
    elim (Bool-cases (has_expected_digit q)) [
      | inl hq ↦
          absurd (differ (has_expected_digit_unique p q before after x y hp hq same ep eq dx dy))
      | inr refused ↦ refused
    ]
