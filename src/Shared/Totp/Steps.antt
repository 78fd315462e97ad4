-- ===== src/Shared/Totp/Steps.antt =====
-- The code of a step of time, and the codes that are accepted at a time.
use lex_os.Prelude.{
  ℕ, ◌+◌, ◌-◌, ◌*◌, ◌/◌, ◌%◌, ◌^◌, Bool, false, not, ◌||◌, List, [], ◌∷◌, Result, ok, err, ◌==◌,
  if◌then◌else◌, length, get_elem?, or_else,
}
use lex_os.Shared.Base32.{decode_base32}
use lex_os.Shared.Digits.{digits_only}
use lex_os.Shared.Cnj.{same_codes}

-- HMAC-SHA1 of a key and a counter: twenty bytes.
abbrev pub Hmac : Type 0
Hmac = List ℕ → ℕ → List ℕ

abbrev pub totp_digits : ℕ
totp_digits = 6

unfoldable pub last_of : List ℕ → ℕ
last_of [] = 0
last_of (b ∷ []) = b
last_of (b ∷ c ∷ bs) = last_of (c ∷ bs)

abbrev byte_at : List ℕ → ℕ → ℕ
byte_at bs i = or_else (get_elem? bs i) 0

-- `readUInt32BE(offset) & 0x7fff_ffff`.
unfoldable pub truncated : List ℕ → ℕ
unfolding last_of
truncated digest =
    let offset = last_of digest % 16 in
    (((byte_at digest offset * 256 + byte_at digest (offset + 1)) * 256
          + byte_at digest (offset + 2))
        * 256
      + byte_at digest (offset + 3))
    % 2 ^ 31

-- A number below a million with its leading zeros.
unfoldable pub padded : ℕ → List ℕ
padded n =
    (48 + n / 100000 % 10)
    ∷ (48 + n / 10000 % 10)
    ∷ (48 + n / 1000 % 10)
    ∷ (48 + n / 100 % 10)
    ∷ (48 + n / 10 % 10)
    ∷ (48 + n % 10)
    ∷ []

unfoldable pub code_for_step : Hmac → List ℕ → ℕ → List ℕ
unfolding truncated padded
code_for_step hmac secret step = padded (truncated (hmac secret step) % 10 ^ 6)

unfoldable pub totp_step_at : ℕ → ℕ
totp_step_at at_ms = at_ms / 1000 / 30

unfoldable pub totp_code_at : Hmac → List ℕ → ℕ → Result (List ℕ)
totp_code_at hmac secret at_ms = elim (decode_base32 secret) [
  | err e ↦ err e
  | ok key ↦ ok (code_for_step hmac key (totp_step_at at_ms))
]

-- The loop over the drifts, with no short cut.
unfoldable pub matches_near : Hmac → List ℕ → ℕ → List ℕ → Bool
matches_near hmac key step candidate =
    same_codes (code_for_step hmac key (step - 1)) candidate
    || (same_codes (code_for_step hmac key step) candidate
        || same_codes (code_for_step hmac key (step + 1)) candidate)

-- The counter of the step before the first is refused by the platform.
unfoldable pub verify_totp : Hmac → List ℕ → List ℕ → ℕ → Result Bool
unfolding matches_near totp_step_at
verify_totp hmac secret code at_ms =
    if not (length (digits_only code) == totp_digits)
    then ok false
    else elim (decode_base32 secret) [
      | err e ↦ err e
      | ok key ↦
          if totp_step_at at_ms == 0
          then err "ERR_OUT_OF_RANGE"
          else ok (matches_near hmac key (totp_step_at at_ms) (digits_only code))
    ]
