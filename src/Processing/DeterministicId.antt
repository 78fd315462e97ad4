-- ===== src/Processing/DeterministicId.antt =====
-- Identifiers that a job derives for what it creates (apps/worker/src/processing/
-- deterministic-id.ts), over a hash that the caller gives.
use Prim.Native.Char.{Char}
use Prim.Native.String
use lex_os.Prelude.{
  ℕ, zero, suc, ◌+◌, ◌/◌, ◌%◌, List, [], ◌∷◌, String, ◌==◌, if◌then◌else◌, take, drop,
}

abbrev pub hex_digit : ℕ → Char
hex_digit zero = "0"
hex_digit (suc zero) = "1"
hex_digit (suc (suc zero)) = "2"
hex_digit (suc (suc (suc zero))) = "3"
hex_digit (suc (suc (suc (suc zero)))) = "4"
hex_digit (suc (suc (suc (suc (suc zero))))) = "5"
hex_digit (suc (suc (suc (suc (suc (suc zero)))))) = "6"
hex_digit (suc (suc (suc (suc (suc (suc (suc zero))))))) = "7"
hex_digit (suc (suc (suc (suc (suc (suc (suc (suc zero)))))))) = "8"
hex_digit (suc (suc (suc (suc (suc (suc (suc (suc (suc zero))))))))) = "9"
hex_digit (suc (suc (suc (suc (suc (suc (suc (suc (suc (suc zero)))))))))) = "a"
hex_digit (suc (suc (suc (suc (suc (suc (suc (suc (suc (suc (suc zero))))))))))) = "b"
hex_digit (suc (suc (suc (suc (suc (suc (suc (suc (suc (suc (suc (suc zero)))))))))))) = "c"
hex_digit (suc (suc (suc (suc (suc (suc (suc (suc (suc (suc (suc (suc (suc zero))))))))))))) = "d"
hex_digit (suc (suc (suc (suc (suc (suc (suc (suc (suc (suc (suc (suc (suc (suc zero)))))))))))))) =
    "e"
hex_digit _ = "f"

-- `toString('hex')` of some bytes, in front of a text.
unfoldable pub hex_then : List ℕ → String → String
hex_then [] rest = rest
hex_then (b ∷ bs) rest =
    String.◌∷◌ (hex_digit (b / 16)) (String.◌∷◌ (hex_digit (b % 16)) (hex_then bs rest))

-- A byte of a buffer changed, if it is there.
abbrev change_byte : ℕ → (ℕ → ℕ) → List ℕ → List ℕ
change_byte i f [] = []
change_byte zero f (b ∷ bs) = f b ∷ bs
change_byte (suc i) f (b ∷ bs) = b ∷ change_byte i f bs

-- The first sixteen bytes, with the version and the variant of a UUID: `& 0x0f | 0x40` and
-- `& 0x3f | 0x80`.
unfoldable pub uuid_bytes : List ℕ → List ℕ
uuid_bytes digest =
    change_byte 8 (λ b. b % 64 + 128) (change_byte 6 (λ b. b % 16 + 64) (take 16 digest))

unfoldable pub uuid_text : List ℕ → String
unfolding hex_then
uuid_text bytes = hex_then (take 4 bytes) (
    String.◌∷◌ "-" (
      hex_then (take 2 (drop 4 bytes)) (
        String.◌∷◌ "-" (
          hex_then (take 2 (drop 6 bytes)) (
            String.◌∷◌ "-"
              (hex_then (take 2 (drop 8 bytes)) (String.◌∷◌ "-" (hex_then (drop 10 bytes) ""))))))))

unfoldable pub deterministic_job_id : (String → List ℕ) → String → String → String
unfolding uuid_bytes uuid_text
deterministic_job_id sha256 parent_job_id job_type = uuid_text (
    uuid_bytes
      (sha256 (String.◌++◌ "lex-os:v1:" (String.◌++◌ parent_job_id (String.◌++◌ ":" job_type)))))

-- A number in decimal, as a template literal prints it: one digit at least.
digit_char : ℕ → Char
digit_char d = hex_digit d

decimal_then : ℕ → ℕ → String → String
decimal_then zero n rest = rest
decimal_then (suc f) n rest =
    let more = String.◌∷◌ (digit_char (n % 10)) rest in
    let longer = decimal_then f (n / 10) more in if n / 10 == 0 then more else longer

unfoldable pub decimal : ℕ → String
unfolding decimal_then digit_char
decimal n = decimal_then (suc n) n ""
