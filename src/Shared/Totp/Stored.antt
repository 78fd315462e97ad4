-- ===== src/Shared/Totp/Stored.antt =====
-- `encryptSecret` and `decryptSecret`: the three parts of the stored text.
use lex_os.Prelude.{
  ℕ, false, ◌≡◌, refl, List, [], ◌∷◌, ◌++◌, Result, ok, err, ◌==◌, if◌then◌else◌, All,
}

-- What AES-256-GCM gives under the key, each part in base64url.
pub record Sealed : Type 0 where
  pub iv : List ℕ
  pub tag : List ℕ
  pub payload : List ℕ

pub record Cipher : Type 0 where
  pub seal : List ℕ → Sealed
  pub open_sealed : Sealed → Result (List ℕ)

unfoldable pub encrypt_secret : Cipher → List ℕ → List ℕ
encrypt_secret c plain_text = let x = c.seal plain_text in x.iv ++ 58 ∷ (x.tag ++ 58 ∷ x.payload)

-- `split(':')`: the text before the first colon, and the parts after it.
unfoldable pub split_colon : List ℕ → List ℕ × List (List ℕ)
split_colon [] = ([], [])
split_colon (c ∷ cs) =
    let (part, parts) = split_colon cs in if c == 58 then ([], part ∷ parts) else (c ∷ part, parts)

unfoldable pub open_parts : Cipher → List ℕ × List (List ℕ) → Result (List ℕ)
open_parts c (iv, []) = err "The stored second-factor secret is malformed."
open_parts c (iv, tag ∷ []) = err "The stored second-factor secret is malformed."
open_parts c (iv, tag ∷ payload ∷ rest) =
    c.open_sealed (record { iv = iv; tag = tag; payload = payload })

unfoldable pub decrypt_secret : Cipher → List ℕ → Result (List ℕ)
unfolding split_colon open_parts
decrypt_secret c stored = open_parts c (split_colon stored)

abbrev HasNoColon : List ℕ → Type 0
HasNoColon cs = All (λ c. (c == 58) ≡ false) cs

-- What is relied on of the library: it opens what it has sealed, and base64url has no colon.
pub record IsFaithful (c : Cipher) : Type 0 where
  pub opens : (plain_text : List ℕ) → c.open_sealed (c.seal plain_text) ≡ ok plain_text
  pub iv : (plain_text : List ℕ) → HasNoColon (c.seal plain_text).iv
  pub tag : (plain_text : List ℕ) → HasNoColon (c.seal plain_text).tag
  pub payload : (plain_text : List ℕ) → HasNoColon (c.seal plain_text).payload

split_colon-last : (cs : List ℕ) → HasNoColon cs → split_colon cs ≡ (cs, [])
unfolding split_colon
split_colon-last [] h = refl
split_colon-last (c ∷ cs) h = rw (split_colon-last cs h.1, h.0) refl

split_colon-append :
    (cs ds : List ℕ)
    → HasNoColon cs
    → split_colon (cs ++ 58 ∷ ds) ≡ (cs, (split_colon ds).0 ∷ (split_colon ds).1)
unfolding split_colon
split_colon-append [] ds h = refl
split_colon-append (c ∷ cs) ds h = rw (split_colon-append cs ds h.1, h.0) refl

-- A secret that is encrypted for the table and decrypted from it is the same, under a cipher that
-- opens what it has sealed into parts with no colon.
pub decrypt_secret-encrypt_secret :
    (c : Cipher) (plain_text : List ℕ)
    → IsFaithful c
    → decrypt_secret c (encrypt_secret c plain_text) ≡ ok plain_text
unfolding decrypt_secret encrypt_secret open_parts
decrypt_secret-encrypt_secret c plain_text h =
    let x = c.seal plain_text in
    rw
      (
        split_colon-append x.iv (x.tag ++ 58 ∷ x.payload) (h.iv plain_text),
        split_colon-append x.tag x.payload (h.tag plain_text),
        split_colon-last x.payload (h.payload plain_text),
      )
      (h.opens plain_text)
