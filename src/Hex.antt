-- ===== src/Hex.antt =====
-- The decoding of texts that the chain stores as bytes: `decodeHexString` (the same function in
-- academic-verification-frontend/src/components/credentials/CredentialCard.tsx,
-- CredentialDetailModal.tsx, CredentialsList.tsx, VerifyCredential.tsx and
-- academic-verification-frontend/src/pages/Credentials.tsx) and `decodeInstitutionName` of
-- academic-verification-frontend/src/providers/WalletProvider.tsx and
-- academic-verification-frontend/src/pages/AdminVerification.tsx. `hexToString` of the library
-- `@polkadot/util` is a parameter; it may throw.
pub mod Laws
mod Tests
use Prim.Native.Char.{Char, code}
use Prim.Native.String
use academic_verification.Prelude.{
  ℕ, String, Bool, true, not, eqb, List, [], ◌∷◌, Settled, ok, err, ◌>>=◌, or_else, if◌then◌else◌,
  ◌==◌,
}
use text.Mathlib.Text.{starts_with}

-- A JSON value where a text is expected: a text, an array of character codes, or another value with
-- its truthiness and what `String` makes of it.
pub data Value : Type 0 where
  str : String → Value
  bytes : List Char → String → Value
  other : Bool → String → Value

-- `String(value)`
abbrev pub to_text : Value → String
to_text (str s) = s
to_text (bytes cs s) = s
to_text (other b s) = s

-- A text is truthy unless it is empty, and every array is.
abbrev pub truthy_value : Value → Bool
truthy_value (str s) = not (s == "")
truthy_value (bytes cs s) = true
truthy_value (other b s) = b

-- `s.replace(/\0/g, '')`
unfoldable pub strip_null : String → String
strip_null String.[] = ""
strip_null (String.◌∷◌ c s) =
    let rest = strip_null s in if eqb (code c) 0 then rest else String.◌∷◌ c rest

-- `String.fromCharCode(...codes)`
unfoldable pub from_codes : List Char → String
from_codes [] = ""
from_codes (c ∷ cs) = String.◌∷◌ c (from_codes cs)

module _ (hex_to_string : String → Settled String) where
  -- The branch of a text that begins with `0x`; a text that cannot be decoded stays as it is.
  unfoldable pub decode_hex : String → String
  unfolding strip_null
  decode_hex s =
      if starts_with s "0x" then or_else (hex_to_string s >>= λ d. ok (strip_null d)) s else s

  unfoldable pub decode_hex_string : Value → String
  unfolding decode_hex
  decode_hex_string (str s) = decode_hex s
  decode_hex_string v = to_text v

  unfoldable pub decode_institution_name : Value → String
  unfolding decode_hex strip_null from_codes
  decode_institution_name (str s) = decode_hex s
  decode_institution_name (bytes cs s) = strip_null (from_codes cs)
  decode_institution_name (other b s) = s
