-- ===== src/Did/HexBytes.antt =====
-- `new Uint8Array(hex.match(/.{1,2}/g).map(byte => parseInt(byte, 16)))`, in
-- academic-verification-frontend/src/components/did/CreateDIDForm.tsx and
-- academic-verification-frontend/src/pages/Institution.tsx, on texts of hexadecimal digits, which is
-- what `u8aToHex` and the chain give. A group that begins with another character is not a number,
-- so the byte is 0; the white space, the sign and the `0x` that `parseInt` skips are left out.
pub mod Laws
use Prim.Native.Char.{Char, code}
use Prim.Native.String
use academic_verification.Prelude.{
  ℕ, ◌+◌, ◌-◌, ◌*◌, leb, eqb, String, ◌&&◌, Option, none, some, List, [], ◌∷◌, if◌then◌else◌,
}

-- The value of a hexadecimal digit.
unfoldable pub digit_value : ℕ → Option ℕ
digit_value c =
    if leb 48 c && leb c 57
    then some (c - 48)
    else if leb 97 c && leb c 102
    then some (c - 87)
    else if leb 65 c && leb c 70
    then some (c - 55)
    else none

-- `parseInt` of one character, and of two; a byte array keeps 0 for `NaN`.
unfoldable pub parse_one : Option ℕ → ℕ
parse_one none = 0
parse_one (some d) = d

unfoldable pub parse_two : Option ℕ → Option ℕ → ℕ
parse_two none e = 0
parse_two (some d) none = d
parse_two (some d) (some e) = 16 * d + e

-- The groups of two characters, read as bytes.
unfoldable pub bytes_of : String → List ℕ
unfolding parse_one parse_two digit_value
bytes_of String.[] = []
bytes_of (String.◌∷◌ c String.[]) = parse_one (digit_value (code c)) ∷ []
bytes_of (String.◌∷◌ c (String.◌∷◌ d s)) =
    parse_two (digit_value (code c)) (digit_value (code d)) ∷ bytes_of s

-- `s.startsWith('0x') ? s.slice(2) : s`
unfoldable pub without_prefix : String → String
without_prefix String.[] = ""
without_prefix (String.◌∷◌ c String.[]) = String.◌∷◌ c ""
without_prefix (String.◌∷◌ c (String.◌∷◌ d s)) =
    if eqb (code c) 48 && eqb (code d) 120 then s else String.◌∷◌ c (String.◌∷◌ d s)
