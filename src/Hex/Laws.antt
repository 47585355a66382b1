-- ===== src/Hex/Laws.antt =====
-- A decoded text holds no null character.
use Prim.Native.Char.{code}
use Prim.Native.String.{String, [], ◌∷◌}
use academic_verification.Prelude.{
  false, Bool-cases, Settled-cases, inl, inr, ◌≡◌, ◌≢◌, refl, ◌⊎◌, Settled, arith,
}
use text.Mathlib.Text.{starts_with}
use academic_verification.Hex.{
  Value, str, bytes, other, to_text, strip_null, from_codes, decode_hex, decode_hex_string,
  decode_institution_name,
}

abbrev pub NoNull : String → Type 0
NoNull [] = Unit
NoNull (c ∷ s) = (code c ≢ 0) × NoNull s

strip_null-NoNull : (s : String) → NoNull (strip_null s)
unfolding strip_null
strip_null-NoNull [] = tt
strip_null-NoNull (c ∷ s) = ground (arith, strip_null-NoNull s)

module _ (hex_to_string : String → Settled String) where
  decode_hex_cases :
      (s : String) → (decode_hex hex_to_string s ≡ s) ⊎ NoNull (decode_hex hex_to_string s)
  unfolding decode_hex
  decode_hex_cases s = elim (Bool-cases (starts_with s "0x")) [
    | inr plain ↦ inl (rw plain)
    | inl hex ↦ elim (Settled-cases (hex_to_string s)) [
      | inl (d, decoded) ↦ inr (rw (hex, decoded) (strip_null-NoNull d))
      | inr (m, threw) ↦ inl (rw (hex, threw))
    ]
  ]

  -- Both decoders either give the value's own text, or a text without null characters.

  pub decode_institution_name-NoNull :
      (v : Value)
      → let name = decode_institution_name hex_to_string v in
        let shown = decode_hex_string hex_to_string v in
        ((name ≡ to_text v) ⊎ NoNull name) × ((shown ≡ to_text v) ⊎ NoNull shown)
  unfolding decode_institution_name decode_hex_string
  decode_institution_name-NoNull (str s) = (decode_hex_cases s, decode_hex_cases s)
  decode_institution_name-NoNull (bytes cs s) = (inr (strip_null-NoNull (from_codes cs)), inl refl)
  decode_institution_name-NoNull (other b s) = (inl refl, inl refl)

  pub decode_institution_name_plain :
      (s : String)
      → starts_with s "0x" ≡ false
      → (decode_institution_name hex_to_string (str s) ≡ s)
        × (decode_hex_string hex_to_string (str s) ≡ s)
  unfolding decode_institution_name decode_hex_string
  decode_institution_name_plain s h = (rw h, rw h)
