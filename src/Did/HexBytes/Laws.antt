-- ===== src/Did/HexBytes/Laws.antt =====
-- Reading gives back the bytes that were written in hexadecimal digits.
use Prim.Native.Char.{Char, code}
use academic_verification.Prelude.{
  ℕ, zero, suc, ◌+◌, ◌/◌, ◌%◌, ◌<◌, length, eqb, String, Bool, true, false, ◌&&◌, Option, none,
  some, List, [], ◌∷◌, ◌≡◌, refl, ap, ◌∙◌, arith, All, ◌==◌, eq_iff, Bool-cases, inl, inr,
}
use academic_verification.Did.HexBytes.{digit_value, bytes_of}

char_at : List Char → ℕ → Char
char_at [] n = "0"
char_at (c ∷ cs) zero = c
char_at (c ∷ cs) (suc n) = char_at cs n

abbrev digits : List Char
digits =
    "0"
    ∷ ("1"
        ∷ ("2"
            ∷ ("3"
                ∷ ("4"
                    ∷ ("5"
                        ∷ ("6"
                            ∷ ("7"
                                ∷ ("8"
                                    ∷ ("9"
                                        ∷ ("a"
                                            ∷ ("b" ∷ ("c" ∷ ("d" ∷ ("e" ∷ ("f" ∷ [])))))))))))))))

-- The digit of a value below sixteen, as `u8aToHex` writes it.
pub hex_digit : ℕ → Char
hex_digit n = char_at digits n

-- Two digits for each byte.
unfoldable pub digits_of : List ℕ → String
digits_of [] = ""
digits_of (b ∷ bs) =
    String.◌∷◌ (hex_digit (b / 16)) (String.◌∷◌ (hex_digit (b % 16)) (digits_of bs))

abbrev pub IsByte : ℕ → Type 0
IsByte b = b < 256

is_some_of : Option ℕ → ℕ → Bool
is_some_of none n = false
is_some_of (some m) n = eqb m n

-- Each digit of a list has the value of its place, counted from `k`.
in_place : ℕ → List Char → Bool
in_place k [] = true
in_place k (c ∷ cs) = is_some_of (digit_value (code c)) k && in_place (suc k) cs

sixteen_placed : in_place 0 digits ≡ true
unfolding in_place is_some_of digit_value
sixteen_placed = refl

is_some_of_lem : (o : Option ℕ) (n : ℕ) → is_some_of o n ≡ true → o ≡ some n
unfolding is_some_of
is_some_of_lem none n e = cc
is_some_of_lem (some m) n e = ap some (ground (arith, e))

in_place-char_at :
    (k : ℕ) (cs : List Char) (n : ℕ)
    → in_place k cs ≡ true
    → n < length cs
    → digit_value (code (char_at cs n)) ≡ some (k + n)
unfolding in_place char_at
in_place-char_at k [] n h lt = absurd (omega (arith, lt))
in_place-char_at k (c ∷ cs) zero h lt =
    is_some_of_lem (digit_value (code c)) k (ground (arith, h)) ∙ ap some (omega arith)
in_place-char_at k (c ∷ cs) (suc n) h lt =
    in_place-char_at (suc k) cs n (ground (arith, h)) (omega (arith, lt)) ∙ ap some (omega arith)

digit_value-hex_digit : (n : ℕ) → n < 16 → digit_value (code (hex_digit n)) ≡ some n
unfolding hex_digit
digit_value-hex_digit n h = in_place-char_at 0 digits n sixteen_placed h ∙ ap some (omega arith)

-- Bytes that were written as hexadecimal digits, two for each, are read back.
pub bytes_of-digits_of : (bs : List ℕ) → All IsByte bs → bytes_of (digits_of bs) ≡ bs
unfolding bytes_of digits_of
bytes_of-digits_of [] h = refl
bytes_of-digits_of (b ∷ bs) (k, h) =
    rw
      (
        digit_value-hex_digit (b / 16) (omega (arith, k)),
        digit_value-hex_digit (b % 16) (omega arith),
        bytes_of-digits_of bs h,
      )
      (ap (λ x. x ∷ bs) (omega arith))

-- Bytes as `u8aToHex` writes them.
abbrev pub written : List ℕ → String
written bytes = String.◌∷◌ "0" (String.◌∷◌ "x" (digits_of bytes))

pub written_not_empty : (bytes : List ℕ) → (written bytes == "") ≡ false
written_not_empty bytes = elim (Bool-cases (written bytes == "")) [
  | inl empty ↦ let never = (eq_iff (written bytes) "").0 empty in cc
  | inr other ↦ other
]
