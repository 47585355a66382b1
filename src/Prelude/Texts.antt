-- ===== src/Prelude/Texts.antt =====
-- Texts made of parts: a text includes each of its parts.
use Prim.Native.Char.{len_utf8}
use Prim.Native.String
use Prim.Native.String.append
use Prim.Native.String.find as find_laws
use Prim.Native.String.len as len_laws
use Prim.Native.String.{String, begins, find, len}
use text.Mathlib.TextFind.{begins_cases}
use academic_verification.Prelude.Js.{includes}
use Prim.Native.Nat.{ℕ, ◌+◌, ◌≤◌}
use mathlib.Core.Path.{◌≡◌, refl, ◌∙◌}
use mathlib.Core.Logic.{inl, inr}
use mathlib.Core.Bool.{true}
use native.Mathlib.Omega.{arith}

begins-append : (t v : String) (y n : ℕ) → begins (String.◌++◌ t v) t y n ≡ y
begins-append String.[] v y n = refl
begins-append (String.◌∷◌ c t) v y n =
    let ih = begins-append t v y n in rw (append.cons c t v) (ground (arith, ih))

find-append : (t v : String) → find (String.◌++◌ t v) t ≡ 0
find-append String.[] String.[] = find_laws.nil String.[]
find-append String.[] (String.◌∷◌ c v) =
    rw (append.nil (String.◌∷◌ c v)) (find_laws.cons c v String.[])
find-append (String.◌∷◌ c t) v =
    let n = len_utf8 c + find (String.◌++◌ t v) (String.◌∷◌ c t) in
    let ih = begins-append t v 0 n in
    rw (append.cons c t v)
      (find_laws.cons c (String.◌++◌ t v) (String.◌∷◌ c t) ∙ ground (arith, ih))

find_le : (u t v : String) → let s = String.◌++◌ u (String.◌++◌ t v) in find s t ≤ len s
find_le String.[] t v = rw (append.nil (String.◌++◌ t v), find-append t v) (omega arith)
find_le (String.◌∷◌ c u) t v =
    let r = String.◌++◌ u (String.◌++◌ t v) in
    rw (append.cons c u (String.◌++◌ t v), find_laws.cons c r t, len_laws.cons c r)
      (elim (begins_cases (String.◌∷◌ c r) t 0 (len_utf8 c + find r t)) [
        | inl (here, _) ↦ rw here (omega arith)
        | inr later ↦ rw later (omega (arith, find_le u t v))
      ])

pub includes-append : (u t v : String) → includes (String.◌++◌ u (String.◌++◌ t v)) t ≡ true
unfolding includes
includes-append u t v = ground (arith, find_le u t v)
