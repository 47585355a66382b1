-- ===== src/Integration/Timestamp.antt =====
-- `normalizeTimestamp` inside `formatCredentialData` of
-- academic-verification-frontend/src/lib/blockchain/integration.ts, and the conversion that each
-- `formatDate` of the credential components makes before it prints a date. A timestamp is a natural
-- number; a missing one is `none`.
pub mod Laws
use academic_verification.Prelude.{ℕ, ◌*◌, Option, none, some, eqb, ltb, if◌then◌else◌}

-- `year2000Unix`
abbrev pub year_2000_unix : ℕ
year_2000_unix = 946684800

unfoldable pub normalize_timestamp : Option ℕ → Option ℕ
normalize_timestamp none = none
normalize_timestamp (some t) =
    if eqb t 0
    then none
    else if ltb t year_2000_unix
    then none
    else if ltb t 10000000000
    then some (t * 1000)
    else some t

-- `timestamp < 10000000000 ? timestamp * 1000 : timestamp`
unfoldable pub ms_timestamp : ℕ → ℕ
ms_timestamp t = if ltb t 10000000000 then t * 1000 else t
