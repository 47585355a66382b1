-- ===== src/Integration/Timestamp/Laws.antt =====
-- Seconds, milliseconds and block numbers.
use academic_verification.Prelude.{ℕ, ◌*◌, ◌≤◌, ◌<◌, ◌≡◌, ◌↔◌, Option, none, some, arith}
use academic_verification.Integration.Timestamp.{year_2000_unix, normalize_timestamp, ms_timestamp}

-- What a timestamp normalises to is in milliseconds: it is at least 10,000,000,000, normalising it
-- again changes nothing, and the date conversion of the components does not scale it a second time.
pub normalize_timestamp-ms :
    (o : Option ℕ) (m : ℕ)
    → normalize_timestamp o ≡ some m
    → (10000000000 ≤ m) × (normalize_timestamp (some m) ≡ some m) × (ms_timestamp m ≡ m)
unfolding normalize_timestamp ms_timestamp
normalize_timestamp-ms none m e = cc
normalize_timestamp-ms (some t) m e = ground arith

-- Exactly the timestamps before the year 2000 in seconds, and the missing ones, are dropped.
pub normalize_timestamp-none :
    (t : ℕ) → (normalize_timestamp (some t) ≡ none) ↔ (t < year_2000_unix)
unfolding normalize_timestamp
normalize_timestamp-none t = ground arith

-- Two timestamps in seconds, or two in milliseconds, keep their order.
pub normalize_timestamp-seconds :
    (t : ℕ) → year_2000_unix ≤ t → t < 10000000000 → normalize_timestamp (some t) ≡ some (t * 1000)
unfolding normalize_timestamp
normalize_timestamp-seconds t h k = ground arith
