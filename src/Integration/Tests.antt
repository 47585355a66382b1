-- ===== src/Integration/Tests.antt =====
-- Runs of the conversions.
use academic_verification.Prelude.{some, ◌≡◌, refl, ok}
use academic_verification.Integration.Types.{object, format_credential_type}
use academic_verification.Integration.Timestamp.{normalize_timestamp}

degree_displayed : format_credential_type (object "Degree") ≡ ok "Bachelor's Degree"
unfolding format_credential_type
degree_displayed = refl

in_2024 : normalize_timestamp (some 1704672000) ≡ some 1704672000000
unfolding normalize_timestamp
in_2024 = refl
