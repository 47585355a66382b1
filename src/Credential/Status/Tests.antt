-- ===== src/Credential/Status/Tests.antt =====
-- Runs of the badge and the counts.
use academic_verification.Prelude.{◌≡◌, ◌≢◌, refl, ok, eq_iff, arith}
use academic_verification.Integration.Types.{format_credential_type}
use academic_verification.Integration.Timestamp.{normalize_timestamp}
use academic_verification.Integration.Format.{format_credential_data}
use academic_verification.Queries.Real.Tests.{api, degree, degree_shown}
use academic_verification.Credential.Status
use academic_verification.Credential.Status.{
  get_status, counts, counts_active, counts_revoked, counts_expired,
}
use academic_verification.Credential.Status.Laws.{get_status_block_expiry}

degree_formatted : format_credential_data api degree ≡ ok degree_shown
unfolding format_credential_data format_credential_type normalize_timestamp
degree_formatted = refl

active_not_revoked : degree.status ≢ "Revoked"
active_not_revoked e = let never = (eq_iff "Active" "Revoked").1 e in cc

get_status_block_expiry_example : get_status 1900000000000 degree_shown ≡ Status.active
get_status_block_expiry_example =
    get_status_block_expiry api degree degree_shown 14580 1900000000000 refl (omega arith)
      active_not_revoked degree_formatted
