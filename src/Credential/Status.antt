-- ===== src/Credential/Status.antt =====
-- `getStatus` of academic-verification-frontend/src/components/credentials/CredentialCard.tsx and
-- CredentialDetailModal.tsx, and the predicates by which CredentialsList.tsx filters and counts. The
-- clock is an argument.
pub mod Laws
mod Tests
use academic_verification.Prelude.{
  ℕ, String, Bool, true, false, not, ◌&&◌, ◌||◌, Option, none, some, List, eqb, ltb, if◌then◌else◌,
  length, count,
}
use academic_verification.Integration.Format.{Credential}

pub data Status : Type 0 where
  revoked expired active : Status

-- `c.expiresAt && c.expiresAt < Date.now()`
unfoldable pub has_expired : ℕ → Option ℕ → Bool
has_expired now none = false
has_expired now (some e) = not (eqb e 0) && ltb e now

-- `getStatus`
unfoldable pub get_status : ℕ → Credential → Status
unfolding has_expired
get_status now c =
    if c.revoked then revoked else if has_expired now c.expires_at then expired else active

-- `!c.expiresAt || c.expiresAt > Date.now()`
unfoldable pub not_yet_expired : ℕ → Option ℕ → Bool
not_yet_expired now none = true
not_yet_expired now (some e) = eqb e 0 || ltb now e

unfoldable pub counts_active : ℕ → Credential → Bool
unfolding not_yet_expired
counts_active now c = not c.revoked && not_yet_expired now c.expires_at

unfoldable pub counts_revoked : Credential → Bool
counts_revoked c = c.revoked

unfoldable pub counts_expired : ℕ → Credential → Bool
unfolding has_expired
counts_expired now c = not c.revoked && has_expired now c.expires_at

pub record Counts : Type 0 where
  pub total : ℕ
  pub active : ℕ
  pub revoked : ℕ
  pub expired : ℕ

-- `counts`
unfoldable pub counts : ℕ → List Credential → Counts
counts now cs = record {
  total = length cs;
  active = count (counts_active now) cs;
  revoked = count counts_revoked cs;
  expired = count (counts_expired now) cs;
}
