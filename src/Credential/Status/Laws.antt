-- ===== src/Credential/Status/Laws.antt =====
-- The badge of a card against the filters and counts of the list, and expiry that is a block number.
use academic_verification.Prelude.{
  ℕ, ◌+◌, ◌*◌, ◌≤◌, ◌<◌, Bool, true, false, not, ◌&&◌, none, some, List, [], ◌∷◌, count, eqb, ◌≡◌,
  ◌≢◌, refl, ◌↔◌, ◌⊎◌, arith, eq_iff, ok, ap, ◌∙◌,
}
use academic_verification.Chain.{Api, RawCredential}
use academic_verification.Integration.Format.{Credential, format_credential_data}
use academic_verification.Integration.Timestamp.Laws.{
  normalize_timestamp-none, normalize_timestamp-seconds,
}
use academic_verification.Integration.Format.Laws.{format_credential_data-IsFormat}
use academic_verification.Integration.Timestamp.{year_2000_unix, normalize_timestamp}
use academic_verification.Credential.Status.{
  revoked, expired, active, get_status, counts_active, counts_revoked, counts_expired, counts,
}

-- The credential is not revoked and its expiry is this very instant.
abbrev pub expires_now : ℕ → Credential → Bool
expires_now now c =
    not c.revoked && (elim c.expires_at [ none ↦ false | some e ↦ not (eqb e 0) && eqb e now ])

-- The card's badge and the list's filters agree: both call a credential revoked, or expired, in the
-- same cases, and a credential with the badge Active passes the filter of the active ones unless it
-- expires at this very instant.
pub get_status-counts :
    (now : ℕ) (c : Credential)
    → ((get_status now c ≡ revoked) ↔ (counts_revoked c ≡ true))
      × ((get_status now c ≡ expired) ↔ (counts_expired now c ≡ true))
      × ((get_status now c ≡ active) ↔ ((counts_active now c ≡ true) ⊎ (expires_now now c ≡ true)))
unfolding get_status counts_active counts_revoked counts_expired
get_status-counts now c = ground arith

-- Every credential is counted once, as active, revoked or expired, but for those that expire at this
-- very instant, which are counted in the total only.
pub counts_total :
    (now : ℕ) (cs : List Credential)
    → let n = counts now cs in
      n.active + n.revoked + n.expired + count (expires_now now) cs ≡ n.total
unfolding counts counts_active counts_revoked counts_expired
counts_total now [] = refl
counts_total now (c ∷ cs) = ground (arith, counts_total now cs)

-- A credential whose record on the chain is not revoked and expires at a block number, below
-- 946,684,800, has the badge Active at every moment, also long after that block.
pub get_status_block_expiry :
    (api : Api) (raw : RawCredential) (c : Credential) (expires now : ℕ)
    → raw.expires_at ≡ some expires
    → expires < year_2000_unix
    → raw.status ≢ "Revoked"
    → format_credential_data api raw ≡ ok c
    → get_status now c ≡ active
unfolding get_status
get_status_block_expiry api raw c expires now q k r e =
    let f = format_credential_data-IsFormat api raw c e in
    let never : c.expires_at ≡ none =
      f.expires_at ∙ ap normalize_timestamp q ∙ (normalize_timestamp-none expires).1 k in
    ground (arith, f.revoked, never, eq_iff raw.status "Revoked")

-- A credential whose expiry is given in seconds is shown as expired exactly from the millisecond
-- after it, unless it is revoked, and a revoked one is always shown as revoked.
pub get_status_seconds_expiry :
    (api : Api) (raw : RawCredential) (c : Credential) (expires now : ℕ)
    → raw.expires_at ≡ some expires
    → year_2000_unix ≤ expires
    → expires < 10000000000
    → format_credential_data api raw ≡ ok c
    → ((get_status now c ≡ revoked) ↔ (raw.status ≡ "Revoked"))
      × ((get_status now c ≡ expired) ↔ ((raw.status ≢ "Revoked") × (expires * 1000 < now)))
unfolding get_status
get_status_seconds_expiry api raw c expires now q k l e =
    let f = format_credential_data-IsFormat api raw c e in
    let later : c.expires_at ≡ some (expires * 1000) =
      f.expires_at ∙ ap normalize_timestamp q ∙ normalize_timestamp-seconds expires k l in
    ground (arith, f.revoked, later, eq_iff raw.status "Revoked")
