-- ===== src/Store/Credentials/Laws.antt =====
-- Adding and removing credentials.
use mathlib.Core.List.{append-nil}
use academic_verification.Prelude.{
  String, true, false, not, ◌==◌, List, [], ◌∷◌, ◌≡◌, refl, ap, ◌∙◌, arith, eq_refl, All,
  filter-append, filter_id, Among, Among-filter,
}
use academic_verification.Integration.Format.{Credential}
use academic_verification.Store.Credentials.{CredentialsState, add_credential, remove_credential}

All-not :
    (id : String) (cs : List Credential)
    → All (λ d. (d.id == id) ≡ false) cs
    → All (λ d. not (d.id == id) ≡ true) cs
All-not id [] h = tt
All-not id (c ∷ cs) (p, h) = (ap not p, All-not id cs h)

-- Removing the credential that was just added gives the store back, if its id was not in use.
pub remove_credential-add_credential :
    (c : Credential) (s : CredentialsState)
    → All (λ d. (d.id == c.id) ≡ false) s.credentials
    → remove_credential c.id (add_credential c s) ≡ s
unfolding remove_credential add_credential
remove_credential-add_credential c s h =
    let kept = filter_id (λ d. not (d.id == c.id)) s.credentials (All-not c.id s.credentials h) in
    let split = filter-append (λ d. not (d.id == c.id)) s.credentials (c ∷ []) in
    ap (λ l. record s { credentials = l }) (split ∙ (rw (kept, eq_refl) (append-nil s.credentials)))

-- After a removal no credential of that id is left, every credential of another id is, and the
-- issued ones are untouched.
pub remove_credential-Among :
    (id : String) (d : Credential) (s : CredentialsState)
    → let s' = remove_credential id s in
      (Among d s'.credentials → Among d s.credentials × ((d.id == id) ≡ false))
      × (s'.issued_credentials ≡ s.issued_credentials)
unfolding remove_credential
remove_credential-Among id d s = (
  λ m. let (m', h) = Among-filter (λ c. not (c.id == id)) s.credentials d m in (m', ground arith),
  refl,
)
