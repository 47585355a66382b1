-- ===== src/Credential/Detail.antt =====
-- The sharing and the export of
-- academic-verification-frontend/src/components/credentials/CredentialDetailModal.tsx; the link is also
-- what `generateQRCode` of
-- academic-verification-frontend/src/components/credentials/VerifyCredential.tsx draws. The clipboard and
-- the files that the browser downloads are lists; the origin of the page is an argument.
pub mod Laws
mod Tests
use Prim.Native.String
use academic_verification.Prelude.{ℕ, String, Bool, Option, List, [], ◌∷◌, ◌++◌}
use academic_verification.Credential.List.{ListedCredential}
use academic_verification.Provider.Wallet.{Toast, success}

-- `data` of `handleDownload`
pub record Export : Type 0 where
  pub id : String
  pub type : String
  pub degree_name : Option String
  pub field_of_study : Option String
  pub holder : String
  pub issuer : String
  pub issuer_name : Option String
  pub credential_hash : String
  pub issued_at : ℕ
  pub expires_at : Option ℕ
  pub revoked : Bool
  pub metadata : Option String
  pub verification_url : String

pub record Browser : Type 0 where
  pub clipboard : List String
  pub downloads : List (String × Export)
  pub toasts : List Toast

unfoldable pub share_url : String → String → String
share_url origin credential_hash = String.◌++◌ origin (String.◌++◌ "/verify?hash=" credential_hash)

-- `copyToClipboard`
unfoldable pub copy_to_clipboard : String → String → Browser → Browser
copy_to_clipboard text label b = record b {
  clipboard = b.clipboard ++ text ∷ [];
  toasts = b.toasts ++ success (String.◌++◌ label " copied to clipboard") ∷ [];
}

unfoldable pub handle_share : String → ListedCredential → Browser → Browser
unfolding copy_to_clipboard share_url
handle_share origin c b =
    copy_to_clipboard (share_url origin c.credential.credential_hash) "Share link" b

unfoldable pub exported : String → ListedCredential → Export
unfolding share_url
exported origin c = record {
  id = c.credential.id;
  type = c.credential.credential_type;
  degree_name = c.degree_name;
  field_of_study = c.field_of_study;
  holder = c.credential.holder;
  issuer = c.credential.issuer;
  issuer_name = c.issuer_name;
  credential_hash = c.credential.credential_hash;
  issued_at = c.credential.issued_at;
  expires_at = c.credential.expires_at;
  revoked = c.credential.revoked;
  metadata = c.credential.metadata;
  verification_url = share_url origin c.credential.credential_hash;
}

unfoldable pub handle_download : String → ListedCredential → Browser → Browser
unfolding exported
handle_download origin c b = record b {
  downloads =
      b.downloads
      ++ (String.◌++◌ "credential-" (String.◌++◌ c.credential.id ".json"), exported origin c) ∷ [];
  toasts = b.toasts ++ success "Credential exported" ∷ [];
}
