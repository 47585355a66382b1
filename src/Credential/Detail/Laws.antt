-- ===== src/Credential/Detail/Laws.antt =====
-- A link that is shared and scanned.
use Prim.Native.Char.{code}
use Prim.Native.String
use academic_verification.Prelude.{
  ℕ, leb, Bool, ◌&&◌, ◌||◌, [], ◌∷◌, ◌++◌, includes-append, String, true, false, ◌==◌, Option, none,
  some, Settled, ok, err, ◌>>=◌, ◌≡◌, ◌≢◌, refl, ◌∙◌, ap, inl, inr, eq_iff, Bool-cases, str_or,
  includes, if◌then◌else◌,
}
use academic_verification.Chain.{Api}
use academic_verification.Integration.Format.{Credential}
use academic_verification.Queries.Real
use academic_verification.Credential.Verify.{
  VerifyState, VerificationResult, Metadata, admit, begin, finish, conclude, show_result,
  verify_by_hash, use_scanned, handle_qr_code_scanned, stop_camera,
}
use academic_verification.Credential.List.{ListedCredential}
use academic_verification.Credential.Detail.{
  Browser, share_url, copy_to_clipboard, handle_share, exported,
}

infixr 60 ◌⧺◌
abbrev pub ◌⧺◌ : String → String → String
s ⧺ t = String.◌++◌ s t

abbrev pub is_plain_char : ℕ → Bool
is_plain_char n = (leb 48 n && leb n 57) || ((leb 65 n && leb n 90) || (leb 97 n && leb n 122))

-- A text of letters and digits, which an address keeps as they are.
abbrev pub is_plain : String → Bool
is_plain String.[] = true
is_plain (String.◌∷◌ c s) = is_plain_char (code c) && is_plain s

show_result-result :
    (r : Settled VerificationResult) (s t : VerifyState)
    → (show_result r s).verification_result ≡ (show_result r t).verification_result
unfolding show_result
show_result-result (ok r) s t = refl
show_result-result (err m) s t = refl

begin-result :
    (checked : Settled Api) (s t : VerifyState)
    → s.verification_result ≡ t.verification_result
    → (begin checked s).verification_result ≡ (begin checked t).verification_result
unfolding begin
begin-result (err m) s t e = e
begin-result (ok api) s t e = refl

read_link :
    (url_hash : String → Settled (Option String)) (link h : String)
    → h ≢ ""
    → includes link "/verify?hash=" ≡ true
    → url_hash link ≡ ok (some h)
    → (if includes link "/verify?hash="
        then (url_hash link >>= λ found. ok (str_or found link))
        else ok link)
      ≡ ok h
read_link url_hash link h full has found = elim (Bool-cases (h == "")) [
  | inl empty ↦ let never = full ((eq_iff h "").0 empty) in elim never [ ]
  | inr other ↦ rw (has, found, other) refl
]

module _ (hex_to_string : String → Settled String) (parse_json : String → Settled Metadata) where
  conclude-result :
      (api : Api) (o : Option Credential) (s t : VerifyState)
      → (conclude hex_to_string parse_json api o s).verification_result
        ≡ (conclude hex_to_string parse_json api o t).verification_result
  unfolding conclude
  conclude-result api none s t = refl
  conclude-result api (some c) s t = show_result-result _ s t

  finish-result :
      (checked : Settled Api) (h : String) (s t : VerifyState)
      → s.verification_result ≡ t.verification_result
      → (finish hex_to_string parse_json checked h s).verification_result
        ≡ (finish hex_to_string parse_json checked h t).verification_result
  unfolding finish
  finish-result (err m) h s t e = e
  finish-result (ok api) h s t e = conclude-result api (Real.get_credential_by_hash api h) s t

  use_scanned-result :
      (chain : Option Api) (h : String) (s t : VerifyState)
      → s.verification_result ≡ t.verification_result
      → (use_scanned hex_to_string parse_json chain (ok h) s).verification_result
        ≡ (verify_by_hash hex_to_string parse_json chain h t).verification_result
  unfolding use_scanned verify_by_hash
  use_scanned-result chain h s t e =
      finish-result (admit chain h) h _ _ (begin-result (admit chain h) _ t e)

  -- The link that a credential's page copies and exports, scanned as a QR code, gives the same
  -- verdict as the credential's hash, if the hash is a text of letters and digits that is not empty,
  -- and the browser reads `hash` from an address of the page's origin, a path and the query.
  pub handle_qr_code_scanned-share_url :
      (url_hash : String → Settled (Option String)) (chain : Option Api) (origin : String)
      (c : ListedCredential) (b : Browser) (s : VerifyState)
      → ((path h : String)
          → is_plain path ≡ true
          → is_plain h ≡ true
          → url_hash (origin ⧺ (("/" ⧺ (path ⧺ "?hash=")) ⧺ h)) ≡ ok (some h))
      → is_plain c.credential.credential_hash ≡ true
      → c.credential.credential_hash ≢ ""
      → let link = (exported origin c).verification_url in
        ((handle_share origin c b).clipboard ≡ b.clipboard ++ link ∷ [])
        × ((handle_qr_code_scanned hex_to_string parse_json url_hash chain link
              s).verification_result
            ≡ (verify_by_hash hex_to_string parse_json chain c.credential.credential_hash
                s).verification_result)
  unfolding handle_qr_code_scanned stop_camera exported handle_share copy_to_clipboard share_url
  handle_qr_code_scanned-share_url url_hash chain origin c b s reads plain full =
      let h = c.credential.credential_hash in
      (
        refl,
        ap
              (λ scanned.
                (use_scanned hex_to_string parse_json chain scanned
                  (record (stop_camera s) { show_qr_scanner = false })).verification_result)
              (read_link url_hash (share_url origin h) h full
                (includes-append origin "/verify?hash=" h) (reads "verify" h refl plain))
            ∙ use_scanned-result chain h (record (stop_camera s) { show_qr_scanner = false }) s
                refl,
      )
