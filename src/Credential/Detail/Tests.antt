-- ===== src/Credential/Detail/Tests.antt =====
-- A link of a page of the frontend, scanned.
use Prim.Native.Char.{code}
use Prim.Native.String.append
use text.Mathlib.TextLemmas.{append_assoc}
use academic_verification.Prelude.{
  ℕ, zero, suc, String, Bool, not, ◌&&◌, true, false, none, some, Option, [], ◌∷◌, ◌++◌, Settled,
  ok, err, ◌≡◌, ◌≢◌, refl, ◌∙◌, ap, arith, eqb, eq_iff, if◌then◌else◌,
}
use academic_verification.Credential.List.{ListedCredential}
use academic_verification.Queries.Real.Tests.{api}
use academic_verification.Credential.Verify.{
  VerifyState, Metadata, fields, initial, verify_by_hash, handle_qr_code_scanned,
}
use academic_verification.Credential.Detail.{Browser, exported, handle_share}
use academic_verification.Credential.Detail.Laws.{◌⧺◌, is_plain, handle_qr_code_scanned-share_url}

abbrev hex_to_string : String → Settled String
hex_to_string s = err "not hex"

abbrev parse_json : String → Settled Metadata
parse_json s = ok (fields none none)

-- The text behind the first question mark.
behind_mark : String → String
behind_mark String.[] = ""
behind_mark (String.◌∷◌ c s) = if eqb (code c) 63 then s else behind_mark s

without_first : ℕ → String → String
without_first zero s = s
without_first (suc n) String.[] = ""
without_first (suc n) (String.◌∷◌ c s) = without_first n s

-- A reader of the addresses that have only the one parameter.
abbrev url_hash : String → Settled (Option String)
url_hash s = ok (some (without_first 5 (behind_mark s)))

abbrev is_clear : String → Bool
is_clear String.[] = true
is_clear (String.◌∷◌ c s) = not (eqb (code c) 63) && is_clear s

plain_clear : (s : String) → is_plain s ≡ true → is_clear s ≡ true
plain_clear String.[] h = refl
plain_clear (String.◌∷◌ c s) h = let ih = plain_clear s in ground (arith, h, ih)

behind_clear : (s rest : String) → is_clear s ≡ true → behind_mark (s ⧺ rest) ≡ behind_mark rest
unfolding behind_mark
behind_clear String.[] rest h = rw (append.nil rest) refl
behind_clear (String.◌∷◌ c s) rest h =
    let ih = behind_clear s rest in rw (append.cons c s rest) (ground (arith, h, ih))

abbrev count_of : String → ℕ
count_of String.[] = zero
count_of (String.◌∷◌ c s) = suc (count_of s)

without_first-append : (t rest : String) → without_first (count_of t) (t ⧺ rest) ≡ rest
unfolding without_first
without_first-append String.[] rest = rw (append.nil rest) refl
without_first-append (String.◌∷◌ c t) rest = rw (append.cons c t rest) (without_first-append t rest)

behind_query : (h : String) → behind_mark ("?hash=" ⧺ h) ≡ "hash=" ⧺ h
unfolding behind_mark
behind_query h = rw (append.cons "?" "hash=" h) refl

reads :
    (path h : String)
    → is_plain path ≡ true
    → is_plain h ≡ true
    → url_hash ("https://a.example" ⧺ (("/" ⧺ (path ⧺ "?hash=")) ⧺ h)) ≡ ok (some h)
reads path h plain _ =
    ap (λ t. ok (some (without_first 5 t)))
      (behind_clear "https://a.example" _ refl
        ∙ ap behind_mark (append_assoc "/" (path ⧺ "?hash=") h)
        ∙ behind_clear "/" _ refl
        ∙ ap behind_mark (append_assoc path "?hash=" h)
        ∙ behind_clear path _ (plain_clear path plain)
        ∙ behind_query h)
    ∙ ap (λ t. ok (some t)) (without_first-append "hash=" h)

abbrev page : VerifyState
page = initial ""

abbrev listed : ListedCredential
listed = record {
  credential = record {
    id = "0x01";
    holder = "5Stu";
    issuer = "5Uni";
    credential_hash = "0xabcdef0123";
    credential_type = "Degree";
    metadata = none;
    issued_at = 7;
    expires_at = none;
    revoked = false;
  };
  issuer_name = none;
  degree_name = none;
  field_of_study = none;
}

abbrev browser : Browser
browser = record { clipboard = []; downloads = []; toasts = [] }

hash_not_empty : ◌≢◌ {A = String} "0xabcdef0123" ""
hash_not_empty e = let never = (eq_iff "0xabcdef0123" "").1 e in cc

handle_qr_code_scanned-share_url_example :
    let link = (exported "https://a.example" listed).verification_url in
    ((handle_share "https://a.example" listed browser).clipboard ≡ browser.clipboard ++ link ∷ [])
    × ((handle_qr_code_scanned hex_to_string parse_json url_hash
          (some api)
          link
          page).verification_result
        ≡ (verify_by_hash hex_to_string parse_json
            (some api)
            "0xabcdef0123"
            page).verification_result)
handle_qr_code_scanned-share_url_example =
    handle_qr_code_scanned-share_url hex_to_string parse_json url_hash (some api)
      "https://a.example" listed browser page reads refl hash_not_empty
