-- ===== src/Credential/Verify/Session.antt =====
-- The verification page over a sequence of operations.
use Prim.Native.String.{count}
use academic_verification.Provider.Wallet.{success}
use academic_verification.Prelude.{
  sym, ◌∙◌, subst, ℕ, String, Bool, true, false, not, ◌==◌, ◌&&◌, Option, none, some, List, [], ◌∷◌,
  Settled, ok, err, ◌>>=◌, ◌≡◌, refl, if◌then◌else◌, includes, ltb, str_or,
}
use academic_verification.Chain.{Api}
use academic_verification.Integration.Format.{Credential}
use academic_verification.Queries.Real
use academic_verification.Hex.{Value}
use academic_verification.Credential.Verify.View.{draw_credential, draw_result, draws}
use academic_verification.Credential.Verify.Drawn.{succeeds, present-drawn}
use academic_verification.Credential.Verify.{
  Method, VerifyState, VerificationStatus, Metadata, FileData, UploadedFile, null_metadata, fields,
  null_data, with_hash, initial, admit, begin, finish, conclude, present, show_result, status_of,
  get_verification_status, verify_by_hash, handle_submit, use_file_data, handle_file_upload,
  use_scanned, handle_qr_code_scanned, stop_camera, toast,
}

-- What the user does to the page.
pub data Action : Type 0 where
  open_link : Option Api → String → Action
  choose_method : Method → Action
  type_hash : String → Action
  submit : Option Api → Action
  upload : Option Api → Option UploadedFile → Action
  scan : Option Api → String → Action
  close_camera : Action

-- The page is not waiting, the verdict of its result can be computed at any moment, and the result is
-- drawn exactly if the degree and the field of study in it are values that React draws.
pub record IsReady (s : VerifyState) : Type 0 where
  pub still : s.is_verifying ≡ false
  pub judged :
      (now : ℕ)
      → (v : Option VerificationStatus) × (get_verification_status now s.verification_result ≡ ok v)
  pub drawn :
      (is_child : Value → Bool) (now : ℕ)
      → succeeds (draw_result is_child now s.verification_result)
        ≡ draws is_child s.verification_result

present-judged :
    (now : ℕ) (c : Credential) (name : Option String) (m : Metadata) (s : VerifyState)
    → (v : Option VerificationStatus) × (get_verification_status now
          (show_result (present c name m) s).verification_result
        ≡ ok v)
unfolding get_verification_status show_result present status_of
present-judged now c name null_metadata s = (_, refl)
present-judged now c name (fields d f) s = (_, refl)

kept :
    (s t : VerifyState)
    → IsReady s
    → s.is_verifying ≡ t.is_verifying
    → s.verification_result ≡ t.verification_result
    → IsReady t
kept s t r e f = record {
  still = sym e ∙ r.still;
  judged = λ now.
      subst (λ o. (v : Option VerificationStatus) × (get_verification_status now o ≡ ok v)) f
        (r.judged now);
  drawn = λ is_child now.
      subst (λ o. succeeds (draw_result is_child now o) ≡ draws is_child o) f
        (r.drawn is_child now);
}

branch-IsReady :
    (b : Bool) (s t : VerifyState) → IsReady s → IsReady t → IsReady (if b then s else t)
branch-IsReady true s t h k = h
branch-IsReady false s t h k = k

-- The page as it is opened, with no hash or with one from the link, is ready.
pub initial-IsReady : (h : String) → IsReady (initial h)
unfolding initial get_verification_status draw_result
initial-IsReady h = record { still = refl; judged = λ now. (_, refl); drawn = λ is_child now. refl }

module _ (hex_to_string : String → Settled String) (parse_json : String → Settled Metadata)
    (parse_file : String → Settled FileData) (url_hash : String → Settled (Option String)) where
  unfoldable pub perform : Action → VerifyState → VerifyState
  unfolding verify_by_hash handle_submit handle_file_upload handle_qr_code_scanned stop_camera
  perform (open_link none h) s = s
  perform (open_link (some api) h) s =
      if ltb 10 (count h) then verify_by_hash hex_to_string parse_json (some api) h s else s
  perform (choose_method m) s = record s { method = m }
  perform (type_hash h) s = record s { hash_input = h }
  perform (submit chain) s = handle_submit hex_to_string parse_json chain s
  perform (upload chain f) s = handle_file_upload hex_to_string parse_json parse_file chain f s
  perform (scan chain t) s = handle_qr_code_scanned hex_to_string parse_json url_hash chain t s
  perform close_camera s = stop_camera s

  unfoldable pub perform_all : List Action → VerifyState → VerifyState
  perform_all [] s = s
  perform_all (a ∷ more) s = perform_all more (perform a s)

  conclude-IsReady :
      (api : Api) (found : Option Credential) (s : VerifyState)
      → IsReady (conclude hex_to_string parse_json api found s)
  unfolding conclude get_verification_status draw_result draw_credential
  conclude-IsReady api none s = record {
    still = refl;
    judged = λ now. (_, refl);
    drawn = λ is_child now. refl;
  }
  conclude-IsReady api (some c) s = record {
    still = refl;
    judged = λ now. present-judged now c _ _ s;
    drawn = λ is_child now. present-drawn is_child now c _ _ s;
  }

  begun-IsReady :
      (checked : Settled Api) (h : String) (s : VerifyState)
      → IsReady s
      → IsReady (finish hex_to_string parse_json checked h (begin checked s))
  unfolding finish begin
  begun-IsReady (ok api) h s r =
      conclude-IsReady api (Real.get_credential_by_hash api h) (begin (ok api) s)
  begun-IsReady (err m) h s r = kept s _ r refl refl

  scanned-IsReady :
      (checked : Settled Api) (h : String) (s : VerifyState)
      → IsReady s
      → IsReady (
          finish hex_to_string parse_json checked h
            (toast (success "QR Code scanned successfully!") (begin checked s)))
  unfolding finish begin
  scanned-IsReady (ok api) h s r =
      conclude-IsReady api (Real.get_credential_by_hash api h)
        (toast (success "QR Code scanned successfully!") (begin (ok api) s))
  scanned-IsReady (err m) h s r = kept s _ r refl refl

  verify_by_hash-IsReady :
      (chain : Option Api) (h : String) (s : VerifyState)
      → IsReady s
      → IsReady (verify_by_hash hex_to_string parse_json chain h s)
  unfolding verify_by_hash
  verify_by_hash-IsReady chain h s r = begun-IsReady (admit chain h) h s r

  use_file_data-IsReady :
      (chain : Option Api) (read : Settled FileData) (s : VerifyState)
      → IsReady s
      → IsReady (use_file_data hex_to_string parse_json chain read s)
  unfolding use_file_data
  use_file_data-IsReady chain (err m) s r = kept s _ r refl refl
  use_file_data-IsReady chain (ok null_data) s r = kept s _ r refl refl
  use_file_data-IsReady chain (ok (with_hash none)) s r = kept s _ r refl refl
  use_file_data-IsReady chain (ok (with_hash (some h))) s r =
      branch-IsReady (h == "") _ _ (kept s _ r refl refl)
        (verify_by_hash-IsReady chain h _ (kept s _ r refl refl))

  handle_file_upload-IsReady :
      (chain : Option Api) (f : Option UploadedFile) (s : VerifyState)
      → IsReady s
      → IsReady (handle_file_upload hex_to_string parse_json parse_file chain f s)
  unfolding handle_file_upload
  handle_file_upload-IsReady chain none s r = r
  handle_file_upload-IsReady chain (some f) s r =
      branch-IsReady (not (includes f.file_type "json") && not (includes f.file_type "pdf")) _ _
        (kept s _ r refl refl)
        (use_file_data-IsReady chain (f.text >>= parse_file) _ (kept s _ r refl refl))

  use_scanned-IsReady :
      (chain : Option Api) (h : Settled String) (s : VerifyState)
      → IsReady s
      → IsReady (use_scanned hex_to_string parse_json chain h s)
  unfolding use_scanned
  use_scanned-IsReady chain (err m) s r = r
  use_scanned-IsReady chain (ok h) s r = scanned-IsReady (admit chain h) h _ (kept s _ r refl refl)

  perform-IsReady : (a : Action) (s : VerifyState) → IsReady s → IsReady (perform a s)
  unfolding perform stop_camera handle_qr_code_scanned handle_submit
  perform-IsReady (open_link none h) s r = r
  perform-IsReady (open_link (some api) h) s r =
      branch-IsReady (ltb 10 (count h)) _ _ (verify_by_hash-IsReady (some api) h s r) r
  perform-IsReady (choose_method m) s r = kept s _ r refl refl
  perform-IsReady (type_hash h) s r = kept s _ r refl refl
  perform-IsReady (submit chain) s r = verify_by_hash-IsReady chain s.hash_input s r
  perform-IsReady (upload chain f) s r = handle_file_upload-IsReady chain f s r
  perform-IsReady (scan chain t) s r =
      use_scanned-IsReady chain
        (if includes t "/verify?hash=" then (url_hash t >>= λ found. ok (str_or found t)) else ok t)
        _ (kept s _ r refl refl)
  perform-IsReady close_camera s r = kept s _ r refl refl

  -- Whatever is done to a page that is ready, with whatever the chain answers and the parsers
  -- return or throw, the page is ready again: it does not stay in the state of verifying, the verdict
  -- of its result can be computed at any moment, and its result is drawn without an error exactly if
  -- React draws the degree and the field of study that the metadata give.
  pub perform_all-IsReady :
      (todo : List Action) (s : VerifyState) → IsReady s → IsReady (perform_all todo s)
  unfolding perform_all
  perform_all-IsReady [] s r = r
  perform_all-IsReady (a ∷ more) s r = perform_all-IsReady more _ (perform-IsReady a s r)
