-- ===== src/Credential/Verify/Camera.antt =====
-- The camera and the QR codes of
-- academic-verification-frontend/src/components/credentials/VerifyCredential.tsx. The video element is
-- there exactly while the scanner is shown. `getUserMedia` is answered later: a request is counted, and
-- the browser grants it with a stream, or refuses it. A stream and a timer that run are numbers in a
-- list; the pair of a grant has one number. What `jsQR` reads of a picture and `toDataURL` of a text are
-- arguments.
pub mod Laws
pub mod Leak
pub mod Session
mod Tests
use academic_verification.Prelude.{
  ℕ, ◌+◌, ◌-◌, ltb, eqb, String, Bool, true, false, not, ◌==◌, ◌&&◌, Option, none, some, List, [],
  ◌∷◌, ◌++◌, filter, Settled, ok, err, if◌then◌else◌,
}
use academic_verification.Provider.Wallet.{Toast, success, error}

pub record CameraState : Type 0 where
  pub show_qr_scanner : Bool
  pub show_qr_generator : Bool
  pub qr_code_data_url : String
  pub is_camera_active : Bool
  -- `streamRef.current` and `scanIntervalRef.current`
  pub stream : Option ℕ
  pub scan_interval : Option ℕ
  -- what the browser runs for the page
  pub requests : ℕ
  pub open_streams : List ℕ
  pub intervals : List ℕ
  pub downloads : List String
  pub toasts : List Toast

abbrev pub initial : CameraState
initial = record {
  show_qr_scanner = false;
  show_qr_generator = false;
  qr_code_data_url = "";
  is_camera_active = false;
  stream = none;
  scan_interval = none;
  requests = 0;
  open_streams = [];
  intervals = [];
  downloads = [];
  toasts = [];
}

abbrev pub toast : Toast → CameraState → CameraState
toast t s = record s { toasts = s.toasts ++ t ∷ [] }

-- What is left when the one that a reference names is ended.
abbrev pub without : Option ℕ → List ℕ → List ℕ
without none xs = xs
without (some n) xs = filter (λ x. not (eqb x n)) xs

-- `generateQRCode`, with what `QRCode.toDataURL` answers.
unfoldable pub generate_qr_code : Settled String → CameraState → CameraState
generate_qr_code (ok url) s =
    toast (success "QR Code generated!")
      (record s { qr_code_data_url = url; show_qr_generator = true })
generate_qr_code (err m) s = toast (error "Failed to generate QR code") s

-- `downloadQRCode`
unfoldable pub download_qr_code : CameraState → CameraState
download_qr_code s =
    if s.qr_code_data_url == ""
    then s
    else toast (success "QR Code downloaded!")
        (record s { downloads = s.downloads ++ s.qr_code_data_url ∷ [] })

-- `startCamera` up to the request.
unfoldable pub start_camera : CameraState → CameraState
start_camera s = record s { requests = s.requests + 1 }

-- `startCamera` after the request was granted, or refused.
unfoldable pub camera_granted : ℕ → CameraState → CameraState
camera_granted n s =
    let opened = record s { requests = s.requests - 1; open_streams = n ∷ s.open_streams } in
    if s.show_qr_scanner
    then toast (success "Camera started") (record opened {
      stream = some n;
      is_camera_active = true;
      scan_interval = some n;
      intervals = n ∷ s.intervals;
    })
    else opened

unfoldable pub camera_refused : CameraState → CameraState
camera_refused s = toast (error "Unable to access camera") (record s { requests = s.requests - 1 })

-- `stopCamera`
unfoldable pub stop_camera : CameraState → CameraState
stop_camera s = record s {
  open_streams = without s.stream s.open_streams;
  stream = none;
  intervals = without s.scan_interval s.intervals;
  scan_interval = none;
  is_camera_active = false;
}

-- `stopCamera(); setShowQRScanner(false)`
unfoldable pub close_scanner : CameraState → CameraState
unfolding stop_camera
close_scanner s = record (stop_camera s) { show_qr_scanner = false }

-- `scanQRCode`, for what is read of the picture; a text closes the scanner and is handed on.
unfoldable pub scan_qr_code : Option String → CameraState → CameraState × Option String
unfolding close_scanner
scan_qr_code none s = (s, none)
scan_qr_code (some scanned) s =
    if s.show_qr_scanner && not (scanned == "") then (close_scanner s, some scanned) else (s, none)
