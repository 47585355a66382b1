-- ===== src/Credential/Verify/Camera/Session.antt =====
-- The camera over a sequence of events: `Start Camera` is shown while the scanner is and the camera is
-- not active, a timer runs the scan, and the cleanup of the page stops the camera.
use academic_verification.Prelude.{
  ℕ, ltb, String, Bool, true, false, not, ◌&&◌, Option, List, [], ◌∷◌, Settled, if◌then◌else◌,
}
use academic_verification.Credential.Verify.Camera.{
  CameraState, generate_qr_code, download_qr_code, start_camera, camera_granted, camera_refused,
  stop_camera, close_scanner, scan_qr_code,
}

pub data Action : Type 0 where
  generate : Settled String → Action
  download : Action
  open_scanner : Action
  close : Action
  start : Action
  granted : ℕ → Action
  refused : Action
  stop : Action
  scan : Option String → Action

abbrev pub is_running : List ℕ → Bool
is_running [] = false
is_running (n ∷ ns) = true

unfoldable pub perform : Action → CameraState → CameraState
unfolding generate_qr_code download_qr_code start_camera camera_granted camera_refused stop_camera
    close_scanner scan_qr_code
perform (generate url) s = generate_qr_code url s
perform download s = download_qr_code s
perform open_scanner s = record s { show_qr_scanner = true }
perform close s = close_scanner s
perform start s = if s.show_qr_scanner && not s.is_camera_active then start_camera s else s
perform (granted n) s = if ltb 0 s.requests then camera_granted n s else s
perform refused s = if ltb 0 s.requests then camera_refused s else s
perform stop s = stop_camera s
perform (scan picture) s = if is_running s.intervals then (scan_qr_code picture s).0 else s

unfoldable pub perform_all : List Action → CameraState → CameraState
perform_all [] s = s
perform_all (a ∷ as') s = perform_all as' (perform a s)
