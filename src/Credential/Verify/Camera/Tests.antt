-- ===== src/Credential/Verify/Camera/Tests.antt =====
-- A scan that meets a code, and a request that is granted too late.
use academic_verification.Prelude.{true, false, some, [], ◌≡◌, refl}
use academic_verification.Credential.Verify.Camera.{CameraState, initial, start_camera, stop_camera}
use academic_verification.Credential.Verify.Camera.Session.{
  open_scanner, start, granted, scan, perform,
}
use academic_verification.Credential.Verify.Camera.Laws.{IsTidy, Reach, begin, go, Reach-IsTidy}

abbrev asked : CameraState
asked = perform start (perform open_scanner initial)

asked_shown : (asked.show_qr_scanner ≡ true) × (asked.is_camera_active ≡ false)
unfolding perform start_camera
asked_shown = (refl, refl)

abbrev scanned : CameraState
scanned = perform (scan (some "0xabcdef0123")) (perform (granted 1) asked)

scanned-Reach : Reach scanned
scanned-Reach =
    go (scan (some "0xabcdef0123")) _ tt
      (go (granted 1) _ asked_shown (go start _ tt (go open_scanner _ tt begin)))

Reach-IsTidy_example :
    IsTidy scanned
    × (scanned.show_qr_scanner ≡ false → (scanned.open_streams ≡ []) × (scanned.intervals ≡ []))
    × ((stop_camera scanned).open_streams ≡ [])
    × ((stop_camera scanned).intervals ≡ [])
Reach-IsTidy_example = Reach-IsTidy scanned scanned-Reach

abbrev closed : CameraState
closed = record initial { requests = 1 }
