-- ===== src/Credential/Verify/Camera/Leak.antt =====
-- A stream that is granted late.
use academic_verification.Prelude.{
  ℕ, filter-Among, ltb, eqb, ◌==◌, Bool, true, false, not, ◌&&◌, Option, none, some, List, [], ◌∷◌,
  ok, err, ◌≡◌, refl, Among, inl, inr, arith, All, Bool-cases, if◌then◌else◌,
}
use academic_verification.Credential.Verify.Camera.{
  CameraState, without, generate_qr_code, download_qr_code, start_camera, camera_granted,
  camera_refused, stop_camera, close_scanner, scan_qr_code,
}
use academic_verification.Credential.Verify.Camera.Session.{
  Action, generate, download, open_scanner, close, start, granted, refused, stop, scan, perform,
  perform_all, is_running,
}

abbrev pub is_kept : Option ℕ → ℕ → Bool
is_kept none n = false
is_kept (some m) n = eqb m n

-- No later request is granted with the stream of that number.
abbrev pub IsOther : ℕ → Action → Type 0
IsOther n (granted m) = eqb m n ≡ false
IsOther n a = Unit

without-Among :
    (o : Option ℕ) (n : ℕ) (xs : List ℕ) → is_kept o n ≡ false → Among n xs → Among n (without o xs)
without-Among none n xs h m = m
without-Among (some k) n xs h m = filter-Among (λ x. not (eqb x k)) xs n m (ground (arith, h))

-- A stream that runs and that the page does not refer to.
pub record IsLeaked (n : ℕ) (s : CameraState) : Type 0 where
  pub running : Among n s.open_streams
  pub unnamed : is_kept s.stream n ≡ false

branch-IsLeaked :
    (n : ℕ) (b : Bool) (s t : CameraState)
    → IsLeaked n s
    → IsLeaked n t
    → IsLeaked n (if b then s else t)
branch-IsLeaked n true s t g h = g
branch-IsLeaked n false s t g h = h

stopped : (n : ℕ) (s : CameraState) → IsLeaked n s → IsLeaked n (stop_camera s)
unfolding stop_camera
stopped n s g = record {
  running = without-Among s.stream n s.open_streams g.unnamed g.running;
  unnamed = refl;
}

closed : (n : ℕ) (s : CameraState) → IsLeaked n s → IsLeaked n (close_scanner s)
unfolding close_scanner
closed n s g = let t = stopped n s g in record { running = t.running; unnamed = t.unnamed }

granted_another :
    (n m : ℕ) (s : CameraState) → eqb m n ≡ false → IsLeaked n s → IsLeaked n (camera_granted m s)
unfolding camera_granted
granted_another n m s other g =
    branch-IsLeaked n s.show_qr_scanner _ _ (record { running = inr g.running; unnamed = other })
      (record { running = inr g.running; unnamed = g.unnamed })

perform-IsLeaked :
    (n : ℕ) (a : Action) (s : CameraState) → IsOther n a → IsLeaked n s → IsLeaked n (perform a s)
unfolding perform generate_qr_code download_qr_code start_camera camera_refused scan_qr_code
perform-IsLeaked n (generate (ok url)) s o g = record { running = g.running; unnamed = g.unnamed }
perform-IsLeaked n (generate (err m)) s o g = record { running = g.running; unnamed = g.unnamed }
perform-IsLeaked n download s o g =
    branch-IsLeaked n (s.qr_code_data_url == "") _ _ g
      (record { running = g.running; unnamed = g.unnamed })
perform-IsLeaked n open_scanner s o g = record { running = g.running; unnamed = g.unnamed }
perform-IsLeaked n close s o g = closed n s g
perform-IsLeaked n start s o g =
    branch-IsLeaked n (s.show_qr_scanner && not s.is_camera_active) _ _
      (record { running = g.running; unnamed = g.unnamed }) g
perform-IsLeaked n (granted m) s o g =
    branch-IsLeaked n (ltb 0 s.requests) _ _ (granted_another n m s o g) g
perform-IsLeaked n refused s o g =
    branch-IsLeaked n (ltb 0 s.requests) _ _ (record { running = g.running; unnamed = g.unnamed }) g
perform-IsLeaked n stop s o g = stopped n s g
perform-IsLeaked n (scan none) s o g = branch-IsLeaked n (is_running s.intervals) _ _ g g
perform-IsLeaked n (scan (some scanned)) s o g =
    branch-IsLeaked n (is_running s.intervals) _ _
      (elim (Bool-cases (s.show_qr_scanner && not (scanned == ""))) [
        | inl read ↦ rw read (closed n s g)
        | inr unread ↦ rw unread g
      ])
      g

granted_hidden :
    (n : ℕ) (s : CameraState)
    → s.show_qr_scanner ≡ false
    → is_kept s.stream n ≡ false
    → IsLeaked n (camera_granted n s)
unfolding camera_granted
granted_hidden n s hidden unnamed = rw hidden (record { running = inl refl; unnamed = unnamed })

-- If a request is granted after the scanner was closed, its stream is never ended, whatever is done to
-- the page afterwards, the cleanup included.
pub perform_all-camera_granted :
    (n : ℕ) (later : List Action) (s : CameraState)
    → s.show_qr_scanner ≡ false
    → is_kept s.stream n ≡ false
    → All (IsOther n) later
    → Among n (perform_all later (camera_granted n s)).open_streams
unfolding perform_all
perform_all-camera_granted n later s hidden unnamed others =
    (go later (camera_granted n s) others (granted_hidden n s hidden unnamed)).running
  where
    go :
        (later : List Action) (t : CameraState)
        → All (IsOther n) later
        → IsLeaked n t
        → IsLeaked n (perform_all later t)
    go [] t others g = g
    go (a ∷ rest) t (other, others) g =
        go rest (perform a t) others (perform-IsLeaked n a t other g)
