-- ===== src/Credential/Verify/Camera/Laws.antt =====
-- When the camera is turned off.
use academic_verification.Prelude.{
  ℕ, ltb, String, ◌==◌, Bool, true, false, not, ◌&&◌, Option, none, some, is_some, List, [], ◌∷◌,
  Settled, ok, err, ◌≡◌, refl, sym, ◌∙◌, ap, inl, inr, arith, Bool-cases, if◌then◌else◌,
}
use academic_verification.Credential.Verify.Camera.{
  CameraState, initial, without, generate_qr_code, download_qr_code, start_camera, camera_granted,
  camera_refused, stop_camera, close_scanner, scan_qr_code,
}
use academic_verification.Credential.Verify.Camera.Session.{
  Action, generate, download, open_scanner, close, start, granted, refused, stop, scan, perform,
  is_running,
}

abbrev pub listed : Option ℕ → List ℕ
listed none = []
listed (some n) = n ∷ []

-- What runs is what the references name, and the camera is active only while the scanner is shown.
pub record IsTidy (s : CameraState) : Type 0 where
  pub streams : s.open_streams ≡ listed s.stream
  pub timers : s.intervals ≡ listed s.scan_interval
  pub active : s.is_camera_active ≡ is_some s.stream
  pub paired : is_some s.scan_interval ≡ is_some s.stream
  pub shown : s.show_qr_scanner ≡ false → s.stream ≡ none

-- A request is granted while the scanner is shown, and before another one was.
abbrev pub IsTimely : Action → CameraState → Type 0
IsTimely (granted n) s = (s.show_qr_scanner ≡ true) × (s.is_camera_active ≡ false)
IsTimely a s = Unit

pub data Reach : CameraState → Type 0 where
  begin : Reach initial
  go : (a : Action) (s : CameraState) → IsTimely a s → Reach s → Reach (perform a s)

without-listed : (o : Option ℕ) → without o (listed o) ≡ []
without-listed none = refl
without-listed (some n) = ground arith

-- A state that differs in none of the fields that matter.
like :
    (s t : CameraState)
    → IsTidy s
    → t.open_streams ≡ s.open_streams
    → t.intervals ≡ s.intervals
    → t.stream ≡ s.stream
    → t.scan_interval ≡ s.scan_interval
    → t.is_camera_active ≡ s.is_camera_active
    → t.show_qr_scanner ≡ s.show_qr_scanner
    → IsTidy t
like s t g a b c d e f = record {
  streams = a ∙ g.streams ∙ ap listed (sym c);
  timers = b ∙ g.timers ∙ ap listed (sym d);
  active = e ∙ g.active ∙ ap is_some (sym c);
  paired = ap is_some d ∙ g.paired ∙ ap is_some (sym c);
  shown = λ h. c ∙ g.shown (sym f ∙ h);
}

branch-IsTidy : (b : Bool) (s t : CameraState) → IsTidy s → IsTidy t → IsTidy (if b then s else t)
branch-IsTidy true s t g h = g
branch-IsTidy false s t g h = h

stop_camera-IsTidy : (s : CameraState) → IsTidy s → IsTidy (stop_camera s)
unfolding stop_camera
stop_camera-IsTidy s g = record {
  streams = ap (without s.stream) g.streams ∙ without-listed s.stream;
  timers = ap (without s.scan_interval) g.timers ∙ without-listed s.scan_interval;
  active = refl;
  paired = refl;
  shown = λ h. refl;
}

close_scanner-IsTidy : (s : CameraState) → IsTidy s → IsTidy (close_scanner s)
unfolding close_scanner
close_scanner-IsTidy s g =
    let t = stop_camera-IsTidy s g in
    record {
      streams = t.streams;
      timers = t.timers;
      active = t.active;
      paired = t.paired;
      shown = λ h. refl;
    }

empty_stream : (o : Option ℕ) → false ≡ is_some o → o ≡ none
empty_stream none e = refl
empty_stream (some n) e = cc

camera_granted-IsTidy :
    (n : ℕ) (s : CameraState)
    → s.show_qr_scanner ≡ true
    → s.is_camera_active ≡ false
    → IsTidy s
    → IsTidy (camera_granted n s)
unfolding camera_granted
camera_granted-IsTidy n s shown idle g =
    let no_stream = empty_stream s.stream (sym idle ∙ g.active) in
    let no_timer = empty_stream s.scan_interval (sym (ap is_some no_stream) ∙ sym g.paired) in
    rw shown (record {
      streams = ap (λ l. n ∷ l) (g.streams ∙ ap listed no_stream);
      timers = ap (λ l. n ∷ l) (g.timers ∙ ap listed no_timer);
      active = refl;
      paired = refl;
      shown = λ h. cc;
    })

generate_qr_code-IsTidy :
    (u : Settled String) (s : CameraState) → IsTidy s → IsTidy (generate_qr_code u s)
unfolding generate_qr_code
generate_qr_code-IsTidy (ok url) s g = like s _ g refl refl refl refl refl refl
generate_qr_code-IsTidy (err m) s g = like s _ g refl refl refl refl refl refl

scan_qr_code-IsTidy : (o : Option String) (s : CameraState) → IsTidy s → IsTidy (scan_qr_code o s).0
unfolding scan_qr_code
scan_qr_code-IsTidy none s g = g
scan_qr_code-IsTidy (some scanned) s g =
    elim (Bool-cases (s.show_qr_scanner && not (scanned == ""))) [
      | inl read ↦ rw read (close_scanner-IsTidy s g)
      | inr unread ↦ rw unread g
    ]

perform-IsTidy : (a : Action) (s : CameraState) → IsTimely a s → IsTidy s → IsTidy (perform a s)
unfolding perform download_qr_code start_camera camera_refused
perform-IsTidy (generate url) s h g = generate_qr_code-IsTidy url s g
perform-IsTidy download s h g =
    branch-IsTidy (s.qr_code_data_url == "") _ _ g (like s _ g refl refl refl refl refl refl)
perform-IsTidy open_scanner s h g = record {
  streams = g.streams;
  timers = g.timers;
  active = g.active;
  paired = g.paired;
  shown = λ k. cc;
}
perform-IsTidy close s h g = close_scanner-IsTidy s g
perform-IsTidy start s h g =
    branch-IsTidy (s.show_qr_scanner && not s.is_camera_active) _ _
      (like s _ g refl refl refl refl refl refl) g
perform-IsTidy (granted n) s (shown, idle) g =
    branch-IsTidy (ltb 0 s.requests) _ _ (camera_granted-IsTidy n s shown idle g) g
perform-IsTidy refused s h g =
    branch-IsTidy (ltb 0 s.requests) _ _ (like s _ g refl refl refl refl refl refl) g
perform-IsTidy stop s h g = stop_camera-IsTidy s g
perform-IsTidy (scan picture) s h g =
    branch-IsTidy (is_running s.intervals) _ _ (scan_qr_code-IsTidy picture s g) g

-- Whatever is done to the page, as long as each request for the camera is granted while the scanner is
-- shown and before another one was granted, the streams and the timers that run are those that the page
-- refers to; once the scanner is not shown, or the camera was stopped, none runs.
pub Reach-IsTidy :
    (s : CameraState)
    → Reach s
    → IsTidy s
      × (s.show_qr_scanner ≡ false → (s.open_streams ≡ []) × (s.intervals ≡ []))
      × ((stop_camera s).open_streams ≡ [])
      × ((stop_camera s).intervals ≡ [])
unfolding stop_camera
Reach-IsTidy s r =
    let g = tidy s r in
    let t = stop_camera-IsTidy s g in
    (
      g,
      λ h. (
        g.streams ∙ ap listed (g.shown h),
        g.timers
            ∙ ap listed
                (empty_stream s.scan_interval (sym (ap is_some (g.shown h)) ∙ sym g.paired)),
      ),
      t.streams,
      t.timers,
    )
  where
    tidy : (s : CameraState) → Reach s → IsTidy s
    tidy s begin = record {
      streams = refl;
      timers = refl;
      active = refl;
      paired = refl;
      shown = λ h. refl;
    }
    tidy s (go a s₀ h r) = perform-IsTidy a s₀ h (tidy s₀ r)
