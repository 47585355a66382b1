-- ===== src/Shell/Tests.antt =====
-- A subscription on an opened page, and a form in the dialog.
use academic_verification.Prelude.{ℕ, true, false, some, List, [], ◌∷◌, map, ◌≡◌, refl, arith, All}
use academic_verification.Store.Did.{initial}
use academic_verification.Transactions.Submit.{success_in}
use academic_verification.Transactions.Extrinsic.{ed25519, Submission}
use academic_verification.Transactions.Calls.{create_did}
use academic_verification.Did.HexBytes.Laws.{IsByte, written}
use academic_verification.Did.Create.{Answer, CreateState, GeneratedKeys, backup}
use academic_verification.Did.Create.Laws.{succeeded}
use academic_verification.Shell.ChainStatus.{Event, effect, subscribed, new_head, cleanup, step}
use academic_verification.Shell.Identity.{placeholder_key, submit_in_dialog}
use academic_verification.Shell.Modal.{submit_in_dialog-placeholder_key}

abbrev later : List Event
later = effect true ∷ (subscribed 1 ∷ (new_head 1 50 ∷ (cleanup ∷ [])))

abbrev bytes : List ℕ
bytes = 18 ∷ (255 ∷ [])

abbrev keys : GeneratedKeys
keys = record { public_key = written bytes; mnemonic = "a b c"; address = "5New" }

abbrev page : CreateState
page = record {
  form = record { key_type = ed25519; backup_confirmed = true };
  step = backup;
  generated_keys = some keys;
  show_mnemonic = false;
  is_submitting = false;
  transaction_status = "";
  did = initial;
  sent = [];
  created = [];
  toasts = [];
}

abbrev call : Submission → Answer
call tx = record { updates = []; result = some (success_in "0xaa" "0xb1") }

bytes-IsByte : All IsByte bytes
bytes-IsByte = (omega arith, (omega arith, tt))

submit_in_dialog-placeholder_key_example :
    let answer = succeeded (call (create_did "5Acc" bytes ed25519)).result in
    let (form, dialog) = submit_in_dialog 7 8 (some call) (some "5Acc") page in
    (answer ≡ true
      → (map (λ k. k.public_key) form.did.public_keys ≡ keys.public_key ∷ [])
        × (dialog.did.public_keys ≡ placeholder_key 8 ∷ [])
        × (dialog.did.did_address ≡ form.did.did_address)
        × (dialog.is_open ≡ false))
    × (answer ≡ false → (dialog.did ≡ page.did) × (dialog.is_open ≡ true))
submit_in_dialog-placeholder_key_example =
    submit_in_dialog-placeholder_key 7 8 call "5Acc" page keys 18 (255 ∷ []) bytes-IsByte refl refl
      refl refl
