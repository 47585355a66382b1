-- ===== src/Did/Create/Tests.antt =====
-- A form with a key of two bytes.
use academic_verification.Prelude.{
  ℕ, String, Settled, true, false, some, List, [], ◌∷◌, ◌++◌, ok, ◌≡◌, refl, arith, All,
}
use academic_verification.Store.Did.{initial}
use academic_verification.Transactions.Submit.{success_in}
use academic_verification.Transactions.Extrinsic.{KeyType, ed25519, Submission}
use academic_verification.Transactions.Calls.{create_did}
use academic_verification.Did.HexBytes.Laws.{IsByte, written}
use academic_verification.Did.Create.{
  Answer, CreateState, GeneratedKeys, Keyring, new_keys, on_submit, backup,
}
use academic_verification.Did.Create.Session.{
  Action, choose, make, confirm_backup, restart, send_off, opened, perform_all, IsBacked,
  perform_all-IsBacked,
}
use academic_verification.Did.Create.Laws.{IsAnswered, on_submit-IsAnswered}

abbrev bytes : List ℕ
bytes = 18 ∷ (255 ∷ [])

abbrev keys : GeneratedKeys
keys = record { public_key = written bytes; mnemonic = "a b c"; address = "5New" }

abbrev page : CreateState
page = record {
  form = record { key_type = ed25519; backup_confirmed = true };
  step = backup;
  generated_keys = some keys;
  show_mnemonic = false;
  is_submitting = false;
  transaction_status = "";
  did = initial;
  sent = [];
  created = [];
  toasts = [];
}

abbrev call : Submission → Answer
call tx = record { updates = []; result = some (success_in "0xaa" "0xb1") }

abbrev keyring : Keyring
keyring = record {
  mnemonic_generate = ok "a b c";
  add_from_mnemonic = λ t m. ok (written bytes, "5New");
}

bytes-IsByte : All IsByte bytes
bytes-IsByte = (omega arith, (omega arith, tt))

on_submit-IsAnswered_example :
    let tx = create_did "5Acc" bytes ed25519 in
    let t = on_submit 7 (some call) (some "5Acc") page in
    (t.sent ≡ page.sent ++ tx ∷ []) × IsAnswered keys (call tx).result page t
on_submit-IsAnswered_example =
    on_submit-IsAnswered 7 call "5Acc" page keys 18 (255 ∷ []) bytes-IsByte refl refl refl

generated : new_keys keyring ed25519 ≡ ok keys
unfolding new_keys
generated = refl

abbrev derive : KeyType → String → Settled (String × String)
derive t m = ok (written bytes, "5New")

abbrev actions : List Action
actions =
    choose ed25519
    ∷ (make (ok "a b c")
        ∷ (restart
            ∷ (make (ok "d e f")
                ∷ (confirm_backup true ∷ (send_off 7 (some call) (some "5Acc") ∷ [])))))

perform_all-IsBacked_example : IsBacked derive (perform_all derive actions (opened ed25519 initial))
perform_all-IsBacked_example = perform_all-IsBacked derive ed25519 initial actions
