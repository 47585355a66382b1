-- ===== src/Shell/Modal.antt =====
-- The dialog around the form that creates a DID.
use academic_verification.Prelude.{
  ℕ, String, true, false, some, List, [], ◌∷◌, ◌++◌, map, ◌≡◌, refl, sym, ◌∙◌, ap, All,
}
use academic_verification.Transactions.Extrinsic.{Submission}
use academic_verification.Transactions.Calls.{create_did}
use academic_verification.Did.HexBytes.Laws.{IsByte, written}
use academic_verification.Did.Create.{CreateState, GeneratedKeys, Answer}
use academic_verification.Did.Create.Laws.{succeeded, on_submit-IsAnswered}
use academic_verification.Shell.Identity.{
  ModalState, placeholder_key, handle_success, on_created, submit_in_dialog,
}

on_created-handle_success :
    (now : ℕ) (a : String) (as' : List String) (m : ModalState)
    → as' ≡ a ∷ []
    → on_created now as' m ≡ handle_success now a m
on_created-handle_success now a as' m e = rw e refl

on_created_none :
    (now : ℕ) (as' : List String) (m : ModalState) → as' ≡ [] → on_created now as' m ≡ m
on_created_none now as' m e = rw e refl

-- A confirmed form with keys, in the open dialog of a page that is connected: if the transaction
-- succeeds, the form leaves the generated key in the store, and the dialog then closes and leaves the
-- same address with its placeholder as the only key; if it does not, the dialog stays open with the
-- store as it was.
pub submit_in_dialog-placeholder_key :
    (now later : ℕ) (call : Submission → Answer) (account : String) (s : CreateState)
    (keys : GeneratedKeys) (b : ℕ) (bs : List ℕ)
    → All IsByte (b ∷ bs)
    → keys.public_key ≡ written (b ∷ bs)
    → s.form.backup_confirmed ≡ true
    → s.generated_keys ≡ some keys
    → s.created ≡ []
    → let answer = succeeded (call (create_did account (b ∷ bs) s.form.key_type)).result in
      let (form, dialog) = submit_in_dialog now later (some call) (some account) s in
      (answer ≡ true
        → (map (λ k. k.public_key) form.did.public_keys ≡ keys.public_key ∷ [])
          × (dialog.did.public_keys ≡ placeholder_key later ∷ [])
          × (dialog.did.did_address ≡ form.did.did_address)
          × (dialog.is_open ≡ false))
      × (answer ≡ false → (dialog.did ≡ s.did) × (dialog.is_open ≡ true))
unfolding submit_in_dialog handle_success
submit_in_dialog-placeholder_key now later call account s keys b bs h w confirmed kept none' =
    let (_, r) = on_submit-IsAnswered now call account s keys b bs h w confirmed kept in
    (
      λ yes'.
          let one =
            on_created-handle_success later keys.address _ _
              (r.success yes' ∙ ap (λ as'. as' ++ keys.address ∷ []) none') in
          (
            r.key yes',
            ap (λ m. m.did.public_keys) one,
            ap (λ m. m.did.did_address) one ∙ sym (r.owner yes'),
            ap (λ m. m.is_open) one,
          ),
      λ no'.
          let (c, d) = r.failure no' in
          let same = on_created_none later _ _ (c ∙ none') in
          (ap (λ m. m.did) same ∙ d, ap (λ m. m.is_open) same),
    )
