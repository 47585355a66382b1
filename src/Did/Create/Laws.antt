-- ===== src/Did/Create/Laws.antt =====
-- What the form submits, and what it keeps of the answer.
use academic_verification.Prelude.{
  ℕ, String, Bool, true, false, Option, none, some, List, [], ◌∷◌, ◌++◌, map, ok, ◌≡◌, refl, sym,
  subst, ◌∙◌, ap, inl, inr, arith, All, Bool-cases,
}
use academic_verification.Transactions.Submit.{TransactionResult, TransactionStatus}
use academic_verification.Transactions.Extrinsic.{Submission}
use academic_verification.Transactions.Calls.{create_did}
use academic_verification.Did.HexBytes.{without_prefix}
use academic_verification.Did.HexBytes.Laws.{IsByte, digits_of, written, bytes_of-digits_of}
use academic_verification.Did.Create.{
  CreateState, GeneratedKeys, Keyring, generate, Answer, generate_keys, show_keys, new_keys,
  start_over, public_key_bytes, or_null, on_status, on_statuses, fail, use_result, answered, send,
  submit_keys, on_submit,
}

pub public_key_bytes-written :
    (b : ℕ) (bs : List ℕ) → All IsByte (b ∷ bs) → public_key_bytes (written (b ∷ bs)) ≡ ok (b ∷ bs)
unfolding public_key_bytes or_null without_prefix digits_of
public_key_bytes-written b bs h = ap ok (bytes_of-digits_of (b ∷ bs) h)

-- What the updates leave alone.
pub record IsKept (s t : CreateState) : Type 0 where
  pub sent : t.sent ≡ s.sent
  pub created : t.created ≡ s.created
  pub did : t.did ≡ s.did
  pub busy : t.is_submitting ≡ s.is_submitting
  pub keys : t.generated_keys ≡ s.generated_keys
  pub step : t.step ≡ s.step
  pub form : t.form ≡ s.form

IsKept-refl : (s : CreateState) → IsKept s s
IsKept-refl s = record {
  sent = refl;
  created = refl;
  did = refl;
  busy = refl;
  keys = refl;
  step = refl;
  form = refl;
}

IsKept-trans : (s t u : CreateState) → IsKept s t → IsKept t u → IsKept s u
IsKept-trans s t u k l = record {
  sent = l.sent ∙ k.sent;
  created = l.created ∙ k.created;
  did = l.did ∙ k.did;
  busy = l.busy ∙ k.busy;
  keys = l.keys ∙ k.keys;
  step = l.step ∙ k.step;
  form = l.form ∙ k.form;
}

on_status-IsKept : (u : TransactionStatus) (s : CreateState) → IsKept s (on_status u s)
unfolding on_status
on_status-IsKept u s = record {
  sent = ground arith;
  created = ground arith;
  did = ground arith;
  busy = ground arith;
  keys = ground arith;
  step = ground arith;
  form = ground arith;
}

pub on_statuses-IsKept :
    (us : List TransactionStatus) (s : CreateState) → IsKept s (on_statuses us s)
unfolding on_statuses
on_statuses-IsKept [] s = IsKept-refl s
on_statuses-IsKept (u ∷ us) s =
    IsKept-trans s (on_status u s) _ (on_status-IsKept u s) (on_statuses-IsKept us (on_status u s))

abbrev pub succeeded : Option TransactionResult → Bool
succeeded none = false
succeeded (some r) = r.success

abbrev pub is_pending : Option TransactionResult → Bool
is_pending none = true
is_pending (some r) = false

-- What the form makes of a submission's answer.
pub record IsAnswered (keys : GeneratedKeys) (r : Option TransactionResult) (s t : CreateState)
    : Type 0 where
  pub busy : t.is_submitting ≡ is_pending r
  pub success : succeeded r ≡ true → t.created ≡ s.created ++ keys.address ∷ []
  pub owner : succeeded r ≡ true → t.did.did_address ≡ some keys.address
  pub key : succeeded r ≡ true → map (λ k. k.public_key) t.did.public_keys ≡ keys.public_key ∷ []
  pub failure : succeeded r ≡ false → (t.created ≡ s.created) × (t.did ≡ s.did)

answered-IsAnswered :
    (now : ℕ) (keys : GeneratedKeys) (r : Option TransactionResult) (s t : CreateState)
    → t.created ≡ s.created
    → t.did ≡ s.did
    → t.is_submitting ≡ true
    → IsAnswered keys r s (answered now keys r t) × ((answered now keys r t).sent ≡ t.sent)
unfolding answered use_result fail
answered-IsAnswered now keys none s t c d e = (
  record { busy = e; success = λ p. cc; owner = λ p. cc; key = λ p. cc; failure = λ p. (c, d) },
  refl,
)
answered-IsAnswered now keys (some r) s t c d e = elim (Bool-cases r.success) [
  | inl yes' ↦ rw yes' (
    record {
      busy = refl;
      success = λ p. ap (λ x. x ++ keys.address ∷ []) c;
      owner = λ p. refl;
      key = λ p. refl;
      failure = λ p. cc;
    },
    refl,
  )
  | inr no' ↦ rw no' (
    record {
      busy = refl;
      success = λ p. cc;
      owner = λ p. cc;
      key = λ p. cc;
      failure = λ p. (c, d);
    },
    refl,
  )
]

send-IsAnswered :
    (now : ℕ) (call : Submission → Answer) (keys : GeneratedKeys) (account : String)
    (bytes : List ℕ) (s : CreateState)
    → s.is_submitting ≡ true
    → let tx = create_did account bytes s.form.key_type in
      let t = send now call keys account (ok bytes) s in
      (t.sent ≡ s.sent ++ tx ∷ []) × IsAnswered keys (call tx).result s t
unfolding send
send-IsAnswered now call keys account bytes s e =
    let tx = create_did account bytes s.form.key_type in
    let s' = record s { sent = s.sent ++ tx ∷ [] } in
    let k = on_statuses-IsKept (call tx).updates s' in
    by_result (call tx).result (on_statuses (call tx).updates s') k
  where
    by_result :
        (r : Option TransactionResult) (t : CreateState)
        → IsKept (record s { sent = s.sent ++ create_did account bytes s.form.key_type ∷ [] }) t
        → let u = answered now keys r t in
          (u.sent ≡ s.sent ++ create_did account bytes s.form.key_type ∷ []) × IsAnswered keys r s u
    by_result r t k =
        let (a, b) = answered-IsAnswered now keys r s t k.created k.did (k.busy ∙ e) in
        (b ∙ k.sent, a)

on_submit-send :
    (now : ℕ) (call : Submission → Answer) (account : String) (s : CreateState)
    (keys : GeneratedKeys) (b : ℕ) (bs : List ℕ)
    → All IsByte (b ∷ bs)
    → keys.public_key ≡ written (b ∷ bs)
    → s.form.backup_confirmed ≡ true
    → s.generated_keys ≡ some keys
    → on_submit now (some call) (some account) s
      ≡ send now call keys account (ok (b ∷ bs)) (record s { is_submitting = true })
unfolding on_submit submit_keys
on_submit-send now call account s keys b bs h written_as confirmed kept =
    simp (confirmed, kept, written_as, public_key_bytes-written b bs h)

-- A confirmed form with keys, of a page that is connected, sends one transaction, signed by the
-- account and with exactly the bytes of the generated key; the form stays in the state of submitting
-- exactly if the promise stays pending, the local DID is that of the generated address, with the
-- generated key alone, after a success, and stays what it was otherwise.
pub on_submit-IsAnswered :
    (now : ℕ) (call : Submission → Answer) (account : String) (s : CreateState)
    (keys : GeneratedKeys) (b : ℕ) (bs : List ℕ)
    → All IsByte (b ∷ bs)
    → keys.public_key ≡ written (b ∷ bs)
    → s.form.backup_confirmed ≡ true
    → s.generated_keys ≡ some keys
    → let tx = create_did account (b ∷ bs) s.form.key_type in
      let t = on_submit now (some call) (some account) s in
      (t.sent ≡ s.sent ++ tx ∷ []) × IsAnswered keys (call tx).result s t
unfolding on_submit submit_keys send
on_submit-IsAnswered now call account s keys b bs h written_as confirmed kept =
    let tx = create_did account (b ∷ bs) s.form.key_type in
    subst (λ t. (t.sent ≡ s.sent ++ tx ∷ []) × IsAnswered keys (call tx).result s t)
      (sym (on_submit-send now call account s keys b bs h written_as confirmed kept))
      (let (a, r) =
          send-IsAnswered now call keys account (b ∷ bs) (record s { is_submitting = true }) refl in
        (
          a,
          record {
            busy = r.busy;
            success = r.success;
            owner = r.owner;
            key = r.key;
            failure = r.failure;
          },
        ))

-- `Start Over` keeps the confirmation: after it, keys that are generated anew are submitted without a
-- further confirmation of their backup, if the form had been confirmed for the keys before.
pub on_submit-start_over :
    (now : ℕ) (call : Submission → Answer) (account : String) (keyring : Keyring) (s : CreateState)
    (keys : GeneratedKeys) (b : ℕ) (bs : List ℕ)
    → All IsByte (b ∷ bs)
    → new_keys keyring s.form.key_type ≡ ok keys
    → keys.public_key ≡ written (b ∷ bs)
    → s.form.backup_confirmed ≡ true
    → (on_submit now (some call) (some account) (generate_keys keyring (start_over s))).sent
      ≡ s.sent ++ create_did account (b ∷ bs) s.form.key_type ∷ []
unfolding generate_keys start_over
on_submit-start_over now call account keyring s keys b bs h generated written_as confirmed =
    rw generated (
      let (sent, _) =
        on_submit-IsAnswered now call account
          (show_keys (ok keys) (record s { step = generate; generated_keys = none })) keys b bs h
          written_as confirmed refl in
      sent)
