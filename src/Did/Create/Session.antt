-- ===== src/Did/Create/Session.antt =====
-- The form over a sequence of operations. The type of the key is chosen in the first step; the backup,
-- its confirmation and the buttons below it are shown once keys were generated. `derive` is the pair
-- that the keyring gives for a mnemonic.
use academic_verification.Prelude.{
  ℕ, String, Bool, true, false, not, Option, none, some, List, [], ◌∷◌, ◌++◌, Settled, ok, err, ◌≡◌,
  refl, sym, subst, All, All-append, if◌then◌else◌,
}
use academic_verification.Transactions.Submit.{TransactionResult}
use academic_verification.Transactions.Extrinsic.{KeyType, Submission}
use academic_verification.Transactions.Calls.{create_did}
use academic_verification.Store.Did.{DidState}
use academic_verification.Did.Create.{
  Step, select, generate, backup, confirm, submit, CreateState, GeneratedKeys, Keyring, Answer,
  new_keys, show_keys, generate_keys, regenerate_keys, start_over, public_key_bytes, fail,
  use_result, answered, send, submit_keys, on_submit,
}
use academic_verification.Did.Create.Laws.{IsKept, on_statuses-IsKept}

abbrev pub is_select : Step → Bool
is_select s = elim s [ select ↦ true | _ ↦ false ]

abbrev pub is_backup : Step → Bool
is_backup s = elim s [ backup ↦ true | confirm ↦ true | _ ↦ false ]

-- The form when it is opened.
unfoldable pub opened : KeyType → DidState → CreateState
opened t d = record {
  form = record { key_type = t; backup_confirmed = false };
  step = select;
  generated_keys = none;
  show_mnemonic = false;
  is_submitting = false;
  transaction_status = "";
  did = d;
  sent = [];
  created = [];
  toasts = [];
}

pub data Action : Type 0 where
  choose : KeyType → Action
  make remake : (mnemonic : Settled String) → Action
  confirm_backup : Bool → Action
  show_phrase restart : Action
  send_off : (now : ℕ) → Option (Submission → Answer) → Option String → Action

module _ (derive : KeyType → String → Settled (String × String)) where
  abbrev pub keyring : Settled String → Keyring
  keyring m = record { mnemonic_generate = m; add_from_mnemonic = derive }

  unfoldable pub perform : Action → CreateState → CreateState
  unfolding generate_keys regenerate_keys start_over on_submit
  perform (choose t) s =
      if is_select s.step then record s { form = record (s.form) { key_type = t } } else s
  perform (make m) s = if is_select s.step then generate_keys (keyring m) s else s
  perform (remake m) s = if is_backup s.step then regenerate_keys (keyring m) s else s
  perform (confirm_backup b) s =
      if is_backup s.step then record s { form = record (s.form) { backup_confirmed = b } } else s
  perform show_phrase s =
      if is_backup s.step then record s { show_mnemonic = not s.show_mnemonic } else s
  perform restart s = if is_backup s.step then (if s.is_submitting then s else start_over s) else s
  perform (send_off now call account) s =
      if is_backup s.step then (if s.is_submitting then s else on_submit now call account s) else s

  unfoldable pub perform_all : List Action → CreateState → CreateState
  unfolding perform
  perform_all [] s = s
  perform_all (a ∷ actions) s = perform_all actions (perform a s)

  -- The keys are there, and they are the pair of their mnemonic.
  pub data HasPair (t : KeyType) : Option GeneratedKeys → Type 0 where
    has :
        (keys : GeneratedKeys)
        → derive t keys.mnemonic ≡ ok (keys.public_key, keys.address)
        → HasPair t (some keys)

  -- A transaction whose key is that of a mnemonic.
  pub record IsDerived (tx : Submission) : Type 0 where
    pub key_type : KeyType
    pub keys : GeneratedKeys
    pub account : String
    pub bytes : List ℕ
    pub pair : derive key_type keys.mnemonic ≡ ok (keys.public_key, keys.address)
    pub read : public_key_bytes keys.public_key ≡ ok bytes
    pub call : tx ≡ create_did account bytes key_type

  pub record IsBacked (s : CreateState) : Type 0 where
    pub shown : is_backup s.step ≡ true → HasPair s.form.key_type s.generated_keys
    pub derived : All IsDerived s.sent

  kept-IsBacked : (s t : CreateState) → IsKept s t → IsBacked s → IsBacked t
  kept-IsBacked s t k g = record {
    shown = rw (k.form, k.step, k.keys) g.shown;
    derived = subst (All IsDerived) (sym k.sent) g.derived;
  }

  branch-IsBacked :
      (b : Bool) (s t : CreateState)
      → (b ≡ true → IsBacked s)
      → IsBacked t
      → IsBacked (if b then s else t)
  branch-IsBacked true s t g h = g refl
  branch-IsBacked false s t g h = h

  by_pair :
      (m : String) (r : Settled (String × String)) (s : CreateState)
      → derive s.form.key_type m ≡ r
      → IsBacked s
      → IsBacked
          (show_keys (new_keys (keyring (ok m)) s.form.key_type) (record s { step = generate }))
  unfolding show_keys new_keys
  by_pair m (err e) s p g = rw p (record { shown = λ q. cc; derived = g.derived })
  by_pair m (ok (key, address)) s p g = rw p (record {
    shown = λ q. has (record { public_key = key; mnemonic = m; address = address }) p;
    derived = g.derived;
  })

  show_keys-IsBacked :
      (m : Settled String) (s : CreateState)
      → IsBacked s
      → IsBacked (show_keys (new_keys (keyring m) s.form.key_type) (record s { step = generate }))
  unfolding show_keys new_keys
  show_keys-IsBacked (err e) s g = record { shown = λ p. cc; derived = g.derived }
  show_keys-IsBacked (ok m) s g = by_pair m (derive s.form.key_type m) s refl g

  answered-IsBacked :
      (now : ℕ) (keys : GeneratedKeys) (r : Option TransactionResult) (s : CreateState)
      → IsBacked s
      → IsBacked (answered now keys r s)
  unfolding answered use_result fail
  answered-IsBacked now keys none s g = g
  answered-IsBacked now keys (some r) s g =
      branch-IsBacked r.success _ _ (λ p. record { shown = g.shown; derived = g.derived })
        (record { shown = g.shown; derived = g.derived })

  send-IsBacked :
      (now : ℕ) (call : Submission → Answer) (keys : GeneratedKeys) (account : String)
      (r : Settled (List ℕ)) (s : CreateState)
      → derive s.form.key_type keys.mnemonic ≡ ok (keys.public_key, keys.address)
      → public_key_bytes keys.public_key ≡ r
      → IsBacked s
      → IsBacked (send now call keys account r s)
  unfolding send fail
  send-IsBacked now call keys account (err m) s p e g = record {
    shown = g.shown;
    derived = g.derived;
  }
  send-IsBacked now call keys account (ok bytes) s p e g =
      let tx = create_did account bytes s.form.key_type in
      let s' = record s { sent = s.sent ++ tx ∷ [] } in
      answered-IsBacked now keys (call tx).result _ (
        kept-IsBacked s' _ (on_statuses-IsKept (call tx).updates s') (record {
          shown = g.shown;
          derived = All-append IsDerived s.sent (tx ∷ []) g.derived (
            record {
              key_type = s.form.key_type;
              keys = keys;
              account = account;
              bytes = bytes;
              pair = p;
              read = e;
              call = refl;
            },
            tt,
          );
        }))

  submit_keys-IsBacked :
      (now : ℕ) (call : Option (Submission → Answer)) (account : Option String)
      (keys : Option GeneratedKeys) (s : CreateState)
      → HasPair s.form.key_type keys
      → IsBacked s
      → IsBacked (submit_keys now call account keys s)
  unfolding submit_keys
  submit_keys-IsBacked now none account keys s p g = record { shown = g.shown; derived = g.derived }
  submit_keys-IsBacked now (some call) none keys s p g = record {
    shown = g.shown;
    derived = g.derived;
  }
  submit_keys-IsBacked now (some call) (some account) none s p g = elim p [ ]
  submit_keys-IsBacked now (some call) (some account) (some keys) s (has keys' p) g =
      send-IsBacked now call keys account (public_key_bytes keys.public_key) _ p refl
        (record { shown = g.shown; derived = g.derived })

  not_backup : (st : Step) → is_select st ≡ true → is_backup st ≡ false
  not_backup select p = refl
  not_backup generate p = refl
  not_backup backup p = cc
  not_backup confirm p = cc
  not_backup submit p = refl

  perform-IsBacked : (a : Action) (s : CreateState) → IsBacked s → IsBacked (perform a s)
  unfolding perform generate_keys regenerate_keys start_over on_submit
  perform-IsBacked (choose t) s g =
      branch-IsBacked (is_select s.step) _ _
        (λ p. let q = not_backup s.step p in record { shown = λ r. cc; derived = g.derived }) g
  perform-IsBacked (make m) s g =
      branch-IsBacked (is_select s.step) _ _ (λ p. show_keys-IsBacked m s g) g
  perform-IsBacked (remake m) s g =
      branch-IsBacked (is_backup s.step) _ _
        (λ p. show_keys-IsBacked m _ (record { shown = g.shown; derived = g.derived })) g
  perform-IsBacked (confirm_backup b) s g =
      branch-IsBacked (is_backup s.step) _ _ (λ p. record { shown = g.shown; derived = g.derived })
        g
  perform-IsBacked show_phrase s g =
      branch-IsBacked (is_backup s.step) _ _ (λ p. record { shown = g.shown; derived = g.derived })
        g
  perform-IsBacked restart s g =
      branch-IsBacked (is_backup s.step) _ _
        (λ p.
          branch-IsBacked s.is_submitting _ _ (λ q. g)
            (record { shown = λ q. cc; derived = g.derived }))
        g
  perform-IsBacked (send_off now call account) s g =
      branch-IsBacked (is_backup s.step) _ _
        (λ p.
          branch-IsBacked s.is_submitting _ _ (λ q. g)
            (branch-IsBacked s.form.backup_confirmed _ _
              (λ q. submit_keys-IsBacked now call account s.generated_keys s (g.shown p) g) g))
        g

  perform_all-kept :
      (actions : List Action) (s : CreateState) → IsBacked s → IsBacked (perform_all actions s)
  unfolding perform_all
  perform_all-kept [] s g = g
  perform_all-kept (a ∷ actions) s g =
      perform_all-kept actions (perform a s) (perform-IsBacked a s g)

  -- From the form that is opened, whatever is done in whatever order, and whatever mnemonics are
  -- generated, whatever the wallet and the chain answer: while the backup is shown, its key is that of
  -- its mnemonic for the type that is chosen, and each transaction that was sent carries, for the type
  -- that it names, the bytes of the key of a mnemonic.
  pub perform_all-IsBacked :
      (t : KeyType) (d : DidState) (actions : List Action)
      → IsBacked (perform_all actions (opened t d))
  unfolding opened
  perform_all-IsBacked t d actions =
      perform_all-kept actions (opened t d) (record { shown = λ p. cc; derived = tt })
