-- ===== src/Pallets/Reputation.antt =====
-- pallets/reputation/src/lib.rs: endorsements and scores. The calls read the storage of the DID
-- pallet; `now` is the number of the block.
pub mod Calls
pub mod Fair
pub mod Sound
pub mod Erased
use academic_verification.Prelude.{
  ℕ, min, Bool, true, false, not, Option, List, [], ◌∷◌, ◌++◌, ◌==◌, ◌&&◌, leb, filter, length,
}
use academic_verification.Pallets.Base.{
  AccountId, Bytes, Origin, reputation, no_did, ReputationError, already_endorsed,
  cannot_endorse_self, too_many_endorsements, endorsement_not_found, invalid_weight,
  comment_too_large, Result, ok, ◌>>=◌, ◌>>◌, ensure, ok_or, ensure_signed, ensure_root, put,
  try_push, saturating_add, saturating_mul, saturating_sub, u32_max, Config,
}
use academic_verification.Pallets.Did.{DidStorage}

pub data EndorsementType : Type 0 where
  professional academic research teaching innovation : EndorsementType

pub record ReputationScore : Type 0 where
  pub credentials_issued : ℕ
  pub credentials_verified : ℕ
  pub endorsements_received : ℕ
  pub endorsements_given : ℕ
  pub total_score : ℕ

-- `Default` of `ReputationScore`
abbrev pub default_score : ReputationScore
default_score = record {
  credentials_issued = 0;
  credentials_verified = 0;
  endorsements_received = 0;
  endorsements_given = 0;
  total_score = 0;
}

pub record Endorsement : Type 0 where
  pub endorser : AccountId
  pub endorsee : AccountId
  pub endorsement_type : EndorsementType
  pub comment : Bytes
  pub created_at : ℕ
  pub weight : ℕ

pub data Event : Type 0 where
  endorsement_created : (endorser endorsee : AccountId) → EndorsementType → (weight : ℕ) → Event
  endorsement_removed : (endorser endorsee : AccountId) → Event
  reputation_updated : (account : AccountId) (new_score : ℕ) → Event
  credential_issuance_recorded : (issuer : AccountId) → Event
  credential_verification_recorded : (verifier : AccountId) → Event

-- The storage, and the events that this pallet deposits.
pub record ReputationStorage : Type 0 where
  pub reputation_scores : AccountId → ReputationScore
  pub endorsements_given : AccountId → List Endorsement
  pub endorsements_received : AccountId → List Endorsement
  pub has_endorsed : AccountId → AccountId → Bool
  pub events : List Event

unfoldable pub deposit_event : Event → ReputationStorage → ReputationStorage
deposit_event e s = record s { events = s.events ++ e ∷ [] }

unfoldable pub calculate_reputation_score : ReputationScore → ℕ
calculate_reputation_score score =
    let credentials_score = saturating_mul u32_max score.credentials_issued 10 in
    let verification_score = saturating_mul u32_max score.credentials_verified 5 in
    let endorsement_score = saturating_mul u32_max score.endorsements_received 20 in
    min
      (saturating_add u32_max (saturating_add u32_max credentials_score verification_score)
        endorsement_score)
      1000

-- `score.total_score = Self::calculate_reputation_score(&score)`
abbrev pub rated : ReputationScore → ReputationScore
rated score = record score { total_score = calculate_reputation_score score }

abbrev pub one_more_issued : ReputationScore → ReputationScore
one_more_issued score = record score {
  credentials_issued = saturating_add u32_max score.credentials_issued 1;
}

abbrev pub one_more_verified : ReputationScore → ReputationScore
one_more_verified score = record score {
  credentials_verified = saturating_add u32_max score.credentials_verified 1;
}

-- `ReputationScores::mutate`
abbrev pub mutate_score :
    AccountId → (ReputationScore → ReputationScore) → ReputationStorage → ReputationStorage
mutate_score who f s = record s {
  reputation_scores = put who (f (s.reputation_scores who)) s.reputation_scores;
}

-- `HasEndorsed::insert` and `HasEndorsed::remove`, whose default is `false`
abbrev pub set_endorsed : AccountId → AccountId → Bool → ReputationStorage → ReputationStorage
set_endorsed a b flag s = record s {
  has_endorsed = put a (put b flag (s.has_endorsed a)) s.has_endorsed;
}

-- The event with the new score.
unfoldable pub report_score : AccountId → ReputationStorage → ReputationStorage
unfolding deposit_event
report_score who s = deposit_event (reputation_updated who (s.reputation_scores who).total_score) s

-- What `endorse` writes after its checks, for the lists with the endorsement.
unfoldable pub write_endorsement :
    Endorsement → (given received : List Endorsement) → ReputationStorage → ReputationStorage
unfolding deposit_event
write_endorsement e given received s =
    let listed : ReputationStorage = record s {
      endorsements_given = put e.endorser given s.endorsements_given;
      endorsements_received = put e.endorsee received s.endorsements_received;
    } in
    deposit_event (endorsement_created e.endorser e.endorsee e.endorsement_type e.weight) (
      mutate_score e.endorsee
        (λ score. rated (record score {
          endorsements_received = saturating_add u32_max score.endorsements_received 1;
        }))
        (mutate_score e.endorser
          (λ score. record score {
            endorsements_given = saturating_add u32_max score.endorsements_given 1;
          })
          (set_endorsed e.endorser e.endorsee true listed)))

unfoldable pub endorse :
    Config
    → ℕ
    → DidStorage
    → Origin
    → (endorsee : AccountId) → EndorsementType
    → (comment : Bytes) (weight : ℕ) → ReputationStorage
    → Result ReputationStorage
endorse cfg now dids origin endorsee endorsement_type comment weight s = do
  endorser ← ensure_signed origin
  ensure (leb (length comment) cfg.max_comment_size) (reputation comment_too_large)
  ensure (not (endorser == endorsee)) (reputation cannot_endorse_self)
  ensure (leb 1 weight && leb weight 10) (reputation invalid_weight)
  endorser_did ← ok_or (dids.did_documents endorser) (reputation no_did)
  ensure endorser_did.active (reputation ReputationError.did_not_active)
  endorsee_did ← ok_or (dids.did_documents endorsee) (reputation no_did)
  ensure endorsee_did.active (reputation ReputationError.did_not_active)
  ensure (not (s.has_endorsed endorser endorsee)) (reputation already_endorsed)
  let endorsement : Endorsement = record {
    endorser = endorser;
    endorsee = endorsee;
    endorsement_type = endorsement_type;
    comment = comment;
    created_at = now;
    weight = weight;
  }
  given ←
      ok_or (try_push cfg.max_endorsements (s.endorsements_given endorser) endorsement)
        (reputation too_many_endorsements)
  received ←
      ok_or (try_push cfg.max_endorsements (s.endorsements_received endorsee) endorsement)
        (reputation too_many_endorsements)
  ok (write_endorsement endorsement given received s)

-- What `remove_endorsement` writes after its check.
unfoldable pub erase_endorsement :
    (endorser endorsee : AccountId) → ReputationStorage → ReputationStorage
unfolding deposit_event
erase_endorsement endorser endorsee s =
    let given = filter (λ e. not (e.endorsee == endorsee)) (s.endorsements_given endorser) in
    let received = filter (λ e. not (e.endorser == endorser)) (s.endorsements_received endorsee) in
    let listed : ReputationStorage = record s {
      endorsements_given = put endorser given s.endorsements_given;
      endorsements_received = put endorsee received s.endorsements_received;
    } in
    deposit_event (endorsement_removed endorser endorsee) (
      mutate_score endorsee
        (λ score.
          rated
            (record score { endorsements_received = saturating_sub score.endorsements_received 1 }))
        (mutate_score endorser
          (λ score. record score { endorsements_given = saturating_sub score.endorsements_given 1 })
          (set_endorsed endorser endorsee false listed)))

unfoldable pub remove_endorsement :
    Origin → AccountId → ReputationStorage → Result ReputationStorage
remove_endorsement origin endorsee s = do
  endorser ← ensure_signed origin
  ensure (s.has_endorsed endorser endorsee) (reputation endorsement_not_found)
  ok (erase_endorsement endorser endorsee s)

unfoldable pub record_credential_issuance :
    Origin → AccountId → ReputationStorage → Result ReputationStorage
unfolding deposit_event report_score
record_credential_issuance origin issuer s = do
  ensure_root origin
  ok (
      report_score issuer (
        deposit_event (credential_issuance_recorded issuer)
          (mutate_score issuer (λ score. rated (one_more_issued score)) s)))

unfoldable pub record_credential_verification :
    Origin → ReputationStorage → Result ReputationStorage
unfolding deposit_event report_score
record_credential_verification origin s = do
  verifier ← ensure_signed origin
  ok (
      report_score verifier (
        deposit_event (credential_verification_recorded verifier)
          (mutate_score verifier (λ score. rated (one_more_verified score)) s)))

unfoldable pub update_reputation_score :
    Origin → AccountId → ReputationStorage → Result ReputationStorage
unfolding report_score
update_reputation_score origin account s = do
  ensure_root origin
  ok (report_score account (mutate_score account (λ score. rated score) s))
