-- ===== src/Pallets/Runtime/Scores.antt =====
-- The scores that calls lead to.
use academic_verification.Prelude.{ℕ, zero, suc, ◌+◌, ◌≤◌, min, ◌≡◌, refl, ◌∙◌, arith, eq_refl}
use academic_verification.Pallets.Base.{
  AccountId, Origin, signed, Result, ok, err, u32_max, Config, put,
}
use academic_verification.Pallets.Did.{DidStorage}
use academic_verification.Pallets.Reputation
use academic_verification.Pallets.Reputation.{
  ReputationScore, ReputationStorage, calculate_reputation_score, report_score,
}
use academic_verification.Pallets.Reputation.Calls as ReputationCalls
use academic_verification.Pallets.Reputation.Fair.{IsFair}
use academic_verification.Pallets.Reputation.Sound.{dispatch-IsFair}
use academic_verification.Pallets.Runtime.{
  Runtime, RuntimeCall, did, credential, reputation, committed, apply, genesis, Reach, here, call,
  block,
}

committed-IsFair :
    (cfg : Config) (now : ℕ) (dids : DidStorage) (o : Origin) (c : ReputationCalls.Call)
    (s : ReputationStorage) (m : Result ReputationStorage)
    → cfg.max_endorsements ≤ u32_max
    → ReputationCalls.dispatch cfg now dids o c s ≡ m
    → IsFair s
    → IsFair (committed s m)
committed-IsFair cfg now dids o c s (ok t) bound h v =
    dispatch-IsFair cfg now dids o c s t bound v h
committed-IsFair cfg now dids o c s (err e) bound h v = v

apply-IsFair :
    (cfg : Config) (o : Origin) (c : RuntimeCall) (r : Runtime)
    → cfg.max_endorsements ≤ u32_max
    → IsFair r.reputation
    → IsFair (apply cfg o c r).reputation
unfolding apply
apply-IsFair cfg o (did c) r bound v = v
apply-IsFair cfg o (credential c) r bound v = v
apply-IsFair cfg o (reputation c) r bound v =
    committed-IsFair cfg r.block_number r.did o c r.reputation _ bound refl v

genesis-IsFair : IsFair genesis.reputation
unfolding calculate_reputation_score
genesis-IsFair = record {
  rated = λ a. refl;
  given = λ a. refl;
  received = λ a. refl;
  given_once = λ a b. refl;
  received_once = λ a b. refl;
  no_self = λ a. refl;
}

-- From the empty storage, whatever calls are made by whomever, in whatever order, if no more
-- endorsements are allowed than a number of 32 bits counts: the score of each account is the one that
-- is calculated from its numbers, the numbers of endorsements are those of the lists, an endorsement
-- stands once in the list of who gave it and once in the list of who received it exactly if it is
-- flagged, and nobody endorses themselves.
pub Reach-IsFair :
    (cfg : Config) (t : Runtime)
    → cfg.max_endorsements ≤ u32_max
    → Reach cfg genesis t
    → IsFair t.reputation
Reach-IsFair cfg t bound here = genesis-IsFair
Reach-IsFair cfg t bound (call {s} path o c) =
    apply-IsFair cfg o c s bound (Reach-IsFair cfg s bound path)
Reach-IsFair cfg t bound (block {s} path) = Reach-IsFair cfg s bound path

-- Calls by one account that record a verification.
pub claim_verifications : Config → AccountId → ℕ → Runtime → Runtime
claim_verifications cfg a zero r = r
claim_verifications cfg a (suc n) r =
    apply cfg (signed a) (reputation ReputationCalls.record_credential_verification)
      (claim_verifications cfg a n r)

-- After one such call.
claimed :
    (cfg : Config) (a : AccountId) (r : Runtime)
    → let before = r.reputation.reputation_scores a in
      let after =
        (apply cfg
            (signed a)
            (reputation ReputationCalls.record_credential_verification)
            r).reputation.reputation_scores
          a in
      (after.credentials_verified ≡ min (before.credentials_verified + 1) u32_max)
      × (after.total_score ≡ calculate_reputation_score after)
unfolding apply Reputation.record_credential_verification report_score put
    calculate_reputation_score
claimed cfg a r = rw (eq_refl a) (refl, refl)

claims :
    (cfg : Config) (a : AccountId) (n : ℕ) (r : Runtime)
    → min n u32_max
      ≤ ((claim_verifications cfg a n r).reputation.reputation_scores a).credentials_verified
unfolding claim_verifications
claims cfg a zero r = omega arith
claims cfg a (suc n) r =
    let (verified, _) = claimed cfg a (claim_verifications cfg a n r) in
    omega (arith, claims cfg a n r, verified)

enough : (x : ReputationScore) → 200 ≤ x.credentials_verified → calculate_reputation_score x ≡ 1000
unfolding calculate_reputation_score
enough x h = omega arith

-- Whoever signs 200 calls or more that record a verification has the highest score, 1000, whatever
-- the account did before, and without a document or a credential.
pub claim_verifications_score :
    (cfg : Config) (a : AccountId) (n : ℕ) (r : Runtime)
    → 200 ≤ n
    → ((claim_verifications cfg a n r).reputation.reputation_scores a).total_score ≡ 1000
unfolding claim_verifications
claim_verifications_score cfg a zero r h = absurd (omega arith)
claim_verifications_score cfg a (suc n) r h =
    let s = claim_verifications cfg a n r in
    let (verified, total) = claimed cfg a s in
    total ∙ enough _ (omega (arith, verified, claims cfg a n r, h))
