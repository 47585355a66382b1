-- ===== src/Pallets/Reputation/Sound.antt =====
-- Every call of pallets/reputation that succeeds leaves its storage fair.
use academic_verification.Prelude.{
  ℕ, ◌≤◌, not, ◌==◌, ◌&&◌, leb, length, ◌≡◌, refl, subst, arith, eq_iff,
}
use academic_verification.Pallets.Base.{
  AccountId, Bytes, Origin, ok, reputation, ReputationError, no_did, already_endorsed,
  cannot_endorse_self, too_many_endorsements, endorsement_not_found, invalid_weight,
  comment_too_large, u32_max, Config, put, try_push, try_push-eq-some, signed-eq-ok, root-eq-ok,
  ensure-eq-ok, ok_or-eq-ok, ok-injective, not-eq-true,
}
use academic_verification.Pallets.Did.{DidStorage}
use academic_verification.Pallets.Reputation
use academic_verification.Pallets.Reputation.{
  Endorsement, EndorsementType, ReputationScore, ReputationStorage, Event, deposit_event,
  report_score, mutate_score, rated, calculate_reputation_score, write_endorsement,
  erase_endorsement,
}
use academic_verification.Pallets.Reputation.Calls.{
  Call, dispatch, endorse, remove_endorsement, record_credential_issuance,
  record_credential_verification, update_reputation_score,
}
use academic_verification.Pallets.Reputation.Fair.{IsFair, write_endorsement-IsFair}
use academic_verification.Pallets.Reputation.Erased.{erase_endorsement-IsFair}

endorse-IsFair :
    (cfg : Config) (now : ℕ) (dids : DidStorage) (o : Origin) (b : AccountId) (y : EndorsementType)
    (comment : Bytes) (weight : ℕ) (s t : ReputationStorage)
    → cfg.max_endorsements ≤ u32_max
    → IsFair s
    → Reputation.endorse cfg now dids o b y comment weight s ≡ ok t
    → IsFair t
unfolding Reputation.endorse
endorse-IsFair cfg now dids o b y comment weight s t bound v h =
    let (a, _, h1) = signed-eq-ok o _ h in
    let (_, h2) =
      ensure-eq-ok (leb (length comment) cfg.max_comment_size) (reputation comment_too_large) _
        h1 in
    let (other, h3) = ensure-eq-ok (not (a == b)) (reputation cannot_endorse_self) _ h2 in
    let (_, h4) = ensure-eq-ok (leb 1 weight && leb weight 10) (reputation invalid_weight) _ h3 in
    let (d, _, h5) = ok_or-eq-ok (dids.did_documents a) (reputation no_did) _ h4 in
    let (_, h6) = ensure-eq-ok d.active (reputation ReputationError.did_not_active) _ h5 in
    let (d', _, h7) = ok_or-eq-ok (dids.did_documents b) (reputation no_did) _ h6 in
    let (_, h8) = ensure-eq-ok d'.active (reputation ReputationError.did_not_active) _ h7 in
    let (fresh, h9) = ensure-eq-ok (not (s.has_endorsed a b)) (reputation already_endorsed) _ h8 in
    let e : Endorsement = record {
      endorser = a;
      endorsee = b;
      endorsement_type = y;
      comment = comment;
      created_at = now;
      weight = weight;
    } in
    let (given, pushed, h10) =
      ok_or-eq-ok (try_push cfg.max_endorsements (s.endorsements_given a) e)
        (reputation too_many_endorsements) _ h9 in
    let (received, pushed', h11) =
      ok_or-eq-ok (try_push cfg.max_endorsements (s.endorsements_received b) e)
        (reputation too_many_endorsements) _ h10 in
    let (grown, room) =
      try_push-eq-some cfg.max_endorsements (s.endorsements_given a) given e pushed in
    let (grown', room') =
      try_push-eq-some cfg.max_endorsements (s.endorsements_received b) received e pushed' in
    subst IsFair (ok-injective _ _ h11) (
      write_endorsement-IsFair s v e given received grown grown' (omega (arith, room, bound))
        (omega (arith, room', bound)) (not-eq-true (a == b) other)
        (not-eq-true (s.has_endorsed a b) fresh))

-- A change of the numbers of credentials of one account, with a new score.
module _ (s : ReputationStorage) (v : IsFair s) (who : AccountId)
    (f : ReputationScore → ReputationScore)
    (given : (x : ReputationScore) → (f x).endorsements_given ≡ x.endorsements_given)
    (received : (x : ReputationScore) → (f x).endorsements_received ≡ x.endorsements_received) where
  mutated-IsFair : IsFair (mutate_score who (λ x. rated (f x)) s)
  unfolding put calculate_reputation_score
  mutated-IsFair = record {
    rated = λ a. ground (arith, v.rated a, eq_iff who a);
    given =
        λ a. ground (arith, v.given a, v.given who, given (s.reputation_scores who), eq_iff who a);
    received = λ a.
        ground
          (arith, v.received a, v.received who, received (s.reputation_scores who), eq_iff who a);
    given_once = v.given_once;
    received_once = v.received_once;
    no_self = v.no_self;
  }

deposit_event-IsFair : (e : Event) (s : ReputationStorage) → IsFair s → IsFair (deposit_event e s)
unfolding deposit_event
deposit_event-IsFair e s v = record {
  rated = v.rated;
  given = v.given;
  received = v.received;
  given_once = v.given_once;
  received_once = v.received_once;
  no_self = v.no_self;
}

report_score-IsFair : (a : AccountId) (s : ReputationStorage) → IsFair s → IsFair (report_score a s)
unfolding report_score
report_score-IsFair a s v = deposit_event-IsFair _ s v

pub dispatch-IsFair :
    (cfg : Config) (now : ℕ) (dids : DidStorage) (o : Origin) (c : Call) (s t : ReputationStorage)
    → cfg.max_endorsements ≤ u32_max
    → IsFair s
    → dispatch cfg now dids o c s ≡ ok t
    → IsFair t
unfolding dispatch Reputation.remove_endorsement Reputation.record_credential_issuance
    Reputation.record_credential_verification Reputation.update_reputation_score
dispatch-IsFair cfg now dids o (endorse b y c w) s t bound v h =
    endorse-IsFair cfg now dids o b y c w s t bound v h
dispatch-IsFair cfg now dids o (remove_endorsement b) s t bound v h =
    let (a, _, h1) = signed-eq-ok o _ h in
    let (flagged, h2) = ensure-eq-ok (s.has_endorsed a b) (reputation endorsement_not_found) _ h1 in
    subst IsFair (ok-injective _ _ h2) (erase_endorsement-IsFair s v a b flagged)
dispatch-IsFair cfg now dids o (record_credential_issuance a) s t bound v h =
    let (_, h1) = root-eq-ok o _ h in
    subst IsFair (ok-injective _ _ h1) (
      report_score-IsFair a _ (
        deposit_event-IsFair _ _
          (mutated-IsFair s v a Reputation.one_more_issued (λ x. refl) (λ x. refl))))
dispatch-IsFair cfg now dids o record_credential_verification s t bound v h =
    let (a, _, h1) = signed-eq-ok o _ h in
    subst IsFair (ok-injective _ _ h1) (
      report_score-IsFair a _ (
        deposit_event-IsFair _ _
          (mutated-IsFair s v a Reputation.one_more_verified (λ x. refl) (λ x. refl))))
dispatch-IsFair cfg now dids o (update_reputation_score a) s t bound v h =
    let (_, h1) = root-eq-ok o _ h in
    subst IsFair (ok-injective _ _ h1)
      (report_score-IsFair a _ (mutated-IsFair s v a (λ x. x) (λ x. refl) (λ x. refl)))
