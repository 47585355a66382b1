-- ===== src/Pallets/Reputation/Erased.antt =====
-- An endorsement that is removed leaves the storage of pallets/reputation fair.
use academic_verification.Prelude.{
  ◌+◌, String, true, false, not, List, [], ◌∷◌, ◌==◌, ◌≡◌, arith, filter, length, count, eq_iff,
  if◌then◌else◌,
}
use academic_verification.Pallets.Base.{AccountId, put}
use academic_verification.Pallets.Reputation.{
  Endorsement, ReputationStorage, calculate_reputation_score, erase_endorsement,
}
use academic_verification.Pallets.Reputation.Fair.{by_endorser, by_endorsee, one_if, IsFair}

-- What is dropped is what was counted, and no other key is touched.
module _ (key : Endorsement → String) (k : String) where
  length-dropped :
      (xs : List Endorsement)
      → length (filter (λ x. not (key x == k)) xs) + count (λ x. key x == k) xs ≡ length xs
  length-dropped [] = omega arith
  length-dropped (x ∷ xs) = ground (arith, length-dropped xs)

  count-dropped :
      (j : String) (xs : List Endorsement)
      → count (λ x. key x == j) (filter (λ x. not (key x == k)) xs)
        ≡ (if k == j then 0 else count (λ x. key x == j) xs)
  count-dropped j [] = ground arith
  count-dropped j (x ∷ xs) =
      ground (arith, count-dropped j xs, eq_iff k j, eq_iff (key x) k, eq_iff (key x) j)

module _ (s : ReputationStorage) (v : IsFair s) (endorser endorsee : AccountId)
    (flagged : s.has_endorsed endorser endorsee ≡ true) where
  abbrev t : ReputationStorage
  t = erase_endorsement endorser endorsee s

  abbrev endorsee_of : Endorsement → String
  endorsee_of e = e.endorsee

  abbrev endorser_of : Endorsement → String
  endorser_of e = e.endorser

  other : (endorser == endorsee) ≡ false
  other = ground (arith, v.no_self endorser, eq_iff endorser endorsee)

  erased_rated :
      (a : AccountId)
      → (t.reputation_scores a).total_score ≡ calculate_reputation_score (t.reputation_scores a)
  unfolding erase_endorsement put calculate_reputation_score
  erased_rated a = ground (
    arith,
    other,
    v.rated a,
    v.rated endorser,
    v.rated endorsee,
    eq_iff endorser a,
    eq_iff endorsee a,
    eq_iff endorser endorsee,
  )

  erased_given :
      (a : AccountId) → (t.reputation_scores a).endorsements_given ≡ length (t.endorsements_given a)
  unfolding erase_endorsement put
  erased_given a = ground (
    arith,
    other,
    v.given a,
    v.given endorser,
    v.given_once endorser endorsee,
    length-dropped endorsee_of endorsee (s.endorsements_given endorser),
    eq_iff endorser a,
    eq_iff endorsee a,
    eq_iff endorser endorsee,
  )

  erased_received :
      (a : AccountId)
      → (t.reputation_scores a).endorsements_received ≡ length (t.endorsements_received a)
  unfolding erase_endorsement put
  erased_received a = ground (
    arith,
    other,
    v.received a,
    v.received endorsee,
    v.received_once endorser endorsee,
    length-dropped endorser_of endorser (s.endorsements_received endorsee),
    eq_iff endorser a,
    eq_iff endorsee a,
    eq_iff endorser endorsee,
  )

  erased_given_once :
      (a b : AccountId)
      → count (by_endorsee b) (t.endorsements_given a) ≡ one_if (t.has_endorsed a b)
  unfolding erase_endorsement put
  erased_given_once a b = ground (
    arith,
    v.given_once a b,
    v.given_once endorser b,
    count-dropped endorsee_of endorsee b (s.endorsements_given endorser),
    eq_iff endorser a,
    eq_iff endorsee b,
  )

  erased_received_once :
      (a b : AccountId)
      → count (by_endorser a) (t.endorsements_received b) ≡ one_if (t.has_endorsed a b)
  unfolding erase_endorsement put
  erased_received_once a b = ground (
    arith,
    v.received_once a b,
    v.received_once a endorsee,
    count-dropped endorser_of endorser a (s.endorsements_received endorsee),
    eq_iff endorser a,
    eq_iff endorsee b,
  )

  erased_no_self : (a : AccountId) → t.has_endorsed a a ≡ false
  unfolding erase_endorsement put
  erased_no_self a =
      ground (arith, v.no_self a, v.no_self endorser, eq_iff endorser a, eq_iff endorsee a)

  pub erase_endorsement-IsFair : IsFair t
  erase_endorsement-IsFair = record {
    rated = erased_rated;
    given = erased_given;
    received = erased_received;
    given_once = erased_given_once;
    received_once = erased_received_once;
    no_self = erased_no_self;
  }
