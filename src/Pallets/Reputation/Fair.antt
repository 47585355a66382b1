-- ===== src/Pallets/Reputation/Fair.antt =====
-- The invariant of the storage of pallets/reputation.
use academic_verification.Prelude.{
  ℕ, ◌≤◌, Bool, false, List, [], ◌∷◌, ◌++◌, ◌==◌, ◌≡◌, arith, length, count, length-append,
  count-append, eq_iff, if◌then◌else◌,
}
use academic_verification.Pallets.Base.{AccountId, u32_max, put}
use academic_verification.Pallets.Reputation.{
  Endorsement, ReputationStorage, calculate_reputation_score, write_endorsement,
}

abbrev pub by_endorser : AccountId → Endorsement → Bool
by_endorser a e = e.endorser == a

abbrev pub by_endorsee : AccountId → Endorsement → Bool
by_endorsee a e = e.endorsee == a

-- One if there is a flag.
abbrev pub one_if : Bool → ℕ
one_if b = if b then 1 else 0

-- The score is that of the numbers, the numbers are those of the lists, an endorsement stands once in
-- both lists if it is flagged and nowhere if it is not, and nobody endorses themselves.
pub record IsFair (s : ReputationStorage) : Type 0 where
  pub rated :
      (a : AccountId)
      → (s.reputation_scores a).total_score ≡ calculate_reputation_score (s.reputation_scores a)
  pub given :
      (a : AccountId) → (s.reputation_scores a).endorsements_given ≡ length (s.endorsements_given a)
  pub received :
      (a : AccountId)
      → (s.reputation_scores a).endorsements_received ≡ length (s.endorsements_received a)
  pub given_once :
      (a b : AccountId)
      → count (by_endorsee b) (s.endorsements_given a) ≡ one_if (s.has_endorsed a b)
  pub received_once :
      (a b : AccountId)
      → count (by_endorser a) (s.endorsements_received b) ≡ one_if (s.has_endorsed a b)
  pub no_self : (a : AccountId) → s.has_endorsed a a ≡ false

module _ (s : ReputationStorage) (v : IsFair s) (e : Endorsement)
    (given received : List Endorsement)
    (given_grown : given ≡ s.endorsements_given e.endorser ++ e ∷ [])
    (received_grown : received ≡ s.endorsements_received e.endorsee ++ e ∷ [])
    (given_room : length given ≤ u32_max) (received_room : length received ≤ u32_max)
    (other : (e.endorser == e.endorsee) ≡ false)
    (fresh : s.has_endorsed e.endorser e.endorsee ≡ false) where
  abbrev t : ReputationStorage
  t = write_endorsement e given received s

  written_rated :
      (a : AccountId)
      → (t.reputation_scores a).total_score ≡ calculate_reputation_score (t.reputation_scores a)
  unfolding write_endorsement put calculate_reputation_score
  written_rated a = ground (
    arith,
    v.rated a,
    v.rated e.endorser,
    v.rated e.endorsee,
    eq_iff e.endorser a,
    eq_iff e.endorsee a,
    eq_iff e.endorser e.endorsee,
  )

  written_given :
      (a : AccountId) → (t.reputation_scores a).endorsements_given ≡ length (t.endorsements_given a)
  unfolding write_endorsement put
  written_given a = ground (
    arith,
    v.given a,
    v.given e.endorser,
    given_grown,
    length-append (s.endorsements_given e.endorser) (e ∷ []),
    eq_iff e.endorser a,
    eq_iff e.endorsee a,
    eq_iff e.endorser e.endorsee,
  )

  written_received :
      (a : AccountId)
      → (t.reputation_scores a).endorsements_received ≡ length (t.endorsements_received a)
  unfolding write_endorsement put
  written_received a = ground (
    arith,
    v.received a,
    v.received e.endorsee,
    received_grown,
    length-append (s.endorsements_received e.endorsee) (e ∷ []),
    eq_iff e.endorser a,
    eq_iff e.endorsee a,
    eq_iff e.endorser e.endorsee,
  )

  written_given_once :
      (a b : AccountId)
      → count (by_endorsee b) (t.endorsements_given a) ≡ one_if (t.has_endorsed a b)
  unfolding write_endorsement put
  written_given_once a b = ground (
    arith,
    v.given_once a b,
    v.given_once e.endorser b,
    given_grown,
    count-append (by_endorsee b) (s.endorsements_given e.endorser) (e ∷ []),
    eq_iff e.endorser a,
    eq_iff e.endorsee b,
  )

  written_received_once :
      (a b : AccountId)
      → count (by_endorser a) (t.endorsements_received b) ≡ one_if (t.has_endorsed a b)
  unfolding write_endorsement put
  written_received_once a b = ground (
    arith,
    v.received_once a b,
    v.received_once a e.endorsee,
    received_grown,
    count-append (by_endorser a) (s.endorsements_received e.endorsee) (e ∷ []),
    eq_iff e.endorser a,
    eq_iff e.endorsee b,
  )

  written_no_self : (a : AccountId) → t.has_endorsed a a ≡ false
  unfolding write_endorsement put
  written_no_self a = ground (
    arith,
    v.no_self a,
    v.no_self e.endorser,
    eq_iff e.endorser a,
    eq_iff e.endorsee a,
    eq_iff e.endorser e.endorsee,
  )

  pub write_endorsement-IsFair : IsFair t
  write_endorsement-IsFair = record {
    rated = written_rated;
    given = written_given;
    received = written_received;
    given_once = written_given_once;
    received_once = written_received_once;
    no_self = written_no_self;
  }
