-- ===== src/Pages/Dashboard/Laws.antt =====
-- What the statistics of the dashboard count.
use academic_verification.Prelude.{
  min, String, true, ◌==◌, Option, some, get_or, List, [], ◌∷◌, map, length, ok, ◌≡◌, ◌≢◌, refl,
  inl, inr, arith, eq_iff, Bool-cases,
}
use academic_verification.Chain.{Api, ReputationScore}
use academic_verification.Queries.Plain.{zero_score}
use academic_verification.Store.Did.{DidState}
use academic_verification.Pages.Dashboard.{
  DashboardStats, holder_of, set_size, institution_stats, query_stats, stats_of, fetch_stats,
  set_stats,
}

set_size-holder_of : (ids : List String) → set_size (map holder_of ids) ≡ min (length ids) 1
unfolding set_size holder_of
set_size-holder_of [] = refl
set_size-holder_of (a ∷ []) = refl
set_size-holder_of (a ∷ (b ∷ ids)) = ground (arith, set_size-holder_of (b ∷ ids))

fetch_stats-eq :
    (api : Api) (d : DidState) (did : String) (s : DashboardStats)
    → d.has_did ≡ true
    → d.did_address ≡ some did
    → did ≢ ""
    → fetch_stats (some api) d s ≡ set_stats (query_stats api d.is_institution did) s
unfolding fetch_stats stats_of
fetch_stats-eq api d did s has address h = elim (Bool-cases (did == "")) [
  | inl empty ↦ let never = h ((eq_iff did "").0 empty) in elim never [ ]
  | inr other ↦ simp (has, address, other)
]

-- For an institution with a DID whose two queries are answered, the dashboard counts the credentials
-- that it issued, and shows the chain's score; the number of recipients is never more than one: it is
-- 1 exactly if a credential was issued.
pub fetch_stats_institution :
    (api : Api) (d : DidState) (did : String) (s : DashboardStats) (issued : Option (List String))
    (score : Option ReputationScore)
    → d.has_did ≡ true
    → d.did_address ≡ some did
    → did ≢ ""
    → d.is_institution ≡ true
    → api.credentials_by_issuer did ≡ ok issued
    → api.reputation_scores did ≡ ok score
    → let t = fetch_stats (some api) d s in
      (t.credentials ≡ length (get_or issued []))
      × (t.recipients_or_verified ≡ min (length (get_or issued [])) 1)
      × (t.reputation ≡ (get_or score zero_score).total_score)
unfolding query_stats institution_stats
fetch_stats_institution api d did s issued score has address h institution listed scored =
    rw (fetch_stats-eq api d did s has address h, institution, listed, scored)
      (refl, set_size-holder_of (get_or issued []), refl)
