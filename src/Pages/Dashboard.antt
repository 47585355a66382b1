-- ===== src/Pages/Dashboard.antt =====
-- The statistics of academic-verification-frontend/src/pages/Dashboard.tsx. The chain is an argument:
-- `none` stands for `!isReady || !api`.
pub mod Laws
mod Tests
use academic_verification.Prelude.{
  ℕ, zero, suc, String, Bool, true, false, ◌==◌, Option, none, some, get_or, List, [], ◌∷◌, map,
  length, Settled, ok, err, ◌>>=◌, if◌then◌else◌,
}
use academic_verification.Chain.{Api, CredentialRef, ReputationScore}
use academic_verification.Queries.Plain.{zero_score}
use academic_verification.Store.Did.{DidState}

pub record DashboardStats : Type 0 where
  pub credentials : ℕ
  pub recipients_or_verified : ℕ
  pub reputation : ℕ

abbrev pub no_stats : DashboardStats
no_stats = record { credentials = 0; recipients_or_verified = 0; reputation = 0 }

-- `c.holder` of an item of `credentialsByIssuer`: an item is the text of an id, which has no such
-- property.
unfoldable pub holder_of : String → Option String
holder_of id = none

abbrev pub same_holder : Option String → Option String → Bool
same_holder none none = true
same_holder (some a) (some b) = a == b
same_holder none (some b) = false
same_holder (some a) none = false

abbrev pub has_holder : Option String → List (Option String) → Bool
has_holder h [] = false
has_holder h (k ∷ ks) = let rest = has_holder h ks in if same_holder h k then true else rest

-- `new Set(…).size`
unfoldable pub set_size : List (Option String) → ℕ
set_size [] = 0
set_size (h ∷ hs) = let rest = set_size hs in if has_holder h hs then rest else suc rest

unfoldable pub institution_stats : Option (List String) → Option ReputationScore → DashboardStats
unfolding holder_of set_size
institution_stats issued score = record {
  credentials = length (get_or issued []);
  recipients_or_verified = set_size (map holder_of (get_or issued []));
  reputation = (get_or score zero_score).total_score;
}

unfoldable pub user_stats : Option (List CredentialRef) → Option ReputationScore → DashboardStats
user_stats owned score = record {
  credentials = length (get_or owned []);
  recipients_or_verified = 0;
  reputation = (get_or score zero_score).total_score;
}

-- The two queries of a branch; an error of one of them is only logged.
unfoldable pub query_stats : Api → Bool → String → Settled DashboardStats
unfolding institution_stats user_stats
query_stats api true did = do
  issued ← api.credentials_by_issuer did
  score ← api.reputation_scores did
  ok (institution_stats issued score)
query_stats api false did = do
  owned ← api.credentials_by_holder did
  score ← api.reputation_scores did
  ok (user_stats owned score)

abbrev pub set_stats : Settled DashboardStats → DashboardStats → DashboardStats
set_stats (ok t) s = t
set_stats (err m) s = s

unfoldable pub stats_of : Api → DidState → Option String → DashboardStats → DashboardStats
unfolding query_stats
stats_of api d none s = s
stats_of api d (some did) s =
    if did == "" then s else set_stats (query_stats api d.is_institution did) s

-- The effect that fetches the statistics.
unfoldable pub fetch_stats : Option Api → DidState → DashboardStats → DashboardStats
unfolding stats_of
fetch_stats none d s = s
fetch_stats (some api) d s = if d.has_did then stats_of api d d.did_address s else s
