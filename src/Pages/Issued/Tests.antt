-- ===== src/Pages/Issued/Tests.antt =====
-- Runs of the page.
use academic_verification.Prelude.{
  String, false, none, some, Option, [], ◌∷◌, Settled, ok, err, ◌≢◌, eq_iff,
}
use academic_verification.Transactions.Submit.{TransactionResult, success_in}
use academic_verification.Pages.Issued.{
  IssuedCredential, IssuedState, Parsed, active, revoked, fields,
}

abbrev degree : IssuedCredential
degree = record {
  id = "0x01";
  holder = "5Stu";
  holder_name = none;
  credential_type = "Transcript";
  degree_name = "Physics";
  issued_at = 1700000000000;
  status = active;
  metadata = "";
}

abbrev page : IssuedState
page = record {
  credentials = degree ∷ (record degree { id = "0x02"; status = revoked } ∷ []);
  loading = false;
  refreshing = false;
  revoking = none;
  toasts = [];
}

abbrev revoke : String → Option TransactionResult
revoke id = some (success_in "0xaa" "0xb1")

abbrev hex_to_string : String → Settled String
hex_to_string s = err "not hex"

abbrev parse_json : String → Settled Parsed
parse_json s = ok (fields (some "Physics") none)

abbrev university : String
university = "5Uni"

university_not_empty : university ≢ ""
university_not_empty e = let never = (eq_iff "5Uni" "").1 e in cc
