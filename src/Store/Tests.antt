-- ===== src/Store/Tests.antt =====
-- Runs of the other stores.
use academic_verification.Prelude.{some, List, [], ◌∷◌, ◌≡◌, refl}
use academic_verification.Store.Did

abbrev life : List Did.Action
life =
    Did.create 5 "5Stu" []
    ∷ (Did.remove_key "key_0"
        ∷ (Did.institution "Uni" ∷ (Did.clear ∷ (Did.institution "Uni" ∷ []))))

life_named : (Did.perform_all life Did.initial).institution_name ≡ some "Uni"
unfolding Did.perform_all Did.perform
life_named = refl
