-- ===== src/Store/Did/Laws.antt =====
-- The DID store's fields agree with each other.
use academic_verification.Prelude.{is_some, List, [], ◌∷◌, ◌≡◌, refl, arith}
use academic_verification.Store.Did.{
  DidState, initial, Action, perform, perform_all, check_did_exists,
}

-- `hasDID` says whether an address and a date are kept, and `isInstitution` whether a name is.
pub record IsConsistent (s : DidState) : Type 0 where
  pub addressed : s.has_did ≡ is_some s.did_address
  pub dated : s.has_did ≡ is_some s.created_at
  pub named : s.is_institution ≡ is_some s.institution_name

pub perform-IsConsistent : (a : Action) (s : DidState) → IsConsistent s → IsConsistent (perform a s)
unfolding perform
perform-IsConsistent a s c = ground arith

-- From the initial state, whatever is done to the store, its fields agree, and `checkDIDExists` is
-- just `hasDID`.
pub perform_all-IsConsistent :
    (actions : List Action)
    → let s = perform_all actions initial in IsConsistent s × (check_did_exists s ≡ s.has_did)
unfolding check_did_exists perform_all
perform_all-IsConsistent actions =
    let c = go actions initial (record { addressed = refl; dated = refl; named = refl }) in
    (c, ground (arith, c.addressed))
  where
    go :
        (actions : List Action) (s : DidState)
        → IsConsistent s
        → IsConsistent (perform_all actions s)
    go [] s c = c
    go (a ∷ rest) s c = go rest (perform a s) (perform-IsConsistent a s c)
