-- ===== src/Shell/Boundary.antt =====
-- academic-verification-frontend/src/components/error/ErrorBoundary.tsx
use academic_verification.Prelude.{String, Bool, true, false, Option, none, some}

pub record BoundaryState : Type 0 where
  pub has_error : Bool
  pub error : Option String
  pub error_info : Option String

abbrev pub initial : BoundaryState
initial = record { has_error = false; error = none; error_info = none }

unfoldable pub get_derived_state_from_error : String → BoundaryState → BoundaryState
get_derived_state_from_error e s = record s { has_error = true; error = some e }

unfoldable pub component_did_catch : String → String → BoundaryState → BoundaryState
component_did_catch e info s = record s { error = some e; error_info = some info }

-- `handleReset`: the state, and the address that the browser goes to.
unfoldable pub handle_reset : BoundaryState → BoundaryState × String
handle_reset s = (record { has_error = false; error = none; error_info = none }, "/")

-- What `render` shows: the children, or the message and the stack that are known.
pub data Rendered : Type 0 where
  children : Rendered
  failure : (message stack : Option String) → Rendered

unfoldable pub render : BoundaryState → Rendered
render s = elim s.has_error [ true ↦ failure s.error s.error_info | false ↦ children ]
