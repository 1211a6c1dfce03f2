-- ===== src/Tracking/Ceiling.antt =====
-- internal/tracking/ceiling.go: where a stated Policy asks for more than its ceiling allows.
use kannon.Base.{not, ◌||◌, Option, none, some, List, [], ◌∷◌, ◌++◌, leb, if◌then◌else◌}
use kannon.Tracking.{Mode, Policy, states, collection}

pub data Axis : Type 0 where
  axis_opens axis_links : Axis

pub record CeilingViolation : Type 0 where
  pub axis : Axis
  pub ceiling : Mode
  pub stated : Mode

-- `none` is the pair with `false`
unfoldable pub axis_violation : Axis → Mode → Mode → Option CeilingViolation
axis_violation axis ceiling stated =
    if not (states stated) || not (states ceiling)
    then none
    else if leb (collection stated).1 (collection ceiling).1
    then none
    else some (record { axis = axis; ceiling = ceiling; stated = stated })

abbrev found : Option CeilingViolation → List CeilingViolation
found none = []
found (some v) = v ∷ []

unfoldable pub ceiling_violations : Policy → Policy → List CeilingViolation
ceiling_violations ceiling stated =
    found (axis_violation axis_opens ceiling.opens stated.opens)
    ++ found (axis_violation axis_links ceiling.links stated.links)
