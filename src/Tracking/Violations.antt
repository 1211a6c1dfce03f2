-- ===== src/Tracking/Violations.antt =====
-- The ceiling rule against resolution: internal/tracking/ceiling.go.
use kannon.Base.{◌≡◌, refl, ◌↔◌, true, none, [], arith}
use kannon.Tracking.{Mode, Policy, no_policy, states, resolve}
use kannon.Tracking.Ceiling.{Axis, axis_opens, axis_links, axis_violation, ceiling_violations}
use kannon.Tracking.Scale.{level}
use kannon.Tracking.Resolution.{meet, three-level, silent, result}

-- Resolving under the ceiling leaves what is stated as it is.
abbrev pub IsKept : Mode → Mode → Mode → Type 0
IsKept ceiling stated resolved = states stated ≡ true → level resolved ≡ level stated

axis-IsKept :
    (axis : Axis) (ceiling stated : Mode)
    → (axis_violation axis ceiling stated ≡ none) ↔ IsKept ceiling stated (result ceiling stated [])
unfolding axis_violation meet
axis-IsKept axis c s = ground (arith, three-level c s [], silent)

-- The ceiling reports no violation exactly when resolving the stated Policy under the ceiling
-- collects on each axis what was asked for there.
pub ceiling_violations_iff :
    (ceiling stated : Policy)
    → (ceiling_violations ceiling stated ≡ []) ↔ (
        IsKept ceiling.opens stated.opens (resolve ceiling stated no_policy).opens
        × IsKept ceiling.links stated.links (resolve ceiling stated no_policy).links)
unfolding ceiling_violations resolve
ceiling_violations_iff c s = (
  (λ h. (
    (axis-IsKept axis_opens c.opens s.opens).0 (ground arith),
    (axis-IsKept axis_links c.links s.links).0 (ground arith),
  )),
  (λ h.
      rw
        (
          (axis-IsKept axis_opens c.opens s.opens).1 h.0,
          (axis-IsKept axis_links c.links s.links).1 h.1,
        )
        refl),
)
