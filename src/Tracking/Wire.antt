-- ===== src/Tracking/Wire.antt =====
-- internal/trackingpb: Tracking Policies on the wire, where a Mode is a number.
use kannon.Base.{ℕ, Option, none, some, List, [], ◌∷◌, ◌==◌, nat_eq, list_eq, if◌then◌else◌}
use kannon.Base.Int.{ℤ, pos, negsuc}
use kannon.Tracking.{
  Mode, Policy, no_policy, mode_unspecified, mode_off, mode_anonymous, mode_pseudonymous,
  mode_identified, mode_full,
}

-- the map `wireModes`, by the numbers of the enumeration
abbrev pub wire_modes : List (ℕ × Mode)
wire_modes =
    (0, mode_unspecified)
    ∷ (1, mode_off)
    ∷ (2, mode_anonymous)
    ∷ (3, mode_pseudonymous)
    ∷ (4, mode_identified)
    ∷ (5, mode_full)
    ∷ []

unfoldable pub find_mode : ℕ → List (ℕ × Mode) → Option Mode
find_mode n [] = none
find_mode n ((k, m) ∷ rest) = if k == n then some m else find_mode n rest

unfoldable pub find_wire : Mode → List (ℕ × Mode) → Option ℕ
find_wire m [] = none
find_wire m ((k, n) ∷ rest) = if n == m then some k else find_wire m rest

-- `toStatedMode`; `none` is `ErrUnknownMode`
unfoldable pub to_stated_mode : ℤ → Option Mode
to_stated_mode (pos n) = find_mode n wire_modes
to_stated_mode (negsuc n) = none

pub record WirePolicy : Type 0 where
  pub opens : ℤ
  pub links : ℤ

unfoldable pub both : Option Mode → Option Mode → Option Policy
both none links = none
both (some opens) none = none
both (some opens) (some links) = some (record { opens = opens; links = links })

-- `ToPolicy`; a nil message is `none`
unfoldable pub to_policy : Option WirePolicy → Option Policy
to_policy none = some no_policy
to_policy (some p) = both (to_stated_mode p.opens) (to_stated_mode p.links)

-- `FromMode`, with Go's zero for a missing key
unfoldable pub from_mode : Mode → ℤ
from_mode m = elim (find_wire m wire_modes) [ none ↦ pos 0 | some n ↦ pos n ]

-- `FromPolicy`
unfoldable pub from_policy : Policy → WirePolicy
from_policy p = record { opens = from_mode p.opens; links = from_mode p.links }

-- `ToMode`, with Go's zero for a missing key
unfoldable pub to_mode : ℤ → Mode
to_mode n = elim (to_stated_mode n) [ none ↦ mode_unspecified | some m ↦ m ]
