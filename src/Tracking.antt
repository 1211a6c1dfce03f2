-- ===== src/Tracking.antt =====
-- internal/tracking/tracking.go: Tracking Modes, Tracking Policies and their resolution.
pub mod Ceiling
pub mod Wire
pub mod Identity
pub mod Sentinels
pub mod Legible
pub mod Scale
pub mod Resolution
pub mod Violations
use kannon.Base.{
  ℕ, Bool, true, false, not, ◌||◌, Option, none, some, List, [], ◌∷◌, Text, text, ltb, leb, ◌==◌,
  nat_eq, list_eq, if◌then◌else◌,
}

-- a Go string type: a value need not be one that this build knows
abbrev pub Mode : Type 0
Mode = Text

abbrev pub mode_unspecified : Mode
mode_unspecified = []

abbrev pub mode_off : Mode
mode_off = text "off"

abbrev pub mode_anonymous : Mode
mode_anonymous = text "anonymous"

abbrev pub mode_pseudonymous : Mode
mode_pseudonymous = text "pseudonymous"

abbrev pub mode_identified : Mode
mode_identified = text "identified"

abbrev pub mode_full : Mode
mode_full = text "full"

-- the map `modeRanks`, whose keys differ
abbrev pub mode_ranks : List (Mode × ℕ)
mode_ranks =
    (mode_off, 0)
    ∷ (mode_anonymous, 1)
    ∷ (mode_pseudonymous, 2)
    ∷ (mode_identified, 3)
    ∷ (mode_full, 4)
    ∷ []

unfoldable pub find_rank : Mode → List (Mode × ℕ) → Option ℕ
find_rank m [] = none
find_rank m ((k, rank) ∷ rest) = if k == m then some rank else find_rank m rest

-- `Rank`
unfoldable pub rank : Mode → Option ℕ
rank m = find_rank m mode_ranks

unfoldable pub states : Mode → Bool
states m = not (m == mode_unspecified)

-- `modeRanks[m]`, with Go's zero for a missing key
unfoldable pub rank_or_zero : Mode → ℕ
rank_or_zero m = elim (rank m) [ none ↦ 0 | some r ↦ r ]

unfoldable pub collection : Mode → Mode × ℕ
collection m = elim (rank m) [ none ↦ (mode_off, rank_or_zero mode_off) | some r ↦ (m, r) ]

unfoldable pub reaches : Mode → Mode → Bool
reaches m rung = if not (states m) then true else leb (rank_or_zero rung) (collection m).1

unfoldable pub identifies_recipient : Mode → Bool
identifies_recipient m = reaches m mode_identified

unfoldable pub isolates_recipient : Mode → Bool
isolates_recipient m = reaches m mode_pseudonymous

pub record Policy : Type 0 where
  pub opens : Mode
  pub links : Mode

-- `Policy{}`
abbrev pub no_policy : Policy
no_policy = record { opens = mode_unspecified; links = mode_unspecified }

-- the variables of the loop of `mostRestrictive`
pub record Best : Type 0 where
  pub out : Mode
  pub out_rank : ℕ
  pub found : Bool

unfoldable pub consider : Mode → Best → Best
consider m b =
    let (mode, rank) = collection m in
    if not (states m)
    then b
    else if not b.found || ltb rank b.out_rank
    then record { out = mode; out_rank = rank; found = true }
    else b

unfoldable pub most_restrictive_from : List Mode → Best → Best
most_restrictive_from [] b = b
most_restrictive_from (m ∷ modes) b = most_restrictive_from modes (consider m b)

unfoldable pub most_restrictive : List Mode → Mode
most_restrictive modes =
    (most_restrictive_from modes (record { out = mode_off; out_rank = 0; found = false })).out

unfoldable pub resolve : Policy → Policy → Policy → Policy
resolve domain batch recipient = record {
  opens = most_restrictive (domain.opens ∷ batch.opens ∷ recipient.opens ∷ []);
  links = most_restrictive (domain.links ∷ batch.links ∷ recipient.links ∷ []);
}

unfoldable pub normalized : Policy → Policy
normalized p = resolve p no_policy no_policy
