-- ===== src/Authz/Guard.antt =====
-- internal/authz/guard.go and recorder.go: an operation behind its check, and what is recorded.
use kannon.Base.{
  ℕ, Option, none, some, List, [], ◌∷◌, ◌++◌, Text, text, ◌==◌, nat_eq, list_eq, if◌then◌else◌,
}
use kannon.Authz.Action.{Action, attribute}
use kannon.Authz.Resource.{Resource}
use kannon.Authz.Principal.{Principal, zero_principal}
use kannon.Authz.Decide.{require}

pub data Outcome : Type 0 where
  allowed denied no_principal : Outcome

-- the constants of type `Outcome`
unfoldable pub outcome_text : Outcome → Text
outcome_text allowed = text "allowed"
outcome_text denied = text "denied"
outcome_text no_principal = text "no-principal"

-- `none` is the error
unfoldable pub parse_outcome : Text → Option Outcome
parse_outcome s =
    if s == text "allowed"
    then some allowed
    else if s == text "denied"
    then some denied
    else if s == text "no-principal"
    then some no_principal
    else none

pub record Decision : Type 0 where
  pub principal : Principal
  pub action : Action
  pub resource : Resource
  pub outcome : Outcome
  pub reason : Text
  pub at_time : ℕ

-- `decision`; the instant is an argument
unfoldable pub decision : ℕ → Principal → Action → Resource → Outcome → Text → Decision
decision now p action resource outcome reason = record {
  principal = p;
  action = action;
  resource = resource;
  outcome = outcome;
  reason = reason;
  at_time = now;
}

pub data GuardError {ℓ} (E : Type ℓ) : Type ℓ where
  err_no_principal : GuardError E
  err_forbidden : GuardError E
  from_operation : E → GuardError E

pub data Result {ℓ} (E T : Type ℓ) : Type ℓ where
  ok : T → Result E T
  err : GuardError E → Result E T

-- What the Recorder of the context has been told, in order, and the state that operations act on.
pub record World {ℓ} (S : Type ℓ) : Type ℓ where
  pub records : List Decision
  pub state : S

-- an operation of a service, which may itself be guarded further in
abbrev pub Operation {ℓ} : Type ℓ → Type ℓ → Type ℓ → Type ℓ
Operation S E T = World S → World S × Result E T

unfoldable pub record_decision {ℓ} : {S : Type ℓ} → Decision → World S → World S
record_decision d w = record w { records = w.records ++ (d ∷ []) }

module _ {ℓ} {S E T : Type ℓ} where
  -- the part of `Guard` below the check of the Action
  unfoldable pub guard_claim : ℕ → Principal → Action → Resource → Operation S E T → Operation S E T
  guard_claim now p action resource fn w =
      let refused =
        record_decision
          (decision now p action resource denied
            (text "the Attribution is not permitted on this Resource"))
          w in
      let permitted = record_decision (decision now p action resource allowed []) w in
      if p.attribution == [] then fn permitted else elim (require p attribute resource) [
        | some e ↦ (refused, err err_forbidden)
        | none ↦ fn permitted
      ]

  -- the part of `Guard` below the lookup of the Principal
  unfoldable pub guard_principal :
      ℕ → Principal → Action → Resource → Operation S E T → Operation S E T
  guard_principal now p action resource fn w = elim (require p action resource) [
    | some e ↦ (
      record_decision
          (decision now p action resource denied
            (text "the Action is not permitted on this Resource"))
          w,
      err err_forbidden,
    )
    | none ↦ guard_claim now p action resource fn w
  ]

  -- `Guard`; the context is the Principal that it carries, if any
  unfoldable pub guard :
      ℕ → Option Principal → Action → Resource → Operation S E T → Operation S E T
  guard now ctx action resource fn w = elim ctx [
    | none ↦ (
      record_decision
          (decision now zero_principal action resource no_principal
            (text "nothing authenticated this request"))
          w,
      err err_no_principal,
    )
    | some p ↦ guard_principal now p action resource fn w
  ]

-- what `logRecorder` writes for a decision
pub data LogLine : Type 0 where
  rbac_check : Principal → Action → Resource → LogLine
  attributed_operation : Text → Text → Action → Resource → LogLine

unfoldable pub attributed_line : Decision → List LogLine
attributed_line d =
    if d.principal.attribution == []
    then []
    else attributed_operation d.principal.id d.principal.attribution d.action d.resource ∷ []

unfoldable pub log_record : Decision → List LogLine
unfolding attributed_line
log_record d = elim d.outcome [
  | no_principal ↦ []
  | denied ↦ rbac_check d.principal d.action d.resource ∷ []
  | allowed ↦ rbac_check d.principal d.action d.resource ∷ attributed_line d
]
