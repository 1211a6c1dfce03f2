-- ===== src/Stats.antt =====
-- internal/stats/outcome.go, event.go and the types of stat.go: what happened to a Delivery.
use kannon.Base.{ℕ, Bool, false, [], Text, text, ◌==◌, nat_eq, list_eq, if◌then◌else◌}
use kannon.Base.Int.{ℤ}
use kannon.Tracking.{Mode}

-- `Type`, a Go string type
abbrev pub StatType : Type 0
StatType = Text

abbrev pub type_accepted : StatType
type_accepted = text "accepted"

abbrev pub type_rejected : StatType
type_rejected = text "rejected"

abbrev pub type_delivered : StatType
type_delivered = text "delivered"

abbrev pub type_failed : StatType
type_failed = text "failed"

abbrev pub type_bounce : StatType
type_bounce = text "bounced"

abbrev pub type_error : StatType
type_error = text "error"

abbrev pub type_unknown : StatType
type_unknown = text "unknown"

pub record Outcome : Type 0 where
  pub typ : StatType
  pub reason : Text
  pub msg : Text
  pub permanent : Bool
  pub code : ℕ
  pub user_agent : Text
  pub ip : Text
  pub url : Text

abbrev pub no_outcome : Outcome
no_outcome = record {
  typ = [];
  reason = [];
  msg = [];
  permanent = false;
  code = 0;
  user_agent = [];
  ip = [];
  url = [];
}

unfoldable pub accepted : Outcome
accepted = record no_outcome { typ = type_accepted }

unfoldable pub delivered : Outcome
delivered = record no_outcome { typ = type_delivered }

unfoldable pub rejected : Text → Outcome
rejected reason = record no_outcome { typ = type_rejected; reason = reason }

unfoldable pub failed : Text → Outcome
failed reason = record no_outcome { typ = type_failed; reason = reason }

unfoldable pub bounced : Bool → ℕ → Text → Outcome
bounced permanent code msg = record no_outcome {
  typ = type_bounce;
  permanent = permanent;
  code = code;
  msg = msg;
}

unfoldable pub errored : ℕ → Text → Outcome
errored code msg = record no_outcome { typ = type_error; code = code; msg = msg }

-- the method `Type`
unfoldable pub outcome_type : Outcome → StatType
outcome_type o = if o.typ == [] then type_unknown else o.typ

pub record Event : Type 0 where
  pub message_id : Text
  pub domain : Text
  pub email : Text
  pub timestamp : ℤ
  pub outcome : Outcome
  pub tracking_mode : Mode
