-- ===== src/Authz/Action.antt =====
-- internal/authz/action.go: the closed vocabulary of verbs.
use kannon.Base.{
  Option, none, some, List, [], ◌∷◌, Text, text, ◌==◌, nat_eq, list_eq, if◌then◌else◌,
}

-- a Go string type: a value need not be of the vocabulary
abbrev pub Action : Type 0
Action = Text

abbrev pub create : Action
create = text "create"

abbrev pub read : Action
read = text "read"

abbrev pub list : Action
list = text "list"

abbrev pub update : Action
update = text "update"

abbrev pub delete : Action
delete = text "delete"

abbrev pub attribute : Action
attribute = text "attribute"

abbrev pub all_actions : List Action
all_actions = create ∷ read ∷ list ∷ update ∷ delete ∷ attribute ∷ []

-- the loop of `ParseAction`; `none` is its error
unfoldable pub find_action : Text → List Action → Option Action
find_action s [] = none
find_action s (a ∷ rest) = if s == a then some a else find_action s rest

unfoldable pub parse_action : Text → Option Action
unfolding find_action
parse_action s = find_action s all_actions
