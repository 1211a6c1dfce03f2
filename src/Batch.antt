-- ===== src/Batch.antt =====
-- internal/batch, with the repository of internal/db/batch_repo.go over the table messages of
-- db/schema.sql: one send to any number of Recipients.
use kannon.Base.{
  ℕ, Bool, not, ◌&&◌, Option, none, some, List, [], ◌∷◌, ◌++◌, Text, text, length, leb, has_prefix,
  contains_text, trim_space, ◌==◌, nat_eq, list_eq, any, find_first, if◌then◌else◌,
}
use kannon.Tracking.{Policy}

pub record Sender : Type 0 where
  pub email : Text
  pub alias : Text

pub record Headers : Type 0 where
  pub to : List Text
  pub cc : List Text

pub record OneClickUnsubscribe : Type 0 where
  pub url_template : Text

-- a map from file names to bytes
abbrev pub Attachments : Type 0
Attachments = List (Text × List ℕ)

-- What net/url and `strings.EqualFold` answer: the scheme and the host of a URL, if it is one.
pub record Urls : Type 0 where
  pub parse_url : Text → Option (Text × Text)
  pub equal_fold : Text → Text → Bool

pub data BatchError : Type 0 where
  domain_required subject_required template_required sender_required : BatchError
  url_invalid url_not_https url_not_absolute : BatchError

-- `IsZero`
unfoldable pub states_none : OneClickUnsubscribe → Bool
states_none u = u.url_template == []

-- `validate`; `none` is no error
unfoldable pub validate : Urls → OneClickUnsubscribe → Option BatchError
validate urls u = if states_none u then none else elim (urls.parse_url u.url_template) [
  | none ↦ some url_invalid
  | some (scheme, host) ↦
      if not (urls.equal_fold scheme (text "https"))
      then some url_not_https
      else if host == []
      then some url_not_absolute
      else none
]

pub record Batch : Type 0 where
  pub id : Text
  pub subject : Text
  pub sender : Sender
  pub template_id : Text
  pub domain : Text
  pub attachments : Attachments
  pub headers : Headers
  pub one_click_unsubscribe : OneClickUnsubscribe
  pub tracking : Policy

pub record NewParams : Type 0 where
  pub domain : Text
  pub subject : Text
  pub sender : Sender
  pub template_id : Text
  pub attachments : Attachments
  pub headers : Headers
  pub one_click_unsubscribe : OneClickUnsubscribe
  pub tracking : Policy

pub data NewResult : Type 0 where
  ok : Batch → NewResult
  err : BatchError → NewResult

abbrev pub id_prefix : Text
id_prefix = text "msg_"

-- `NewID`, of what cuid2 generates
unfoldable pub new_id : Text → Text → Text
new_id generated domain = id_prefix ++ (generated ++ (text "@" ++ domain))

-- `New`
unfoldable pub new : Urls → Text → NewParams → NewResult
new urls generated p =
    if p.domain == []
    then err domain_required
    else if p.subject == []
    then err subject_required
    else if p.template_id == []
    then err template_required
    else if p.sender.email == []
    then err sender_required
    else elim (validate urls p.one_click_unsubscribe) [
      | some e ↦ err e
      | none ↦ ok (record {
        id = new_id generated p.domain;
        subject = p.subject;
        sender = p.sender;
        template_id = p.template_id;
        domain = p.domain;
        attachments = p.attachments;
        headers = p.headers;
        one_click_unsubscribe = p.one_click_unsubscribe;
        tracking = p.tracking;
      })
    ]

pub data IdError : Type 0 where
  id_required id_prefix_missing id_domain_missing : IdError

-- `ParseID`; `none` is no error
unfoldable pub parse_id : Text → Option IdError
parse_id s =
    if s == []
    then some id_required
    else if not (has_prefix s id_prefix)
    then some id_prefix_missing
    else if not (contains_text s (text "@"))
    then some id_domain_missing
    else none

pub record Recipient : Type 0 where
  pub email : Text
  pub fields : List (Text × Text)
  pub tracking : Policy

-- `HasAddress`
unfoldable pub has_address : Recipient → Bool
has_address r = not (trim_space r.email == [])

-- The table messages holds each Batch as it is; the widths of its columns and its primary key.
unfoldable pub insertable : List Batch → Batch → Bool
insertable rows b =
    leb (length b.sender.email) 320
    && leb (length b.sender.alias) 100
    && leb (length b.domain) 254
    && not (any (λ x. x.id == b.id) rows)

-- `Create`; `none` where the insertion is refused
unfoldable pub create : Batch → List Batch → Option (List Batch)
create b rows = if insertable rows b then some (rows ++ b ∷ []) else none

-- `GetByID`; `none` is `ErrBatchNotFound`
unfoldable pub get_by_id : Text → List Batch → Option Batch
get_by_id id rows = find_first (λ b. b.id == id) rows
