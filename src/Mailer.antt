-- ===== src/Mailer.antt =====
-- pkg/api/mailapi/mailer.go: the API that sends. Its tables, what it asks of the outside, its
-- requests and its answers.
pub mod Intake
pub mod Sending
pub mod Judgement
pub mod Authority
pub mod Outcome
pub mod Duplicates
use kannon.Base.{ℕ, Bool, Option, List, Text, text}
use kannon.Base.Int.{ℤ}
use kannon.Tracking.{Policy}
use kannon.Tracking.Ceiling.{CeilingViolation}
use kannon.Tracking.Wire.{WirePolicy}
use kannon.Delivery.Backoff.{BackoffPolicy}
use kannon.Batch.{Batch, BatchError, Urls}
use kannon.Placeholders.{Patterns, Fields}
use kannon.Pool.{Row}
use kannon.Pool.Repository.{Repository}
use kannon.ApiKeys.Store
use kannon.ApiKeys.Store.{KeyRow}
use kannon.Domains.{DomainRow}
use kannon.Templates.{TemplateRow}

-- the tables that the service reads and writes
pub record Tables : Type 0 where
  pub domains : List DomainRow
  pub keys : List KeyRow
  pub templates : List TemplateRow
  pub messages : List Batch
  pub pool : List Row

-- `mailAPIService`, with what is outside the code in one request: the libraries' functions, the
-- clock, what cuid2 generates for a template and for a Batch, and whether the two writes of a send
-- reach the database
pub record Outside : Type 0 where
  pub keys : Store.Database
  pub hash_key : Text → Text
  pub repo : Repository
  pub urls : Urls
  pub patterns : Patterns
  pub matches : Text → Bool
  pub decode_base64 : Text → Option Text
  pub now : ℕ
  pub template_generated : Text
  pub html_generated : Text
  pub batch_generated : Text
  pub creates : Bool
  pub schedules : Bool

pub record WireSender : Type 0 where
  pub email : Text
  pub alias : Text

pub record WireHeaders : Type 0 where
  pub to : List Text
  pub cc : List Text

pub record WireRecipient : Type 0 where
  pub email : Text
  pub fields : Fields
  pub tracking : Option WirePolicy

-- `SendTemplateReq`; a nil message is `none`
pub record SendTemplateReq : Type 0 where
  pub sender : Option WireSender
  pub subject : Text
  pub template_id : Text
  pub scheduled_time : Option ℤ
  pub recipients : List (Option WireRecipient)
  pub attachments : List (Text × List ℕ)
  pub global_fields : Fields
  pub headers : Option WireHeaders
  pub tracking : Option WirePolicy
  pub one_click_unsubscribe : Option Text

-- `SendHTMLReq`
pub record SendHtmlReq : Type 0 where
  pub sender : Option WireSender
  pub subject : Text
  pub html : Text
  pub scheduled_time : Option ℤ
  pub recipients : List (Option WireRecipient)
  pub attachments : List (Text × List ℕ)
  pub global_fields : Fields
  pub headers : Option WireHeaders
  pub tracking : Option WirePolicy
  pub one_click_unsubscribe : Option Text

-- `rejectionReason`
pub data Reason : Type 0 where
  invalid_email tracking_above_ceiling unsupported_tracking_mode : Reason
  unsubscribe_url_unresolved : Reason

-- the constants of type `rejectionReason`
unfoldable pub reason_text : Reason → Text
reason_text invalid_email = text "invalid_email"
reason_text tracking_above_ceiling = text "tracking_above_ceiling"
reason_text unsupported_tracking_mode = text "unsupported_tracking_mode"
reason_text unsubscribe_url_unresolved = text "unsubscribe_url_unresolved"

-- `RejectedRecipient`
pub record Rejected : Type 0 where
  pub email : Text
  pub reason : Reason

-- `SendRes`
pub record SendRes : Type 0 where
  pub message_id : Text
  pub template_id : Text
  pub scheduled_time : ℤ
  pub accepted_count : ℤ
  pub rejected_count : ℤ
  pub rejected_recipients : List Rejected

-- the errors of a send
pub data SendError : Type 0 where
  wrong_auth no_sender : SendError
  header_unsafe template_not_found invalid_sender invalid_to invalid_cc : Text → SendError
  template_refused unknown_mode create_refused schedule_refused : SendError
  above_ceiling : List CeilingViolation → SendError
  bad_batch : BatchError → SendError
  permission_denied : Text → Text → SendError
  unauthenticated : SendError
