-- ===== src/Mailer/Sending.antt =====
-- The requests of pkg/api/mailapi/mailer.go: who asks, whose address the mail is from, and the send.
use kannon.Base.{
  ℕ, zero, suc, Bool, false, not, ◌||◌, Option, none, some, List, [], ◌∷◌, ◌++◌, Text, text, length,
  has_prefix, has_suffix, trim_space, ◌==◌, nat_eq, list_eq, any, if◌then◌else◌,
}
use kannon.Base.Int.{ℤ, pos}
use kannon.Values
use kannon.Values.{DomainName, ParseResult}
use kannon.Tracking.{Policy}
use kannon.Tracking.Ceiling.{CeilingViolation, ceiling_violations}
use kannon.Tracking.Wire.{to_policy}
use kannon.Authz.Action.{create}
use kannon.Authz.Resource.{Resource, batches}
use kannon.Authz.Principal.{Principal}
use kannon.Authz.Guard.{
  World, Operation, GuardError, err_no_principal, err_forbidden, from_operation, guard,
}
use kannon.Authz.Guard
use kannon.Storage.{Fetched, failed, found}
use kannon.ApiKeys.{ApiKey, principal, resolved, not_granted, blank_id}
use kannon.ApiKeys.Store.{int32_of}
use kannon.ApiKeys.Service.{validate_for_auth}
use kannon.Domains
use kannon.Domains.{Domain}
use kannon.Templates.{Template, find_by_domain, new_transient}
use kannon.Templates
use kannon.Batch.{Batch, Headers, Sender}
use kannon.Batch
use kannon.Placeholders.{put_all, replace_custom_fields}
use kannon.Addresses.{get_email_domain}
use kannon.Mailer.{
  Outside, Tables, WireSender, WireHeaders, SendTemplateReq, SendHtmlReq, SendRes, SendError,
  wrong_auth, no_sender, header_unsafe, template_not_found, template_refused, invalid_sender,
  invalid_to, invalid_cc, unknown_mode, create_refused, schedule_refused, above_ceiling, bad_batch,
  permission_denied, unauthenticated,
}
use kannon.Mailer.Intake.{
  Scheduled, not_created, not_scheduled, done, schedule_batch, recipients_from_request,
  unsubscribe_from_request,
}

-- `strings.Split` by one rune
unfoldable pub split_more : ℕ → ℕ → List Text → List Text
split_more c r [] = (r ∷ []) ∷ []
split_more c r (part ∷ parts) = (r ∷ part) ∷ parts

unfoldable pub split : ℕ → Text → List Text
split c [] = [] ∷ []
split c (r ∷ s) = if r == c then [] ∷ split c s else split_more c r (split c s)

unfoldable pub drop_runes : ℕ → Text → Text
drop_runes zero s = s
drop_runes (suc n) [] = []
drop_runes (suc n) (r ∷ s) = drop_runes n s

-- `strings.TrimSuffix` of a final dot
unfoldable pub trim_dot : Text → Text
trim_dot [] = []
trim_dot (r ∷ []) = if r == b'.' then [] else r ∷ []
trim_dot (r ∷ q ∷ s) = r ∷ trim_dot (q ∷ s)

-- `assertHeaderSafe`; true is that there is no error
unfoldable pub header_is_safe : Text → Bool
header_is_safe v = not (any (λ r. r == 0x0d || r == 0x0a) v)

-- `isParentDomain`
unfoldable pub is_parent_domain : DomainName → DomainName → Bool
is_parent_domain from tenant =
    if Values.is_zero from || Values.is_zero tenant
    then false
    else has_suffix (Values.string tenant) (text "." ++ Values.string from)

-- `senderBatches`
unfoldable pub sender_batches : DomainName → DomainName → Resource
sender_batches from tenant = if is_parent_domain from tenant then batches tenant else batches from

-- `senderAddress`
pub record SenderAddress : Type 0 where
  pub host : Text
  pub canonical : DomainName

pub data Sent {ℓ} (T : Type ℓ) : Type ℓ where
  error : SendError → Sent T
  sent : T → Sent T

-- the first address that is refused
unfoldable pub first_refused : (Text → Bool) → List Text → Option Text
first_refused matches [] = none
first_refused matches (a ∷ rest) = if not (matches a) then some a else first_refused matches rest

-- a Principal and the Domain that was found for its key
unfoldable pub with_domain : Principal → Fetched Domain → Option (Principal × Domain)
with_domain p (failed e) = none
with_domain p (found d) = some (p, d)

-- `sendError`
unfoldable pub send_error : GuardError SendError → Text → Text → SendError
send_error err_forbidden host tenant = permission_denied host tenant
send_error err_no_principal host tenant = unauthenticated
send_error (from_operation e) host tenant = e

-- what the guarded send returned, to the caller
unfoldable pub reported : Text → Text → Guard.Result SendError SendRes → Sent SendRes
unfolding send_error
reported host tenant (Guard.Result.ok res) = sent res
reported host tenant (Guard.Result.err e) = error (send_error e host tenant)

module _ (o : Outside) where
  -- `canonicalSenderHost`
  unfoldable pub canonical_sender_host : Text → DomainName
  canonical_sender_host host = elim (Values.parse o.keys.other (trim_dot (trim_space host))) [
    | ParseResult.err e ↦ record { s = [] }
    | ParseResult.ok f ↦ f
  ]

  -- `senderAddressOf`
  unfoldable pub sender_address_of : Option WireSender → Sent SenderAddress
  sender_address_of none = error no_sender
  sender_address_of (some s) =
      if not (header_is_safe s.alias)
      then error (header_unsafe (text "sender alias"))
      else elim (get_email_domain o.matches s.email) [
        | none ↦ error (invalid_sender s.email)
        | some host ↦ sent (record { host = host; canonical = canonical_sender_host host })
      ]

  -- `validateHeaders`
  unfoldable pub validate_headers : Option WireHeaders → Sent Headers
  validate_headers none = sent (record { to = []; cc = [] })
  validate_headers (some h) = elim (first_refused o.matches h.to) [
    | some a ↦ error (invalid_to a)
    | none ↦ elim (first_refused o.matches h.cc) [
      | some a ↦ error (invalid_cc a)
      | none ↦ sent (record { to = h.to; cc = h.cc })
    ]
  ]

  -- the part of `authenticate` from the key that authenticated
  unfoldable pub authenticated : ApiKey → Tables → Option (Principal × Domain)
  authenticated k w = elim (principal k) [
    | not_granted e ↦ none
    | blank_id ↦ none
    | resolved p ↦ with_domain p (Domains.find_by_name o.keys.other k.domain w.domains)
  ]

  -- the part of `authenticate` from the two parts of the credential
  unfoldable pub authenticate_parts : Text → Text → Tables → Option (Principal × Domain)
  authenticate_parts domain_name key w = elim (Values.parse o.keys.other domain_name) [
    | ParseResult.err e ↦ none
    | ParseResult.ok d ↦ elim (validate_for_auth o.keys o.hash_key o.now d key w.keys) [
      | none ↦ none
      | some k ↦ authenticated k w
    ]
  ]

  unfoldable pub two_parts : List Text → Tables → Option (Principal × Domain)
  two_parts [] w = none
  two_parts (domain_name ∷ []) w = none
  two_parts (domain_name ∷ key ∷ []) w = authenticate_parts domain_name key w
  two_parts (domain_name ∷ key ∷ more ∷ rest) w = none

  -- `authenticate`, of the header Authorization; every refusal is the same, here `none`
  unfoldable pub authenticate : Text → Tables → Option (Principal × Domain)
  authenticate auth w =
      if not (has_prefix auth (text "Basic "))
      then none
      else elim (o.decode_base64 (drop_runes 6 auth)) [
        | none ↦ none
        | some credential ↦ two_parts (split b':' credential) w
      ]

  -- `createTransientTemplate`
  unfoldable pub create_transient_template :
      Text → DomainName → Text → Tables → Tables × Sent Template
  create_transient_template generated d html w =
      let (rows, result) =
        Templates.create o.keys.other o.now (new_transient generated d html) w.templates in
      (
        record w { templates = rows },
        elim result [ failed e ↦ error template_refused | found t ↦ sent t ],
      )

  -- `createTemplateWithGlobalFields`
  unfoldable pub create_template_with_global_fields :
      Template → List (Text × Text) → Tables → Tables × Sent Template
  create_template_with_global_fields t [] w = (w, sent t)
  create_template_with_global_fields t (field ∷ fields) w =
      let html = replace_custom_fields o.patterns t.html (field ∷ fields) in
      if html == t.html
      then (w, sent t)
      else create_transient_template o.template_generated t.domain html w

  unfoldable pub batch_of : Batch.NewResult → Sent Batch
  batch_of (Batch.NewResult.err e) = error (bad_batch e)
  batch_of (Batch.NewResult.ok b) = sent b

  module _ (domain : Domain) (t : Template) (s : WireSender) (req : SendTemplateReq) where
    unfoldable pub batch_within : Headers → Policy → List CeilingViolation → Sent Batch
    batch_within headers policy (v ∷ vs) = error (above_ceiling (v ∷ vs))
    batch_within headers policy [] = batch_of (
        Batch.new o.urls o.batch_generated (record {
          domain = Values.string domain.domain;
          subject = req.subject;
          sender = record { email = s.email; alias = s.alias };
          template_id = t.template_id;
          attachments = put_all req.attachments [];
          headers = headers;
          one_click_unsubscribe = unsubscribe_from_request req.one_click_unsubscribe;
          tracking = policy;
        }))

    unfoldable pub batch_under : Headers → Option Policy → Sent Batch
    batch_under headers none = error unknown_mode
    batch_under headers (some policy) =
        batch_within headers policy (ceiling_violations domain.tracking policy)

    unfoldable pub batch_with : Sent Headers → Sent Batch
    batch_with (error e) = error e
    batch_with (sent headers) = batch_under headers (to_policy req.tracking)

    -- the Batch of `createBatch`, or its error, before anything is written
    unfoldable pub new_batch : Sent Batch
    new_batch = batch_with (validate_headers req.headers)

  unfoldable pub time_of : Option ℤ → ℤ
  time_of none = pos o.now
  time_of (some t) = t

  unfoldable pub answer_of : Batch → Template → ℤ → Scheduled → Guard.Result SendError SendRes
  answer_of b t scheduled not_created = Guard.Result.err (from_operation create_refused)
  answer_of b t scheduled not_scheduled = Guard.Result.err (from_operation schedule_refused)
  answer_of b t scheduled (done taken) = Guard.Result.ok (record {
    message_id = b.id;
    template_id = t.template_id;
    scheduled_time = scheduled;
    accepted_count = int32_of (length taken.deliveries);
    rejected_count = int32_of (length taken.rejected);
    rejected_recipients = taken.rejected;
  })

  -- `createBatch`
  unfoldable pub create_batch :
      Domain → Template → WireSender → SendTemplateReq → Operation Tables SendError SendRes
  create_batch domain t s req w = elim (new_batch domain t s req) [
    | error e ↦ (w, Guard.Result.err (from_operation e))
    | sent b ↦
        let (tables, result) =
          schedule_batch o domain b (recipients_from_request req.recipients)
            (time_of req.scheduled_time) w.state in
        (record w { state = tables }, answer_of b t (time_of req.scheduled_time) result)
  ]

  -- the guarded part of `sendTemplate`
  unfoldable pub send_guarded :
      Option Principal
      → Domain
      → Template
      → WireSender
      → SenderAddress
      → SendTemplateReq
      → World Tables
      → World Tables × Sent SendRes
  send_guarded ctx domain t s from req w =
      let (after, result) =
        guard o.now ctx create (sender_batches from.canonical domain.domain)
          (create_batch domain t s req) w in
      (after, reported from.host (Values.string domain.domain) result)

  -- the part of `sendTemplate` from the template that is sent
  unfoldable pub send_from :
      Option Principal
      → Domain
      → Template
      → SendTemplateReq
      → World Tables
      → World Tables × Sent SendRes
  send_from ctx domain t req w = elim req.sender [
    | none ↦ (w, error no_sender)
    | some s ↦ elim (sender_address_of (some s)) [
      | error e ↦ (w, error e)
      | sent from ↦ send_guarded ctx domain t s from req w
    ]
  ]

  unfoldable pub send_rendered :
      Option Principal
      → Domain
      → SendTemplateReq
      → World Tables
      → Tables × Sent Template
      → World Tables × Sent SendRes
  send_rendered ctx domain req w (tables, error e) = (record w { state = tables }, error e)
  send_rendered ctx domain req w (tables, sent t) =
      send_from ctx domain t req (record w { state = tables })

  -- `sendTemplate`
  unfoldable pub send_template_as :
      Option Principal → Domain → SendTemplateReq → World Tables → World Tables × Sent SendRes
  send_template_as ctx domain req w =
      if not (header_is_safe req.subject)
      then (w, error (header_unsafe (text "subject")))
      else elim (find_by_domain o.keys.other domain.domain req.template_id w.state.templates) [
        | failed e ↦ (w, error (template_not_found req.template_id))
        | found t ↦
            send_rendered ctx domain req w
              (create_template_with_global_fields t req.global_fields w.state)
      ]

  -- `SendTemplate`
  unfoldable pub send_template : Text → SendTemplateReq → World Tables → World Tables × Sent SendRes
  send_template auth req w = elim (authenticate auth w.state) [
    | none ↦ (w, error wrong_auth)
    | some (p, domain) ↦ send_template_as (some p) domain req w
  ]

  unfoldable pub template_req : SendHtmlReq → Text → SendTemplateReq
  template_req req template_id = record {
    sender = req.sender;
    subject = req.subject;
    template_id = template_id;
    scheduled_time = req.scheduled_time;
    recipients = req.recipients;
    attachments = req.attachments;
    global_fields = [];
    headers = req.headers;
    tracking = req.tracking;
    one_click_unsubscribe = req.one_click_unsubscribe;
  }

  unfoldable pub send_html_with :
      Principal
      → Domain
      → SendHtmlReq
      → World Tables
      → Tables × Sent Template
      → World Tables × Sent SendRes
  send_html_with p domain req w (tables, error e) = (record w { state = tables }, error e)
  send_html_with p domain req w (tables, sent t) =
      send_template_as (some p) domain (template_req req t.template_id)
        (record w { state = tables })

  -- `SendHTML`
  unfoldable pub send_html : Text → SendHtmlReq → World Tables → World Tables × Sent SendRes
  send_html auth req w = elim (authenticate auth w.state) [
    | none ↦ (w, error wrong_auth)
    | some (p, domain) ↦ send_html_with p domain req w (
        create_transient_template o.html_generated domain.domain
          (replace_custom_fields o.patterns req.html req.global_fields) w.state)
  ]
