-- ===== src/Examples/Mailing.antt =====
-- The sending API at concrete inputs: pkg/api/mailapi/mailer.go.
use kannon.Tracking.Ceiling.{axis_violation, ceiling_violations}
use kannon.Domains
use kannon.Authz.Role.{accepts, lookup_role}
use kannon.Authz.Principal.{new_principal}
use kannon.Authz.Grant.{new_grant}
use kannon.Authz.Anchor.{domain_anchor, is_grantable, kind}
use kannon.ApiKeys.{expired, is_valid, principal}
use kannon.ApiKeys.Store.{fetched, get_by_key_hash, names_hash, row_to_api_key}
use kannon.ApiKeys.Service.{validate_for_auth}
use kannon.Base.{
  ◌≡◌, refl, true, false, none, some, [], ◌∷◌, ◌++◌, text, nat_eq, list_eq, any, byte_len,
  contains_text, find_first, has_prefix, has_suffix, is_space, list_beq, trim_left, trim_space,
}
use kannon.Base.Int.{pos}
use kannon.Tracking.{
  no_policy, collection, consider, find_rank, most_restrictive, most_restrictive_from, normalized,
  rank, rank_or_zero, resolve, states,
}
use kannon.Values
use kannon.Batch.{Batch}
use kannon.Batch
use kannon.Templates.{Template}
use kannon.Domains.{Domain, find_by_name, names, row_to_domain}
use kannon.Authz.Guard.{World}
use kannon.Mailer.{Outside, Tables, WireSender, WireRecipient, SendTemplateReq}
use kannon.Mailer.Intake.{
  StatedRecipient, take_recipients, nothing_taken, schedule_batch, not_scheduled,
  unsubscribe_resolves,
}
use kannon.Mailer.Sending.{
  SenderAddress, authenticate, send_guarded, create_batch, reported, error, authenticate_parts,
  authenticated, drop_runes, split, split_more, two_parts, with_domain,
}
use kannon.Mailer.{permission_denied}
use kannon.Mailer.Judgement.{Sorted, Admissible, take_recipients-Sorted}
use kannon.Mailer.Authority.{SpeaksFor, permitted, refused_world, send_as_tenant}
use kannon.Mailer.Outcome.{Answered, create_batch_lem}
use kannon.Mailer.Duplicates.{duplicate_recipients}
use kannon.Examples.{acme, globex, all_full}
use kannon.Examples.Access.{acme_sender}
use kannon.Examples.Keys.{disk, hash, acme_row}
use kannon.Examples.Stores.{acme_domain_row}
use kannon.Examples.Sending.{default_repo}

abbrev api : Outside
api = record {
  keys = disk;
  hash_key = hash;
  repo = default_repo;
  urls = record {
    parse_url = λ t. some (text "https", text "acme.test");
    equal_fold = λ a b. true;
  };
  patterns = record { compile = λ p. none; holds_placeholder = λ t. false; query_escape = λ t. t };
  matches = λ t. true;
  decode_base64 = λ t. some (text "acme.test:k_secret");
  now = 60;
  template_generated = text "c1";
  html_generated = text "c2";
  batch_generated = text "c3";
  creates = true;
  schedules = true;
}

abbrev tables : Tables
tables = record {
  domains = acme_domain_row ∷ [];
  keys = acme_row ∷ [];
  templates = [];
  messages = [];
  pool = [];
}

abbrev acme_domain : Domain
acme_domain = record {
  id = 1;
  domain = acme;
  dkim_private_key = text "private";
  dkim_public_key = text "public";
  created_at = 1;
  tracking = all_full;
}

abbrev body : Template
body = record {
  template_id = text "template_c1@acme.test";
  html = text "<p>";
  title = [];
  domain = acme;
  typ = text "template";
  created_at = 1;
  updated_at = 1;
}

abbrev sender : WireSender
sender = record { email = text "news@globex.test"; alias = text "News" }

abbrev from_globex : SenderAddress
from_globex = record { host = text "globex.test"; canonical = globex }

abbrev reader : WireRecipient
reader = record { email = text "ada@mail.test"; fields = []; tracking = none }

abbrev request : SendTemplateReq
request = record {
  sender = some sender;
  subject = text "Hello";
  template_id = text "template_c1@acme.test";
  scheduled_time = none;
  recipients = some reader ∷ none ∷ [];
  attachments = [];
  global_fields = [];
  headers = none;
  tracking = none;
  one_click_unsubscribe = none;
}

abbrev world : World Tables
world = record { records = []; state = tables }

authenticated_acme : authenticate api (text "Basic x") tables ≡ some (acme_sender, acme_domain)
unfolding authenticate has_prefix two_parts split split_more authenticate_parts Values.parse
    Values.validate list_beq Values.to_lower trim_space trim_left is_space byte_len has_suffix
    contains_text Values.check_runes Values.is_allowed validate_for_auth fetched get_by_key_hash
    names_hash row_to_api_key expired is_valid principal domain_anchor is_grantable kind new_grant
    new_principal accepts lookup_role find_first Domains.fetched find_by_name names row_to_domain
    authenticated drop_runes with_domain collection consider find_rank most_restrictive
    most_restrictive_from normalized rank rank_or_zero resolve states Values.string
authenticated_acme = refl

send_as_tenant_example :
    (SpeaksFor acme globex
      → send_guarded api (some acme_sender) acme_domain body sender from_globex request world ≡ (
        (create_batch api acme_domain body sender request
            (permitted api acme_sender acme_domain from_globex world)).0,
        reported
            (text "globex.test")
            (text "acme.test")
            (create_batch api acme_domain body sender request
              (permitted api acme_sender acme_domain from_globex world)).1,
      ))
    × (¬ SpeaksFor acme globex
        → send_guarded api (some acme_sender) acme_domain body sender from_globex request world ≡ (
          refused_world api acme_sender acme_domain from_globex world,
          error (permission_denied (text "globex.test") (text "acme.test")),
        ))
send_as_tenant_example =
    send_as_tenant api (text "Basic x") world acme_sender acme_domain body sender from_globex
      request authenticated_acme

create_batch_lem_example :
    Answered api acme_domain body sender request world
      (create_batch api acme_domain body sender request world)
create_batch_lem_example = create_batch_lem api acme_domain body sender request world

abbrev spring : Batch
spring = record {
  id = text "msg_c3@acme.test";
  subject = text "Hello";
  sender = record { email = text "news@acme.test"; alias = text "News" };
  template_id = text "template_c1@acme.test";
  domain = text "acme.test";
  attachments = [];
  headers = record { to = []; cc = [] };
  one_click_unsubscribe = record { url_template = [] };
  tracking = no_policy;
}

abbrev ada : StatedRecipient
ada = record {
  recipient = record { email = text "ada@mail.test"; fields = []; tracking = no_policy };
  unreadable = false;
}

abbrev blank : StatedRecipient
blank = record {
  recipient = record { email = text " "; fields = []; tracking = no_policy };
  unreadable = false;
}

take_recipients-Sorted_example :
    Sorted api acme_domain spring
      (pos 60)
      (ada ∷ blank ∷ [])
      (take_recipients api acme_domain spring (pos 60) (ada ∷ blank ∷ []) nothing_taken).deliveries
      (take_recipients api acme_domain spring (pos 60) (ada ∷ blank ∷ []) nothing_taken).rejected
take_recipients-Sorted_example =
    take_recipients-Sorted api acme_domain spring (pos 60) (λ e. cc e) (λ e. cc e)
      (ada ∷ blank ∷ [])

ada-Admissible : Admissible api acme_domain spring (pos 60) ada
unfolding Batch.has_address list_beq trim_space trim_left is_space ceiling_violations axis_violation
    states unsubscribe_resolves Batch.states_none
ada-Admissible = record { addressed = refl; readable = refl; within = refl; resolves = refl }

spring_created : Batch.create spring [] ≡ some ([] ++ spring ∷ [])
unfolding Batch.create Batch.insertable any
spring_created = refl

duplicate_recipients_example :
    schedule_batch api acme_domain spring (ada ∷ ada ∷ []) (pos 60) tables
    ≡ (record tables { messages = [] ++ spring ∷ [] }, not_scheduled)
duplicate_recipients_example =
    duplicate_recipients api acme_domain spring (pos 60) [] [] [] ada ada tables ada-Admissible
      ada-Admissible refl (λ e. cc e) (λ e. cc e) refl spring_created
