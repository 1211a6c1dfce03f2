-- ===== src/Lib.antt =====
-- Kannon, a mail sender: API clients state Batches for Domains that they may send for, and workers
-- validate, dispatch, transmit and account for one Delivery to each Recipient. This library models
-- the program's own logic and leaves transport, storage engines and generated code aside.
--
-- The parts, and how they meet:
-- - Values: internal/values/domain_name.go, the canonical domain name that Resources are named by.
-- - Authz: internal/authz. Action, Resource, Anchor, Role, Grant and Principal are the files of
--   those names; Decide is authz.go (`Can`, `Require`), Attenuate is attenuate.go, Guard is guard.go
--   and recorder.go. Coverage, Authority, Paths, Reading, Placement, Narrowing, Attenuation,
--   Intersection and Enforcement hold the proofs. An operation is a function from a world (the decisions recorded so
--   far and the operation's own state) to a world and a result; the context is the Principal that it
--   carries, if any.
-- - Storage: what a repository answers, the conversion to int32, and the pages of a listing.
-- - ApiKeys: internal/apikeys/key.go, id.go and principal.go; a key's Principal goes through Authz.
--   ApiKeys/Store is internal/db/key_repo.go with the statements of apikeys.sql.go on the table
--   api_keys, ApiKeys/Service is service.go and ref.go, each operation behind its Guard. Views gives
--   the specification, a map from references to keys and what a reply says was done to it;
--   Refinement and Runs relate the table to it; Invariants, Authentication, Revocation, Separation
--   and Authority hold further proofs.
-- - Domains: internal/domains with internal/db/domains_repo.go; Domains/Ceilings has the proofs.
-- - Templates: internal/templates/templates.go with internal/db/templates.go; Templates/Service is
--   service.go. Identity and Isolation hold the proofs.
-- - Tracking: internal/tracking/tracking.go and ceiling.go, Modes, Policies and their resolution;
--   Tracking/Identity is identity.go and Tracking/Wire internal/trackingpb; Sentinels and Legible
--   have their proofs.
-- - LinkTokens: internal/statssec/keys.go, whom a tracking token names. Envelope/SharedTokens is
--   internal/envelope/sharedtokens.go and Envelope/Tracks the part of builder.go that mints; they
--   meet LinkTokens in Envelope/Naming and each other in Envelope/Sharing.
-- - Runner: internal/runner/runner.go, the loop of a worker.
-- - Batch: internal/batch with internal/db/batch_repo.go; Placeholders: internal/utils/template.go;
--   Addresses: internal/smtp/utils.go.
-- - Mailer: pkg/api/mailapi/mailer.go, the API that sends. It finds an API Key for the credential,
--   guards the send by the key's Principal, and makes a Template, a Batch and the rows of the Pool.
--   Mailer/Intake is the loop over Recipients, Mailer/Sending the requests; Judgement, Outcome,
--   Duplicates and Authority hold the proofs.
-- - Delivery: internal/delivery/delivery.go; Delivery/Backoff is backoff.go, with int64 arithmetic
--   written out as patterns of 64 bits. Delivery/Budget holds the proofs.
-- - Pool: the table sending_pool_emails and the statements of internal/db/pool.sql.go;
--   Pool/Repository is internal/db/delivery_repo.go, which internal/pool/pool.go passes on. Every
--   statement is a step from table to table (Pool/Keys), and invariants are proved of every pool that
--   steps reach from the empty one. Scan, Targets, Keys, Held, Claims and Reclaiming hold the proofs.
-- - Stats: internal/stats/outcome.go, event.go and the types of stat.go.
-- - Validator: pkg/validator/validator.go and reclaim.go, the worker between insertion and dispatch.
-- - Dispatcher: pkg/dispatcher/disp.go and reclaim.go with internal/pool/reclaim.go and
--   `PublishStat`. It acts on the Pool and publishes Stats. Branches, Loss, Acks and Stranding hold
--   the proofs.
-- - SmtpSender: pkg/smtpsender/smtpsender.go and guard.go, the worker that hands Envelopes to a relay
--   and publishes the Stats that the Dispatcher acts on. SmtpSender/Redelivery holds the proofs.
-- - Base: strings, lists, tests and integers that the parts share. Examples: concrete inputs.
--
-- Conventions. A Go string is the list of its runes; a byte that is no part of one has a number
-- past the last rune. A map or a set of the source is a list of entries with different keys. An
-- instant or a duration is an integer of nanoseconds (a natural number in ApiKeys, Domains,
-- Templates and Authz); instants are not bounded, durations of the backoff wrap as int64 does.
-- Loops are structural recursion, so nothing runs out of fuel, but the loop of Runner, which
-- need not end and takes fuel. A claim with a limit takes the first rows of a scan that qualify:
-- the order of the list and the rows that other transactions hold are arbitrary, so every choice
-- that the database may make is covered. `send_attempts_cnt` is a number without the column's
-- bound of 2 ^ 31.
--
-- What the code takes from outside src are arguments: Unicode's lower case past ASCII, the
-- conversion of a float64 that no int64 holds, SHA-256 and random bytes, the instant that a
-- timestamp column keeps, the Batches that the messages table knows, the clock, and whether the
-- database and the broker answer (for a send, whether each of its two writes reaches the
-- database). The order in which a listing gives API Keys is an argument; Domains and Templates
-- stand in the order of their identifiers. cuid2 identifiers, base64, the URL parser and the
-- expressions that find a placeholder are arguments. So is whether the bucket of the send guard
-- still has a claim. What the relay says, the key of a message and the ids in an email id, the
-- Envelope builder and the regular expression of addresses are arguments too.
--
-- Not modelled: the rest of the Envelope builder, which renders bodies and headers; the signing and
-- the keys of link tokens and the tracker, which stand on JSON Web Tokens;
-- the admin, stats and audit APIs, which translate requests for the services modelled here; the
-- stats consumers; configuration and wiring; SMTP and DKIM; and generated code.
pub mod Base
pub mod Values
pub mod Authz
pub mod ApiKeys
pub mod Tracking
pub mod Delivery
pub mod Pool
pub mod Stats
pub mod Storage
pub mod Domains
pub mod Templates
pub mod Batch
pub mod Placeholders
pub mod Addresses
pub mod Mailer
pub mod Envelope
pub mod Runner
pub mod LinkTokens
pub mod Dispatcher
pub mod Examples
pub mod Validator
pub mod SmtpSender
