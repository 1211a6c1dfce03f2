-- ===== src/Mailer/Authority.antt =====
-- In whose name a credential sends: `authenticate`, `senderBatches` and the guard of
-- pkg/api/mailapi/mailer.go, over the API Keys and their Principals.
use mathlib.Core.Path.{subst}
use kannon.Base.{
  ℕ, ◌≡◌, ◌↔◌, refl, sym, ap, ◌∙◌, ◌⊎◌, inl, inr, true, false, ◌&&◌, Option, none, some, List, [],
  ◌∷◌, Text, text, arith, nat_eq, list_eq, list_beq, list_beq_iff, Bool-cases, Option-cases,
  has_prefix, find_first, find_first-some, if◌then◌else◌,
}
use kannon.Values
use kannon.Values.{DomainName, ParseResult}
use kannon.Values.Canonical.{parse-parse}
use kannon.Authz.Action.{create}
use kannon.Authz.Resource.{Resource, batches, under}
use kannon.Authz.Principal.{Principal, new_principal}
use kannon.Authz.Grant.{Grant, GrantResult, new_grant}
use kannon.Authz.Role.{role_sender}
use kannon.Authz.Anchor.{domain_anchor}
use kannon.Authz.Decide.{can}
use kannon.Authz.Coverage.{extend_path}
use kannon.Authz.Guard.{World, allowed, denied, decision, guard, record_decision, err_forbidden}
use kannon.Authz.Guard
use kannon.Authz.Enforcement.{guard_lem, may_claim, why_refused}
use kannon.ApiKeys.{
  ApiKey, principal, resolved, not_granted, blank_id, named_principal, is_valid, PrincipalResult,
}
use kannon.ApiKeys.Authority.{principal-can_iff, Sends}
use kannon.ApiKeys.Service.{validate_for_auth}
use kannon.ApiKeys.Authentication.{validate_for_auth-Matched}
use kannon.Storage.{Fetched, failed, found}
use kannon.Domains.{Domain, DomainRow, find_by_name, fetched, row_to_domain, names}
use kannon.Templates.{Template}
use kannon.Mailer.{
  Outside, Tables, WireSender, SendTemplateReq, SendRes, SendError, permission_denied,
}
use kannon.Mailer.Sending.{
  SenderAddress, error, is_parent_domain, sender_batches, authenticated, authenticate_parts,
  two_parts, authenticate, create_batch, send_guarded, reported, split, drop_runes, with_domain,
}

-- Where a tenant's mail may come from: the tenant's own name, or a parent of it.
abbrev pub SpeaksFor : DomainName → DomainName → Type 0
SpeaksFor tenant from = (from ≡ tenant) ⊎ (is_parent_domain from tenant ≡ true)

batches_itself : (d : DomainName) → batches d ≡ extend_path (batches d) []
unfolding batches under extend_path
batches_itself d = refl

same_place :
    (from d : DomainName) (tail : List Text)
    → batches from ≡ extend_path (batches d) tail
    → from ≡ d
unfolding batches under extend_path Values.string
same_place from d tail h = ground (arith, ap (λ (r : Resource). r.segments) h)

-- the record that the guard leaves of a send that it permits
abbrev pub permitted : Outside → Principal → Domain → SenderAddress → World Tables → World Tables
permitted o p domain from w =
    record_decision
      (decision o.now p create (sender_batches from.canonical domain.domain) allowed []) w

-- the record that it leaves of one that it refuses
abbrev pub refused_world :
    Outside → Principal → Domain → SenderAddress → World Tables → World Tables
refused_world o p domain from w =
    record_decision
      (decision o.now p create (sender_batches from.canonical domain.domain) denied
        (why_refused p create (sender_batches from.canonical domain.domain)))
      w

module _ (k : ApiKey) (p : Principal) (of_key : principal k ≡ resolved p) where
  Sends-own : Sends k.domain create (batches k.domain)
  Sends-own = record { creates = refl; tail = []; named = tt; place = batches_itself k.domain }

  -- The Principal of an API Key may create what a From address needs exactly when the address is of
  -- the key's own Domain or of a parent of it.
  pub sender_batches_iff :
      (from : DomainName)
      → (can p create (sender_batches from k.domain) ≡ true) ↔ SpeaksFor k.domain from
  unfolding sender_batches
  sender_batches_iff from = elim (Bool-cases (is_parent_domain from k.domain)) [
    | inl e ↦ (
      (λ h. inr e),
      (λ h. rw e ((principal-can_iff k p create (batches k.domain) of_key).1 Sends-own)),
    )
    | inr e ↦ (
      (λ h.
          let s = (principal-can_iff k p create (batches from) of_key).0 (rw e at h) in
          inl (same_place from k.domain s.tail s.place)),
      (λ h. elim h [
        | inl same ↦
            rw e ((principal-can_iff k p create (batches from) of_key).1 (rw same Sends-own))
        | inr parent ↦ absurd (cc (e, parent))
      ]),
    )
  ]

  named_principal-attribution :
      (id : Text) (g : Grant) → named_principal id g ≡ resolved p → p.attribution ≡ []
  unfolding named_principal new_principal
  named_principal-attribution id g h = ground arith

  principal-attribution : p.attribution ≡ []
  unfolding principal
  principal-attribution = go (new_grant role_sender (domain_anchor k.domain)) refl
    where
      go :
          (r : GrantResult)
          → new_grant role_sender (domain_anchor k.domain) ≡ r
          → p.attribution ≡ []
      go (GrantResult.err e) q = absurd (cc (rw (q, principal) at of_key))
      go (GrantResult.ok g) q = named_principal-attribution _ g (rw (q, principal) at of_key)

  claims_nothing : (r : Resource) → may_claim p r ≡ true
  unfolding list_beq
  claims_nothing r = rw principal-attribution refl

  module _ (o : Outside) (domain : Domain) (t : Template) (s : WireSender) (from : SenderAddress)
      (req : SendTemplateReq) (w : World Tables) (tenant : k.domain ≡ domain.domain) where
    may :
        SpeaksFor domain.domain from.canonical
        → can p create (sender_batches from.canonical domain.domain) ≡ true
    may h =
        subst
          (λ d. SpeaksFor d from.canonical → can p create (sender_batches from.canonical d) ≡ true)
          tenant (sender_batches_iff from.canonical).1 h

    may_not :
        ¬ SpeaksFor domain.domain from.canonical
        → can p create (sender_batches from.canonical domain.domain) ≡ false
    may_not h = elim (Bool-cases (can p create (sender_batches from.canonical domain.domain))) [
      | inr e ↦ e
      | inl e ↦ absurd (
          h (
            subst
              (λ d.
                can p create (sender_batches from.canonical d) ≡ true → SpeaksFor d from.canonical)
              tenant (sender_batches_iff from.canonical).0 e))
    ]

    guard_decides : (send_guarded o (some p) domain t s from req w) ≡ (
        let (after, result) =
          if can p create (sender_batches from.canonical domain.domain)
            && may_claim p (sender_batches from.canonical domain.domain)
          then create_batch o domain t s req (permitted o p domain from w)
          else (refused_world o p domain from w, Guard.Result.err err_forbidden) in
        (after, reported from.host domain.domain.s result))
    unfolding send_guarded Values.string
    guard_decides =
        ap
          (λ (x : World Tables × Guard.Result SendError SendRes).
            (x.0, reported from.host domain.domain.s x.1))
          (guard_lem o.now (some p) create (sender_batches from.canonical domain.domain)
            (create_batch o domain t s req) w)

    -- A send from an address that the key speaks for runs as `createBatch` on the same tables.
    send_guarded-permitted :
        SpeaksFor domain.domain from.canonical
        → send_guarded o (some p) domain t s from req w ≡ (
          (create_batch o domain t s req (permitted o p domain from w)).0,
          reported from.host domain.domain.s
              (create_batch o domain t s req (permitted o p domain from w)).1,
        )
    send_guarded-permitted h =
        guard_decides
        ∙ rw (may h) (rw (claims_nothing (sender_batches from.canonical domain.domain)) refl)

    send_guarded_refused :
        ¬ SpeaksFor domain.domain from.canonical
        → send_guarded o (some p) domain t s from req w
          ≡ (refused_world o p domain from w, error (permission_denied from.host domain.domain.s))
    unfolding reported
    send_guarded_refused h = guard_decides ∙ rw (may_not h) refl

-- The key behind a credential that authenticated.
pub record Credential (o : Outside) (p : Principal) (domain : Domain) : Type 0 where
  pub key : ApiKey
  pub plaintext : Text
  pub of_key : principal key ≡ resolved p
  pub tenant : key.domain ≡ domain.domain
  pub hashed : key.key_hash ≡ o.hash_key plaintext
  pub valid : is_valid o.now key ≡ true

find_by_name-domain :
    (other : ℕ → ℕ) (name : DomainName) (rows : List DomainRow) {d : Domain}
    → Values.parse other name.s ≡ ParseResult.ok name
    → find_by_name other name rows ≡ found d
    → name ≡ d.domain
unfolding find_by_name fetched Values.string names row_to_domain
find_by_name-domain other name rows {d} canonical h =
    elim (Option-cases (find_first (names name.s) rows)) [
      | inl e ↦ absurd (cc (rw (e, fetched) at h))
      | inr (r, e) ↦
          let same : r.domain ≡ name.s =
            (list_beq_iff r.domain name.s).0 (find_first-some (names name.s) rows e).1 in
          row_domain r (rw (e, fetched) at h) (ap (Values.parse other) same ∙ canonical)
    ]
  where
    domain_of : Fetched Domain → DomainName
    domain_of (failed e) = name
    domain_of (found x) = x.domain

    row_domain :
        (r : DomainRow)
        → row_to_domain other r ≡ found d
        → Values.parse other r.domain ≡ ParseResult.ok name
        → name ≡ d.domain
    row_domain r q parsed = ap domain_of (rw (parsed, row_to_domain) at q)

module _ (o : Outside) (w : Tables) (p : Principal) (domain : Domain) where
  authenticated-Credential :
      (k : ApiKey) (plaintext : Text)
      → Values.parse o.keys.other k.domain.s ≡ ParseResult.ok k.domain
      → k.key_hash ≡ o.hash_key plaintext
      → is_valid o.now k ≡ true
      → authenticated o k w ≡ some (p, domain)
      → Credential o p domain
  unfolding authenticated with_domain
  authenticated-Credential k plaintext canonical hashed valid h = go (principal k) refl
    where
      go : (r : PrincipalResult) → principal k ≡ r → Credential o p domain
      go (not_granted e) q = absurd (cc (rw (q, authenticated) at h))
      go blank_id q = absurd (cc (rw (q, authenticated) at h))
      go (resolved x) q =
          go_domain x q (find_by_name o.keys.other k.domain w.domains) refl
            (rw (q, authenticated) at h)
        where
          go_domain :
              (x : Principal)
              → principal k ≡ resolved x
              → (f : Fetched Domain) → find_by_name o.keys.other k.domain w.domains ≡ f
              → with_domain x (find_by_name o.keys.other k.domain w.domains) ≡ some (p, domain)
              → Credential o p domain
          go_domain x q (failed e) r g = absurd (cc (rw (r, with_domain) at g))
          go_domain x q (found d) r g =
              let same : ◌≡◌ {A = Option (Principal × Domain)} (some (x, d)) (some (p, domain)) =
                rw (r, with_domain) at g in
              let pair : ◌≡◌ {A = Principal × Domain} (x, d) (p, domain) = cc same in
              record {
                key = k;
                plaintext = plaintext;
                of_key = q ∙ ap (λ (y : Principal × Domain). resolved y.0) pair;
                tenant =
                    find_by_name-domain o.keys.other k.domain w.domains canonical r
                    ∙ ap (λ (y : Principal × Domain). y.1.domain) pair;
                hashed = hashed;
                valid = valid;
              }

  authenticate_parts-Credential :
      (domain_name plaintext : Text)
      → authenticate_parts o domain_name plaintext w ≡ some (p, domain)
      → Credential o p domain
  unfolding authenticate_parts
  authenticate_parts-Credential domain_name plaintext h =
      go_name (Values.parse o.keys.other domain_name) refl
    where
      go_key :
          (d : DomainName)
          → Values.parse o.keys.other d.s ≡ ParseResult.ok d
          → (k : Option ApiKey) → validate_for_auth o.keys o.hash_key o.now d plaintext w.keys ≡ k
          → elim k [ none ↦ none | some x ↦ authenticated o x w ] ≡ some (p, domain)
          → Credential o p domain
      go_key d canonical none r g = absurd (cc g)
      go_key d canonical (some k) r g =
          let m = validate_for_auth-Matched o.keys o.hash_key o.now d plaintext w.keys r in
          let same : d ≡ k.domain =
            ok_name
              (sym canonical ∙ ap (Values.parse o.keys.other) (sym m.same_domain) ∙ m.parsed) in
          authenticated-Credential k plaintext
            (ap (λ (x : DomainName). Values.parse o.keys.other x.s) (sym same)
              ∙ canonical
              ∙ ap ParseResult.ok same)
            (ap (λ (x : ApiKey). x.key_hash) m.entity ∙ m.same_hash) m.valid g
        where
          ok_name : {a c : DomainName} → ParseResult.ok a ≡ ParseResult.ok c → a ≡ c
          ok_name e = cc e

      go_name :
          (r : ParseResult) → Values.parse o.keys.other domain_name ≡ r → Credential o p domain
      go_name (ParseResult.err e) q = absurd (cc (rw (q, authenticate_parts) at h))
      go_name (ParseResult.ok d) q =
          go_key d (parse-parse o.keys.other domain_name d q)
            (validate_for_auth o.keys o.hash_key o.now d plaintext w.keys) refl
            (rw (q, authenticate_parts) at h)

  two_parts-Credential :
      (parts : List Text) → two_parts o parts w ≡ some (p, domain) → Credential o p domain
  unfolding two_parts
  two_parts-Credential [] h = absurd (cc h)
  two_parts-Credential (a ∷ []) h = absurd (cc h)
  two_parts-Credential (a ∷ c ∷ []) h = authenticate_parts-Credential a c h
  two_parts-Credential (a ∷ c ∷ d ∷ rest) h = absurd (cc h)

  -- A header that authenticates holds the text of a valid key, whose Principal and Domain are the ones
  -- that the request goes on with.
  pub authenticate-Credential :
      (auth : Text) → authenticate o auth w ≡ some (p, domain) → Credential o p domain
  unfolding authenticate
  authenticate-Credential auth h = elim (Bool-cases (has_prefix auth (text "Basic "))) [
    | inr e ↦ absurd (cc (rw e at h))
    | inl e ↦ go (o.decode_base64 (drop_runes 6 auth)) refl (rw e at h)
  ]
    where
      go :
          (r : Option Text)
          → o.decode_base64 (drop_runes 6 auth) ≡ r
          → elim (o.decode_base64 (drop_runes 6 auth)) [
            | none ↦ none
            | some credential ↦ two_parts o (split b':' credential) w
          ]
            ≡ some (p, domain)
          → Credential o p domain
      go none q g = absurd (cc (rw q at g))
      go (some c) q g = two_parts-Credential (split b':' c) (rw q at g)

-- Whoever authenticates sends only in its own name: a send from an address of the Domain that the
-- credential's key belongs to, or of a parent of that Domain, runs as `createBatch` on the same
-- tables; from any other address it is answered with permission denied for the address's host and the
-- Domain, one refusal is recorded, and the tables are what they were.
pub send_as_tenant :
    (o : Outside) (auth : Text) (w : World Tables) (p : Principal) (domain : Domain) (t : Template)
    (s : WireSender) (from : SenderAddress) (req : SendTemplateReq)
    → authenticate o auth w.state ≡ some (p, domain)
    → (SpeaksFor domain.domain from.canonical
        → send_guarded o (some p) domain t s from req w ≡ (
          (create_batch o domain t s req (permitted o p domain from w)).0,
          reported from.host domain.domain.s
              (create_batch o domain t s req (permitted o p domain from w)).1,
        ))
      × (¬ SpeaksFor domain.domain from.canonical
          → send_guarded o (some p) domain t s from req w ≡ (
            refused_world o p domain from w,
            error (permission_denied from.host domain.domain.s),
          ))
send_as_tenant o auth w p domain t s from req h =
    let c = authenticate-Credential o w.state p domain auth h in
    (
      send_guarded-permitted c.key p c.of_key o domain t s from req w c.tenant,
      send_guarded_refused c.key p c.of_key o domain t s from req w c.tenant,
    )
