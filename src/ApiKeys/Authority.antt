-- ===== src/ApiKeys/Authority.antt =====
-- The authority that an API Key confers: internal/apikeys/principal.go and key.go.
use mathlib.Core.Path.{subst}
use kannon.Base.{
  ℕ, ◌≤◌, ◌≡◌, ◌≢◌, refl, sym, ◌↔◌, inl, inr, true, false, some, List, [], ◌∷◌, ◌++◌, map, Text,
  All, Some, arith, nat_eq, list_eq, list_beq, list_beq_iff,
}
use kannon.Values
use kannon.Values.{DomainName}
use kannon.Authz.Action.{Action, create}
use kannon.Authz.Resource.{Resource, seg_domains, seg_batches, batches, under, literal_segment}
use kannon.Authz.Anchor.{domain_anchor, kind, is_grantable, is_well_formed}
use kannon.Authz.Role.{role_sender, sender, Role, lookup_role, find_role, catalogue}
use kannon.Authz.Grant.{Grant, GrantResult, new_grant}
use kannon.Authz.Principal.{Principal, new_principal}
use kannon.Authz.Decide.{can}
use kannon.Authz.Coverage.{IsNamed, IsWellFormed, Above, extend_path}
use kannon.Authz.Authority.{can-Permits, Permits-can, GrantPermits, RulePermits}
use kannon.Authz.Placement.{new_grant-IsPlaced, role_cases}
use kannon.Authz.Narrowing.{path_of_covers, path_covers-extend}
use kannon.ApiKeys.{ApiKey, resolved, named_principal, principal, is_valid, expired, deactivate}

-- The one Grant of a key: sender, on its own Domain.
abbrev key_grant : DomainName → Grant
key_grant d = record { role = role_sender; anchor = domain_anchor d }

named_principal-grants :
    (id : Text) (g : Grant) (p : Principal) → named_principal id g ≡ resolved p → p.grants ≡ g ∷ []
unfolding named_principal new_principal
named_principal-grants id g p h = ground arith

grantable-named : (d : DomainName) → is_grantable (kind (domain_anchor d)) ≡ true → d.s ≢ []
unfolding is_grantable kind domain_anchor
grantable-named d h = ground (arith, list_beq_iff d.s [])

principal-grants :
    (k : ApiKey) (p : Principal)
    → principal k ≡ resolved p
    → (p.grants ≡ key_grant k.domain ∷ []) × (k.domain.s ≢ [])
unfolding principal
principal-grants k p h = go (new_grant role_sender (domain_anchor k.domain)) refl
  where
    go :
        (o : GrantResult)
        → new_grant role_sender (domain_anchor k.domain) ≡ o
        → (p.grants ≡ key_grant k.domain ∷ []) × (k.domain.s ≢ [])
    go (GrantResult.err e) q = cc (rw (q, principal) at h)
    go (GrantResult.ok g) q =
        let (same_role, same_anchor, grantable, placed) =
          new_grant-IsPlaced role_sender (domain_anchor k.domain) {g = g} q in
        let same : g ≡ key_grant k.domain = cc in
        (
          rw (← same) (named_principal-grants _ g p (rw (q, principal) at h)),
          grantable-named k.domain grantable,
        )

-- What a key may do: create, on its own Domain's Batches and beneath.
pub record Sends (d : DomainName) (a : Action) (r : Resource) : Type 0 where
  pub creates : a ≡ create
  pub tail : List Text
  pub named : All IsNamed tail
  pub place : r ≡ extend_path (batches d) tail

key_path :
    (d : DomainName) (rs : List Text)
    → Above ((domain_anchor d).segments ++ map literal_segment (seg_batches ∷ [])) rs
    → All IsNamed rs
    → (tail : List Text) × (rs ≡ seg_domains ∷ d.s ∷ seg_batches ∷ tail) × All IsNamed tail
unfolding domain_anchor literal_segment Values.string
key_path d [] above named = absurd above
key_path d (x ∷ []) above named = absurd above.1
key_path d (x ∷ y ∷ []) above named = absurd above.1.1
key_path d (x ∷ y ∷ z ∷ rest) above named = (rest, ground arith, named.1.1.1)

batches_path :
    (d : DomainName) (tail : List Text)
    → (extend_path (batches d) tail).segments ≡ seg_domains ∷ d.s ∷ seg_batches ∷ tail
unfolding extend_path batches under Values.string
batches_path d tail = refl

sender_rule :
    (d : DomainName) (a : Action) (r : Resource)
    → Some (RulePermits (domain_anchor d) a r) sender.rules
    → Sends d a r
unfolding sender
sender_rule d a r (inl h) =
    let (formed, _, above) =
      path_of_covers (domain_anchor d) (seg_batches ∷ []) r (unfold domain_anchor in refl)
        h.reached in
    let (tail, path, named) = key_path d r.segments above formed.named in
    record {
      creates = created h.states;
      tail = tail;
      named = named;
      place = cc (batches_path d tail);
    }
  where
    created : Some (λ (b : Action). b ≡ a) (create ∷ []) → a ≡ create
    created (inl e) = sym e
    created (inr e) = absurd e
sender_rule d a r (inr h) = absurd h

key_permits :
    (d : DomainName) (a : Action) (r : Resource) → GrantPermits a r (key_grant d) → Sends d a r
key_permits d a r h = elim (role_cases role_sender h.def h.known) [
  | inl (e, _) ↦ ground arith
  | inr (_, e) ↦
      sender_rule d a r
        (subst (λ (x : Role). Some (RulePermits (domain_anchor d) a r) x.rules) e h.rule)
]

sender_known : lookup_role role_sender ≡ some sender
unfolding lookup_role find_role catalogue list_beq
sender_known = refl

domain_well_formed : (d : DomainName) → d.s ≢ [] → is_well_formed (domain_anchor d) ≡ true
unfolding is_well_formed domain_anchor
domain_well_formed d h = ground (arith, list_beq_iff seg_domains [], list_beq_iff d.s [])

batches-IsWellFormed :
    (d : DomainName) (tail : List Text)
    → d.s ≢ []
    → All IsNamed tail
    → IsWellFormed (extend_path (batches d) tail)
batches-IsWellFormed d tail n h = record {
  nonempty = rw batches_path (λ e. cc);
  named = rw batches_path ((λ e. cc), (n, ((λ e. cc), h)));
}

batches-Above :
    (d : DomainName) (tail : List Text)
    → Above
        ((domain_anchor d).segments ++ map literal_segment (seg_batches ∷ []))
        (seg_domains ∷ d.s ∷ seg_batches ∷ tail)
unfolding domain_anchor literal_segment Values.string
batches-Above d tail = (inr refl, (inr refl, (inr refl, tt)))

permits_key :
    (d : DomainName) (a : Action) (r : Resource)
    → d.s ≢ []
    → Sends d a r
    → GrantPermits a r (key_grant d)
permits_key d a r named h = record {
  def = sender;
  known = sender_known;
  rule =
      unfold sender in
      inl (record {
        states = inl (sym h.creates);
        reached = rw h.place (
            path_covers-extend (domain_anchor d) (seg_batches ∷ []) (extend_path (batches d) h.tail)
              (unfold domain_anchor in refl) (domain_well_formed d named)
              (batches-IsWellFormed d h.tail named h.named)
              (rw batches_path (batches-Above d h.tail)));
      });
}

-- The Principal of an API Key may do exactly this: create, on the Batches of the key's own Domain
-- or on a named path beneath them.
pub principal-can_iff :
    (k : ApiKey) (p : Principal) (a : Action) (r : Resource)
    → principal k ≡ resolved p
    → (can p a r ≡ true) ↔ Sends k.domain a r
principal-can_iff k p a r h =
    let (grants, named) = principal-grants k p h in
    (
      (λ c. first (subst (Some (GrantPermits a r)) grants (can-Permits p a r c))),
      (λ s.
          Permits-can p a r (
            subst (Some (GrantPermits a r)) (sym grants) (inl (permits_key k.domain a r named s)))),
    )
  where
    first : Some (GrantPermits a r) (key_grant k.domain ∷ []) → Sends k.domain a r
    first (inl g) = key_permits k.domain a r g
    first (inr g) = absurd g

module _ (now later : ℕ) (k : ApiKey) where
  -- A deactivated key is valid at no instant, deactivating it again changes nothing, and its hash,
  -- its Domain and its expiry are what they were.
  pub deactivate_final :
      (is_valid later (deactivate now k) ≡ false)
      × (deactivate later (deactivate now k) ≡ deactivate now k)
      × ((deactivate now k).key_hash ≡ k.key_hash)
      × ((deactivate now k).domain ≡ k.domain)
      × ((deactivate now k).expires_at ≡ k.expires_at)
  unfolding is_valid deactivate
  deactivate_final = ground arith

  -- Validity is only lost with time: a key that is valid at an instant was valid at each before it.
  pub is_valid-earlier : now ≤ later → is_valid later k ≡ true → is_valid now k ≡ true
  unfolding is_valid expired
  is_valid-earlier le h = ground arith
