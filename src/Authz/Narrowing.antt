-- ===== src/Authz/Narrowing.antt =====
-- One Grant narrowed to one Resource: internal/authz/attenuate.go.
use kannon.Base.{
  ℕ, suc, ◌≡◌, ◌≢◌, refl, sym, ap, ◌∙◌, ◌⊎◌, inl, inr, true, false, Option, none, some, List, [],
  ◌∷◌, ◌++◌, map, Text, All, Some, Some-map-All, Some-witness, All-map, All-of_All, and-true,
  length, arith, nat_eq, list_eq, Bool-cases,
}
use mathlib.Core.Path.{subst}
use mathlib.Core.List.{append-nil}
use kannon.Authz.Action.{Action}
use kannon.Authz.Resource.{Resource, PatternSegment, literal_segment, covers}
use kannon.Authz.Anchor.{
  Anchor, AnchorKind, kind_domain, kind_root, kind_other, extend, anchor_of, kind, reaches,
  is_well_formed,
}
use kannon.Authz.Role.{Role, Rule, scope_domain, lookup_role, admits_narrowing_to}
use kannon.Authz.Grant.{Grant}
use kannon.Authz.Attenuate.{narrows}
use kannon.Authz.Coverage.{
  Covers, by_root, by_path, covers-Covers, Covers-covers, IsWellFormed, Above, Above-trans,
  Above-trans_suffix, Above-shorter,
}
use kannon.Authz.Authority.{IsRole, RulePermits, GrantPermits}
use kannon.Authz.Placement.{IsPlaced, suffix_scope}

ne-nil_of_well_formed : (a : Anchor) → is_well_formed a ≡ true → a.segments ≢ []
unfolding is_well_formed
ne-nil_of_well_formed a h e = ground arith

append-ne-nil {ℓ} : {A : Type ℓ} (xs ys : List A) → xs ≢ [] → xs ++ ys ≢ []
append-ne-nil [] ys n e = n refl
append-ne-nil (x ∷ xs) ys n e = cc

extend_of_path :
    (a : Anchor) (suffix : List Text)
    → a.root ≡ false
    → is_well_formed a ≡ true
    → extend a suffix
      ≡ record { everything = false; segments = a.segments ++ map literal_segment suffix }
unfolding extend
extend_of_path a suffix e w = rw (e, w) refl

extend_of_malformed :
    (a : Anchor) (suffix : List Text)
    → a.root ≡ false
    → is_well_formed a ≡ false
    → extend a suffix ≡ record { everything = false; segments = [] }
unfolding extend
extend_of_malformed a suffix e w = rw (e, w) refl

Covers-nothing : (t : Resource) → ¬ Covers (record { everything = false; segments = [] }) t
Covers-nothing t (by_root w e) = cc
Covers-nothing t (by_path w n a) = n refl

path_of_Covers :
    (ps : List PatternSegment) (t : Resource)
    → Covers (record { everything = false; segments = ps }) t
    → IsWellFormed t × Above ps t.segments
path_of_Covers ps t (by_root w e) = cc
path_of_Covers ps t (by_path w n a) = (w, a)

-- The pattern of an Anchor that is not the root is its segments and the suffix.
pub path_of_covers :
    (a : Anchor) (suffix : List Text) (t : Resource)
    → a.root ≡ false
    → covers (extend a suffix) t ≡ true
    → IsWellFormed t
      × (is_well_formed a ≡ true)
      × Above (a.segments ++ map literal_segment suffix) t.segments
path_of_covers a suffix t e h = elim (Bool-cases (is_well_formed a)) [
  | inl w ↦
      let (n, above) =
        path_of_Covers _ t (covers-Covers _ t (rw (extend_of_path a suffix e w) at h)) in
      (n, w, above)
  | inr w ↦
      absurd (Covers-nothing t (covers-Covers _ t (rw (extend_of_malformed a suffix e w) at h)))
]

pub path_covers-extend :
    (a : Anchor) (suffix : List Text) (t : Resource)
    → a.root ≡ false
    → is_well_formed a ≡ true
    → IsWellFormed t
    → Above (a.segments ++ map literal_segment suffix) t.segments
    → covers (extend a suffix) t ≡ true
path_covers-extend a suffix t e w n h = rw (extend_of_path a suffix e w) (
    Covers-covers _ t (
      by_path n (append-ne-nil a.segments (map literal_segment suffix) (ne-nil_of_well_formed a w))
        h))

root_covers :
    (a : Anchor) (t : Resource) → a.root ≡ true → IsWellFormed t → covers (extend a []) t ≡ true
unfolding extend
root_covers a t e n = rw e (Covers-covers _ t (by_root n refl))

domain_length : (a : Anchor) → kind a ≡ kind_domain → (a.root ≡ false) × (length a.segments ≡ 2)
unfolding kind
domain_length a h = ground arith

length-map_literal : (xs : List Text) → length (map literal_segment xs) ≡ length xs
length-map_literal [] = refl
length-map_literal (x ∷ xs) = ap suc (length-map_literal xs)

-- Where an Anchor reaches a path, it reaches all that the Anchor at that path reaches.
pub reaches_through :
    (a : Anchor) (r t : Resource)
    → reaches a r ≡ true
    → covers (extend (anchor_of r) []) t ≡ true
    → covers (extend a []) t ≡ true
unfolding reaches
reaches_through a r t h k =
    let (n, w, below) = path_of_covers (anchor_of r) [] t (unfold anchor_of in refl) k in
    elim (Bool-cases a.root) [
      | inl e ↦ root_covers a t e n
      | inr e ↦
          let (m, v, above) = path_of_covers a [] r e h in
          path_covers-extend a [] t e v n (
            rw append-nil (
              Above-trans a.segments [] r.segments t.segments (rw append-nil at above)
                (unfold anchor_of in below)))
    ]

length-anchor_of : (r : Resource) → length (anchor_of r).segments ≡ length r.segments
unfolding anchor_of
length-anchor_of r = length-map_literal r.segments

-- The same with a Role's suffix, where both Anchors name one Domain or every Domain.
pub reaches_through_suffix :
    (a : Anchor) (r t : Resource) (suffix : List Text)
    → kind a ≡ kind_domain
    → kind (anchor_of r) ≡ kind_domain
    → reaches a r ≡ true
    → covers (extend (anchor_of r) suffix) t ≡ true
    → covers (extend a suffix) t ≡ true
unfolding reaches
reaches_through_suffix a r t suffix ka kr h k =
    let (nr, la) = domain_length a ka in
    let (_, lr) = domain_length (anchor_of r) kr in
    let (n, w, below) = path_of_covers (anchor_of r) suffix t (unfold anchor_of in refl) k in
    let (m, v, above) = path_of_covers a [] r nr h in
    path_covers-extend a suffix t nr v n (
      Above-trans_suffix a.segments (map literal_segment suffix) r.segments t.segments
        (la ∙ sym lr ∙ length-anchor_of r) (rw append-nil at above) (unfold anchor_of in below))

is_domain-eq : (k : AnchorKind) → admits_narrowing_to scope_domain k ≡ true → k ≡ kind_domain
unfolding admits_narrowing_to
is_domain-eq kind_domain h = refl
is_domain-eq kind_root h = ground arith
is_domain-eq kind_other h = ground arith

-- The Grant that `Attenuate` makes of `g` at `r`.
abbrev pub narrowed_grant : Grant → Resource → Grant
narrowed_grant g r = record { role = g.role; anchor = anchor_of r }

-- What a Grant must satisfy to be narrowed to `r`.
pub record Narrows (r : Resource) (g : Grant) : Type 0 where
  pub def : Role
  pub known : IsRole g.role def
  pub reached : reaches g.anchor r ≡ true
  pub admitted : admits_narrowing_to def.scope (kind (anchor_of r)) ≡ true

pub narrows-Narrows : (r : Resource) (g : Grant) → narrows r g ≡ true → Narrows r g
unfolding narrows
narrows-Narrows r g h = go (lookup_role g.role) refl
  where
    go : (o : Option Role) → lookup_role g.role ≡ o → Narrows r g
    go none e = ground arith
    go (some def) e =
        let (reached, admitted) = and-true _ _ (rw (e, narrows) at h) in
        record { def = def; known = e; reached = reached; admitted = admitted }

same_role : (name : List ℕ) {d e : Role} → IsRole name d → IsRole name e → d ≡ e
same_role name p q = cc

rule-Narrows :
    (a : Action) (g : Grant) (r t : Resource)
    → (n : Narrows r g) → IsPlaced g
    → (rl : Rule) → (rl.suffix ≡ []) ⊎ (n.def.scope ≡ scope_domain)
    → RulePermits (anchor_of r) a t rl
    → RulePermits g.anchor a t rl
rule-Narrows a g r t n p rl (inl e) h = record {
  states = h.states;
  reached = rw e (reaches_through g.anchor r t n.reached (rw e at h.reached));
}
rule-Narrows a g r t n p rl (inr e) h =
    let placed =
      subst (λ (d : Role). admits_narrowing_to d.scope (kind g.anchor) ≡ true)
        (same_role g.role p.known n.known) p.admitted in
    record {
      states = h.states;
      reached =
          reaches_through_suffix g.anchor r t rl.suffix
            (is_domain-eq (kind g.anchor) (rw e at placed))
            (is_domain-eq (kind (anchor_of r)) (rw e at n.admitted)) n.reached h.reached;
    }

-- The narrowed Grant permits nothing that the Grant did not.
pub narrowed-GrantPermits :
    (a : Action) (t : Resource) (g : Grant) (r : Resource)
    → Narrows r g
    → IsPlaced g
    → GrantPermits a t (narrowed_grant g r)
    → GrantPermits a t g
narrowed-GrantPermits a t g r n p h =
    let same = same_role g.role h.known n.known in
    record {
      def = n.def;
      known = n.known;
      rule =
          Some-map-All {R = λ rl. (rl.suffix ≡ []) ⊎ (n.def.scope ≡ scope_domain)} n.def.rules
            (rule-Narrows a g r t n p) (cases (suffix_scope g.role n.def n.known))
            (subst (λ (d : Role). Some (RulePermits (anchor_of r) a t) d.rules) same h.rule);
    }
  where
    cases :
        (All (λ (rl : Rule). rl.suffix ≡ []) n.def.rules) ⊎ (n.def.scope ≡ scope_domain)
        → All (λ (rl : Rule). (rl.suffix ≡ []) ⊎ (n.def.scope ≡ scope_domain)) n.def.rules
    cases (inl h) = All-map n.def.rules (λ rl k. inl k) h
    cases (inr e) = All-of_All n.def.rules (λ rl. inr e)

-- What a narrowed Grant permits lies at or beneath the Resource that it was narrowed to.
path_reached_rule :
    (a : Action) (r t : Resource) (rls : List Rule)
    → Some (RulePermits (anchor_of r) a t) rls
    → reaches (anchor_of r) t ≡ true
unfolding reaches
path_reached_rule a r t rls h =
    let (rl, _, k) = Some-witness (RulePermits (anchor_of r) a t) rls h in
    let (n, w, above) =
      path_of_covers (anchor_of r) rl.suffix t (unfold anchor_of in refl) k.reached in
    path_covers-extend (anchor_of r) [] t (unfold anchor_of in refl) w n (
      rw append-nil
        (Above-shorter (anchor_of r).segments (map literal_segment rl.suffix) t.segments above))

pub path_reached :
    (a : Action) (r t : Resource) (g : Grant)
    → GrantPermits a t (narrowed_grant g r)
    → reaches (anchor_of r) t ≡ true
path_reached a r t g h = path_reached_rule a r t h.def.rules h.rule
