-- ===== src/Authz/Anchor.antt =====
-- internal/authz/anchor.go: where a Grant fixes its Role.
use kannon.Base.{
  Bool, true, false, not, ◌&&◌, List, [], ◌∷◌, ◌++◌, map, Text, length, ◌==◌, nat_eq, list_eq, join,
  if◌then◌else◌,
}
use kannon.Values
use kannon.Values.{DomainName}
use kannon.Authz.Resource.{
  Resource, PatternSegment, Pattern, literal_segment, wildcard_segment, is_literal, seg_domains,
  separator, wildcard_token, covers,
}

pub record Anchor : Type 0 where
  pub root : Bool
  pub segments : List PatternSegment

unfoldable pub root_anchor : Anchor
root_anchor = record { root = true; segments = [] }

unfoldable pub domain_anchor : DomainName → Anchor
unfolding literal_segment Values.string
domain_anchor f = record {
  root = false;
  segments = literal_segment seg_domains ∷ literal_segment (Values.string f) ∷ [];
}

unfoldable pub all_domains_anchor : Anchor
unfolding literal_segment wildcard_segment
all_domains_anchor = record {
  root = false;
  segments = literal_segment seg_domains ∷ wildcard_segment ∷ [];
}

unfoldable pub anchor_of : Resource → Anchor
unfolding literal_segment
anchor_of r = record { root = false; segments = map literal_segment r.segments }

-- `String`, for display
unfoldable pub string : Anchor → Text
string a = if a.root then wildcard_token else join separator (map (λ s. s.literal) a.segments)

pub data AnchorKind : Type 0 where
  kind_other kind_root kind_domain : AnchorKind

-- the loop of `isWellFormed`
unfoldable pub all_named : List PatternSegment → Bool
all_named [] = true
all_named (s ∷ rest) = if s.literal == [] then false else all_named rest

unfoldable pub is_well_formed : Anchor → Bool
unfolding all_named
is_well_formed a = if length a.segments == 0 then false else all_named a.segments

unfoldable pub first_is_literal : List PatternSegment → Text → Bool
unfolding is_literal
first_is_literal [] t = false
first_is_literal (s ∷ rest) t = is_literal s t

unfoldable pub kind : Anchor → AnchorKind
unfolding is_well_formed first_is_literal
kind a =
    if a.root
    then kind_root
    else if not (is_well_formed a)
    then kind_other
    else if length a.segments == 2 && first_is_literal a.segments seg_domains
    then kind_domain
    else kind_other

unfoldable pub is_grantable : AnchorKind → Bool
is_grantable kind_root = true
is_grantable kind_domain = true
is_grantable kind_other = false

unfoldable pub names_domains_collection : Anchor → Bool
unfolding first_is_literal
names_domains_collection a =
    not a.root && length a.segments == 1 && first_is_literal a.segments seg_domains

unfoldable pub extend : Anchor → List Text → Pattern
unfolding is_well_formed literal_segment
extend a suffix =
    if not a.root && not (is_well_formed a)
    then record { everything = false; segments = [] }
    else if a.root && length suffix == 0
    then record { everything = true; segments = [] }
    else record { everything = false; segments = a.segments ++ map literal_segment suffix }

-- the Anchor's `covers`
unfoldable pub reaches : Anchor → Resource → Bool
reaches a r = covers (extend a []) r
