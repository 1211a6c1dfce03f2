-- ===== src/Authz/Resource.antt =====
-- internal/authz/resource.go: what a request acts on, and the patterns that cover it.
use kannon.Base.{
  Bool, true, false, not, ◌&&◌, ◌||◌, List, [], ◌∷◌, Text, text, length, ltb, ◌==◌, nat_eq, list_eq,
  contains, join, if◌then◌else◌,
}
use kannon.Values
use kannon.Values.{DomainName}

abbrev pub seg_domains : Text
seg_domains = text "domains"

abbrev pub seg_batches : Text
seg_batches = text "batches"

abbrev pub seg_templates : Text
seg_templates = text "templates"

abbrev pub seg_api_keys : Text
seg_api_keys = text "apikeys"

abbrev pub seg_stats : Text
seg_stats = text "stats"

abbrev pub seg_aggregated : Text
seg_aggregated = text "aggregated"

abbrev pub separator : Text
separator = text "/"

abbrev pub wildcard_token : Text
wildcard_token = text "*"

pub record Resource : Type 0 where
  pub segments : List Text

-- `under`: a path beneath one Domain
unfoldable pub under : DomainName → List Text → Resource
unfolding Values.string
under f tail = record { segments = seg_domains ∷ Values.string f ∷ tail }

unfoldable pub domains : Resource
domains = record { segments = seg_domains ∷ [] }

unfoldable pub domain : DomainName → Resource
unfolding Values.string
domain f = record { segments = seg_domains ∷ Values.string f ∷ [] }

unfoldable pub batches : DomainName → Resource
unfolding under
batches f = under f (seg_batches ∷ [])

unfoldable pub templates : DomainName → Resource
unfolding under
templates f = under f (seg_templates ∷ [])

unfoldable pub template : DomainName → Text → Resource
unfolding under
template f id = under f (seg_templates ∷ id ∷ [])

unfoldable pub api_keys : DomainName → Resource
unfolding under
api_keys f = under f (seg_api_keys ∷ [])

unfoldable pub api_key : DomainName → Text → Resource
unfolding under
api_key f id = under f (seg_api_keys ∷ id ∷ [])

unfoldable pub stats : DomainName → Resource
unfolding under
stats f = under f (seg_stats ∷ [])

unfoldable pub aggregated_stats : DomainName → Resource
unfolding under
aggregated_stats f = under f (seg_stats ∷ seg_aggregated ∷ [])

-- `String`, for display
unfoldable pub string : Resource → Text
string r = join separator r.segments

-- `Equal`
unfoldable pub equal : Resource → Resource → Bool
equal r other = r.segments == other.segments

unfoldable pub is_well_formed : Resource → Bool
is_well_formed r = if r.segments == [] then false else not (contains r.segments [])

pub record PatternSegment : Type 0 where
  pub literal : Text
  pub wildcard : Bool

unfoldable pub literal_segment : Text → PatternSegment
literal_segment s = record { literal = s; wildcard = false }

unfoldable pub wildcard_segment : PatternSegment
wildcard_segment = record { literal = wildcard_token; wildcard = true }

unfoldable pub is_literal : PatternSegment → Text → Bool
is_literal s t = not s.wildcard && s.literal == t

pub record Pattern : Type 0 where
  pub everything : Bool
  pub segments : List PatternSegment

-- the loop of `covers`; the length test before it makes the last case unreachable
unfoldable pub covers_segments : List PatternSegment → List Text → Bool
covers_segments [] rs = true
covers_segments (seg ∷ ps) [] = false
covers_segments (seg ∷ ps) (r ∷ rs) =
    let rest = covers_segments ps rs in
    if seg.wildcard then rest else if not (seg.literal == r) then false else rest

unfoldable pub covers : Pattern → Resource → Bool
unfolding is_well_formed covers_segments
covers p r =
    if not (is_well_formed r)
    then false
    else if p.everything
    then true
    else if length p.segments == 0 || ltb (length r.segments) (length p.segments)
    then false
    else covers_segments p.segments r.segments
