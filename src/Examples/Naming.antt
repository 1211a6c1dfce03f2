-- ===== src/Examples/Naming.antt =====
-- Domain names and Tracking Policies at concrete inputs: internal/values and internal/tracking.
use kannon.Base.{
  ℕ, ◌≡◌, refl, ◌↔◌, [], text, contains_text, list_beq, trim_space, trim_left, is_space, byte_len,
  has_prefix, has_suffix,
}
use kannon.Values.{parse, ok, validate, to_lower, check_runes, is_allowed}
use kannon.Values.Canonical.{HasForm, parse-HasForm, parse-parse}
use kannon.Tracking.{no_policy, resolve}
use kannon.Tracking.Ceiling.{ceiling_violations}
use kannon.Tracking.Resolution.{IsResolved, resolve-IsResolved}
use kannon.Tracking.Violations.{IsKept, ceiling_violations_iff}
use kannon.Examples.{acme, anonymous_opens, all_full, identified_links}

-- past the ASCII letters nothing changes
abbrev unchanged : ℕ → ℕ
unchanged r = r

acme_parsed : parse unchanged (text " Acme.TEST") ≡ ok acme
unfolding parse validate list_beq to_lower trim_space trim_left is_space byte_len has_prefix
    has_suffix contains_text check_runes is_allowed
acme_parsed = refl

parse-HasForm_example : HasForm acme
parse-HasForm_example = parse-HasForm unchanged (text " Acme.TEST") acme acme_parsed

parse-parse_example : parse unchanged (text "acme.test") ≡ ok acme
parse-parse_example = parse-parse unchanged (text " Acme.TEST") acme acme_parsed

resolve-IsResolved_example :
    IsResolved
      (resolve anonymous_opens all_full identified_links)
      anonymous_opens
      all_full
      identified_links
resolve-IsResolved_example = resolve-IsResolved anonymous_opens all_full identified_links

ceiling_violations_iff_example : (ceiling_violations anonymous_opens identified_links ≡ []) ↔ (
    IsKept anonymous_opens.opens identified_links.opens
      (resolve anonymous_opens identified_links no_policy).opens
    × IsKept anonymous_opens.links identified_links.links
        (resolve anonymous_opens identified_links no_policy).links)
ceiling_violations_iff_example = ceiling_violations_iff anonymous_opens identified_links
