-- ===== src/Domains/Ceilings.antt =====
-- What `SetTrackingPolicy` of internal/domains/service.go changes of what each Domain's lookup finds.
use kannon.Base.{
  ℕ, ◌≡◌, refl, ap, ◌∙◌, inl, inr, Option, none, some, List, ◌==◌, nat_eq, list_eq, list_beq_iff,
  Bool-cases, find_first, find_first-some, find_first-update_rows, map_found, arith, if◌then◌else◌,
}
use kannon.Values
use kannon.Values.{DomainName, ParseResult}
use kannon.Tracking.{Policy, normalized}
use kannon.Tracking.Resolution.{normalized-resolve}
use kannon.Storage.{Fetched, failed, found}
use kannon.Domains.{
  Domain, DomainRow, row_to_domain, names, fetched, find_by_name, with_tracking,
  set_domain_tracking,
}

abbrev pub map_domain : (Domain → Domain) → Fetched Domain → Fetched Domain
map_domain f (failed e) = failed e
map_domain f (found d) = found (f d)

abbrev pub governed : Policy → Domain → Domain
governed p d = record d { tracking = normalized p }

module _ (other : ℕ → ℕ) (name m : DomainName) (p : Policy) where
  row_governed :
      (r : DomainRow)
      → row_to_domain other (with_tracking (normalized p) r)
        ≡ map_domain (governed p) (row_to_domain other r)
  unfolding with_tracking row_to_domain
  row_governed r = go (Values.parse other r.domain) refl
    where
      go :
          (o : ParseResult)
          → Values.parse other r.domain ≡ o
          → row_to_domain other (with_tracking (normalized p) r)
            ≡ map_domain (governed p) (row_to_domain other r)
      go (ParseResult.err e) q = rw (q, row_to_domain) refl
      go (ParseResult.ok d) q = rw (q, row_to_domain) (rw (normalized-resolve p p p).1 refl)

  found_row :
      (o : Option DomainRow)
      → ((r : DomainRow) → o ≡ some r → r.domain ≡ m.s)
      → fetched other
          (map_found (λ r. if names name.s r then with_tracking (normalized p) r else r) o)
        ≡ (if m.s == name.s then map_domain (governed p) (fetched other o) else fetched other o)
  unfolding fetched names
  found_row none h = ground arith
  found_row (some r) h = elim (Bool-cases (m.s == name.s)) [
    | inl e ↦ rw e (rw (rw (← h r refl) at e) (row_governed r))
    | inr e ↦ rw e (rw (rw (← h r refl) at e) refl)
  ]

  -- After the write of a Policy on a Domain's name, the lookup of every name finds what it found, with
  -- the normalised Policy under that name and the Policy that it had under every other.
  pub find_by_name-set :
      (rows : List DomainRow)
      → find_by_name other m (set_domain_tracking (normalized p) name rows) ≡ (
          if m.s == name.s
          then map_domain (governed p) (find_by_name other m rows)
          else find_by_name other m rows)
  unfolding find_by_name set_domain_tracking names with_tracking Values.string
  find_by_name-set rows =
      ap (fetched other) (
        find_first-update_rows (names m.s) (names name.s) (with_tracking (normalized p)) rows
          (λ r. refl))
      ∙ found_row (find_first (names m.s) rows)
          (λ r e. (list_beq_iff r.domain m.s).0 (find_first-some (names m.s) rows e).1)
