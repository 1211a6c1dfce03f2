-- ===== src/Examples/Stores.antt =====
-- The stores at concrete inputs: internal/templates, internal/domains and internal/trackingpb.
use kannon.Base.{
  ℕ, ◌≡◌, refl, some, List, [], ◌∷◌, Text, text, arith, select_rows, nat_eq, list_eq, ◌==◌,
  if◌then◌else◌,
}
use kannon.Authz.Guard.{World}
use kannon.Templates.{TemplateRow, row_template, new_template_id, domain_from_id, domain_of}
use kannon.Templates.Service.{update_template, delete_template}
use kannon.Templates.Identity.{domain_from_id-new_template_id}
use kannon.Templates.Isolation.{OwnsId, elsewhere, templates_elsewhere}
use kannon.Domains.{DomainRow, find_by_name, set_domain_tracking}
use kannon.Tracking.{normalized}
use kannon.Domains.Ceilings.{map_domain, governed, find_by_name-set}
use kannon.Examples.{acme, globex, all_full, identified_links}
use kannon.Examples.Access.{owner}
use kannon.Examples.Keys.{acme-IsCanonical}

abbrev lower : ℕ → ℕ
lower r = r

domain_from_id-new_template_id_example :
    domain_from_id lower (new_template_id (text "c1") acme) ≡ domain_of acme
domain_from_id-new_template_id_example =
    domain_from_id-new_template_id lower (text "c1") acme (ground arith) acme-IsCanonical

abbrev template_of : Text → Text → TemplateRow
template_of id domain = record {
  template_id = id;
  html = text "<p>";
  title = text "Hello";
  domain = domain;
  typ = row_template;
  created_at = 1;
  updated_at = 1;
}

abbrev bodies : World (List TemplateRow)
bodies = record {
  records = [];
  state =
      template_of (text "template_c1@acme.test") (text "acme.test")
      ∷ template_of (text "template_c2@globex.test") (text "globex.test")
      ∷ [];
}

body_1 : OwnsId (template_of (text "template_c1@acme.test") (text "acme.test"))
body_1 = record { front = text "template_c1"; plain = ground arith; composed = refl }

body_2 : OwnsId (template_of (text "template_c2@globex.test") (text "globex.test"))
body_2 = record { front = text "template_c2"; plain = ground arith; composed = refl }

templates_elsewhere_example :
    (select_rows
        (elsewhere acme)
        (update_template lower 9 9
          (some owner)
          acme
          (text "template_c1@acme.test")
          (text "<b>")
          (text "Bye")
          bodies).0.state
      ≡ select_rows (elsewhere acme) bodies.state)
    × (select_rows
          (elsewhere acme)
          (delete_template lower 9 9
            (some owner)
            acme
            (text "template_c1@acme.test")
            bodies).0.state
        ≡ select_rows (elsewhere acme) bodies.state)
templates_elsewhere_example =
    templates_elsewhere lower 9 9 (some owner) acme (text "template_c1@acme.test") (text "<b>")
      (text "Bye") bodies (body_1, (body_2, tt))

abbrev pub acme_domain_row : DomainRow
acme_domain_row = record {
  id = 1;
  domain = text "acme.test";
  dkim_private_key = text "private";
  dkim_public_key = text "public";
  created_at = 1;
  tracking = all_full;
}

find_by_name-set_example :
    find_by_name lower globex
      (set_domain_tracking (normalized identified_links) acme (acme_domain_row ∷ []))
    ≡ (if globex.s == acme.s
        then map_domain
            (governed identified_links)
            (find_by_name lower globex (acme_domain_row ∷ []))
        else find_by_name lower globex (acme_domain_row ∷ []))
find_by_name-set_example =
    find_by_name-set lower acme globex identified_links (acme_domain_row ∷ [])
