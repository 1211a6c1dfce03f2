-- ===== src/Templates/Service.antt =====
-- internal/templates/service.go: the operations on Templates, each behind its check.
use kannon.Base.{ℕ, Option, some, List, Text}
use kannon.Values.{DomainName}
use kannon.Storage.{StoreError, Fetched, failed, found}
use kannon.Authz.Action
use kannon.Authz.Resource
use kannon.Authz.Principal.{Principal}
use kannon.Authz.Guard.{World, Operation, from_operation, guard}
use kannon.Authz.Guard
use kannon.Templates.{
  Template, TemplateRow, Pagination, new_persistent, find_by_domain, list_templates, count,
  set_html, set_title,
}
use kannon.Templates

abbrev pub TemplateOperation : Type 0 → Type 0
TemplateOperation T = Operation (List TemplateRow) StoreError T

unfoldable pub answer : {T : Type 0} → Fetched T → Guard.Result StoreError T
answer (failed e) = Guard.Result.err (from_operation e)
answer (found t) = Guard.Result.ok t

unfoldable pub answered :
    {T : Type 0}
    → World (List TemplateRow)
    → List TemplateRow × Fetched T
    → World (List TemplateRow) × Guard.Result StoreError T
answered w (rows, result) = (record w { state = rows }, answer result)

-- the function that `UpdateTemplate` gives to the repository
unfoldable pub rewrite : Text → Text → Template → Option Template
rewrite html title t = some (set_title title (set_html html t))

-- the lower case of the runes past ASCII, and the clock of the database
module _ (other : ℕ → ℕ) (now : ℕ) where
  -- `CreateTemplate`
  unfoldable pub create_template :
      ℕ → Option Principal → Text → DomainName → Text → Text → TemplateOperation Template
  create_template at ctx generated domain html title =
      guard at ctx Action.create (Resource.templates domain) (λ w.
        answered w
          (Templates.create other now (new_persistent generated domain html title) w.state))

  -- the function that `GetTemplates` guards
  unfoldable pub list_unguarded : DomainName → Pagination → TemplateOperation (List Template × ℕ)
  list_unguarded domain page w = elim (list_templates other domain page w.state) [
    | failed e ↦ (w, answer (failed e))
    | found ts ↦ (w, Guard.Result.ok (ts, count domain w.state))
  ]

  -- `GetTemplates`
  unfoldable pub get_templates :
      ℕ → Option Principal → DomainName → Pagination → TemplateOperation (List Template × ℕ)
  get_templates at ctx domain page =
      guard at ctx Action.list (Resource.templates domain) (list_unguarded domain page)

  -- `GetTemplate`
  unfoldable pub get_template :
      ℕ → Option Principal → DomainName → Text → TemplateOperation Template
  get_template at ctx domain template_id =
      guard at ctx Action.read (Resource.template domain template_id)
        (λ w. (w, answer (find_by_domain other domain template_id w.state)))

  -- the function that `UpdateTemplate` guards
  unfoldable pub update_unguarded : DomainName → Text → Text → Text → TemplateOperation Template
  update_unguarded domain template_id html title w =
      elim (find_by_domain other domain template_id w.state) [
        | failed e ↦ (w, answer (failed e))
        | found t ↦ answered w (Templates.update other now template_id (rewrite html title) w.state)
      ]

  -- `UpdateTemplate`
  unfoldable pub update_template :
      ℕ → Option Principal → DomainName → Text → Text → Text → TemplateOperation Template
  update_template at ctx domain template_id html title =
      guard at ctx Action.update (Resource.template domain template_id)
        (update_unguarded domain template_id html title)

  -- the function that `DeleteTemplate` guards
  unfoldable pub delete_unguarded : DomainName → Text → TemplateOperation Template
  delete_unguarded domain template_id w = elim (find_by_domain other domain template_id w.state) [
    | failed e ↦ (w, answer (failed e))
    | found t ↦ answered w (Templates.delete other template_id w.state)
  ]

  -- `DeleteTemplate`
  unfoldable pub delete_template :
      ℕ → Option Principal → DomainName → Text → TemplateOperation Template
  delete_template at ctx domain template_id =
      guard at ctx Action.delete (Resource.template domain template_id)
        (delete_unguarded domain template_id)
