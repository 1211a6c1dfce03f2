-- ===== src/Templates/Isolation.antt =====
-- What the operations of internal/templates/service.go leave of other Domains' rows.
use kannon.Base.{
  ℕ, ◌≡◌, refl, sym, ap, ◌∙◌, ◌⊎◌, inl, inr, Bool, true, false, not, Option, List, [], ◌∷◌, ◌++◌,
  Text, All, In-All, In, arith, ◌==◌, nat_eq, list_eq, list_beq_iff, Option-cases, find_first,
  find_first-some, update_rows, select_rows, select-update_rows, select-delete_rows,
}
use kannon.Values
use kannon.Values.{DomainName, ParseResult}
use kannon.Storage.{StoreError, Fetched, failed, found}
use kannon.Authz.Action.{Action}
use kannon.Authz.Resource.{Resource}
use kannon.Authz.Principal.{Principal}
use kannon.Authz.Guard.{World, guard, record_decision}
use kannon.Authz.Guard
use kannon.Authz.Enforcement.{guard_cases}
use kannon.Templates.{
  Template, TemplateRow, row_to_template, has_id, has_id_in, fetched, get_by_id, find_by_domain,
  written_row, write, update, delete, id_separator, after_separator, set_html, set_title,
}
use kannon.Templates.Service.{
  TemplateOperation, answered, rewrite, update_unguarded, delete_unguarded, update_template,
  delete_template,
}
use kannon.Templates.Identity.{NoSeparator, after-append}

-- The identifier of a row ends in the Domain that the row belongs to.
pub record OwnsId (r : TemplateRow) : Type 0 where
  pub front : Text
  pub plain : NoSeparator front
  pub composed : r.template_id ≡ front ++ (id_separator ∷ r.domain)

same_domain :
    (a b : TemplateRow) → OwnsId a → OwnsId b → a.template_id ≡ b.template_id → a.domain ≡ b.domain
same_domain a b x y e =
    sym (ap after_separator x.composed ∙ after-append x.front a.domain x.plain)
    ∙ ap after_separator e
    ∙ (ap after_separator y.composed ∙ after-append y.front b.domain y.plain)

-- the rows of every Domain but one
abbrev pub elsewhere : DomainName → TemplateRow → Bool
elsewhere d r = not (r.domain == d.s)

has_id_in_iff :
    (template_id domain : Text) (r : TemplateRow)
    → has_id_in template_id domain r ≡ true
    → (r.template_id ≡ template_id) × (r.domain ≡ domain)
unfolding has_id_in
has_id_in_iff template_id domain r h =
    ground (arith, list_beq_iff r.template_id template_id, list_beq_iff r.domain domain)

has_id_iff :
    (template_id : Text) (r : TemplateRow)
    → has_id template_id r ≡ true
    → r.template_id ≡ template_id
unfolding has_id
has_id_iff template_id r h = (list_beq_iff r.template_id template_id).0 h

module _ (other : ℕ → ℕ) (d : DomainName) (template_id : Text) (rows : List TemplateRow)
    (owned : All OwnsId rows) where
  -- the row behind the Template that `FindByDomain` found
  located :
      {t : Template}
      → find_by_domain other d template_id rows ≡ found t
      → (r : TemplateRow) × In rows r × (r.template_id ≡ template_id) × (r.domain ≡ d.s)
  unfolding find_by_domain fetched Values.string
  located {t} h = elim (Option-cases (find_first (has_id_in template_id d.s) rows)) [
    | inl e ↦ absurd (cc (rw (e, fetched) at h))
    | inr (r, e) ↦
        let (held, named) = find_first-some (has_id_in template_id d.s) rows e in
        let (same, domain) = has_id_in_iff template_id d.s r named in (r, held, same, domain)
  ]

  -- Where the identifier is one of the Domain's, each row that has it is.
  inside :
      {t : Template}
      → find_by_domain other d template_id rows ≡ found t
      → (x : TemplateRow) → In rows x
      → has_id template_id x ≡ true
      → elsewhere d x ≡ false
  inside h x m e =
      let (r, held, same, domain) = located h in
      let here : x.domain ≡ d.s =
        same_domain x r (In-All OwnsId rows x m owned) (In-All OwnsId rows r held owned)
          (has_id_iff template_id x e ∙ sym same)
        ∙ domain in
      ground (arith, list_beq_iff x.domain d.s)

  written_elsewhere :
      (now : ℕ) (t : Template)
      → ((x : TemplateRow) → In rows x → has_id template_id x ≡ true → elsewhere d x ≡ false)
      → select_rows (elsewhere d) (update_rows (has_id template_id) (written_row now t) rows)
        ≡ select_rows (elsewhere d) rows
  unfolding written_row
  written_elsewhere now t h =
      select-update_rows (elsewhere d) (has_id template_id) (written_row now t) rows
        (λ x m e. (h x m e, h x m e))

row_to_template-template_id :
    (other : ℕ → ℕ) (r : TemplateRow) {t : Template}
    → row_to_template other r ≡ found t
    → t.template_id ≡ r.template_id
unfolding row_to_template
row_to_template-template_id other r {t} h = go (Values.parse other r.domain) refl
  where
    go : (o : ParseResult) → Values.parse other r.domain ≡ o → t.template_id ≡ r.template_id
    go (ParseResult.err e) q = absurd (cc (rw (q, row_to_template) at h))
    go (ParseResult.ok d) q = ap (λ o. get_id o) (sym (rw (q, row_to_template) at h))
      where
        get_id : Fetched Template → Text
        get_id (failed e) = []
        get_id (found x) = x.template_id

get_by_id-template_id :
    (other : ℕ → ℕ) (template_id : Text) (rows : List TemplateRow) {t : Template}
    → get_by_id other template_id rows ≡ found t
    → t.template_id ≡ template_id
unfolding get_by_id fetched
get_by_id-template_id other template_id rows {t} h =
    elim (Option-cases (find_first (has_id template_id) rows)) [
      | inl e ↦ absurd (cc (rw (e, fetched) at h))
      | inr (r, e) ↦
          row_to_template-template_id other r {t = t} (rw (e, fetched) at h)
          ∙ has_id_iff template_id r (find_first-some (has_id template_id) rows e).1
    ]

-- What `Update` with the function of `UpdateTemplate` makes of the table: nothing, or a write of the
-- rows that have the identifier.
update_cases :
    (other : ℕ → ℕ) (now : ℕ) (template_id html title : Text) (rows : List TemplateRow)
    → ((update other now template_id (rewrite html title) rows).0 ≡ rows)
      ⊎ ((t : Template) × ((update other now template_id (rewrite html title) rows).0
            ≡ update_rows (has_id template_id) (written_row now t) rows))
unfolding update rewrite write set_title set_html
update_cases other now template_id html title rows = go (get_by_id other template_id rows) refl
  where
    go :
        (o : Fetched Template)
        → get_by_id other template_id rows ≡ o
        → ((update other now template_id (rewrite html title) rows).0 ≡ rows)
          ⊎ ((t : Template) × ((update other now template_id (rewrite html title) rows).0
                ≡ update_rows (has_id template_id) (written_row now t) rows))
    go (failed e) q = inl (rw (q, update) refl)
    go (found t) q = inr (
      set_title title (set_html html t),
      rw (q, update)
          (ap
            (λ id.
              update_rows (has_id id) (written_row now (set_title title (set_html html t))) rows)
            (get_by_id-template_id other template_id rows q)),
    )

module _ (other : ℕ → ℕ) (now : ℕ) (at : ℕ) (ctx : Option Principal) (d : DomainName)
    (template_id : Text) where
  -- the rows elsewhere after an operation that finds the Template in its Domain before it writes
  guard-elsewhere :
      {T : Type 0} (a : Action) (r : Resource) (fn : TemplateOperation T)
      (w : World (List TemplateRow))
      → ((x : World (List TemplateRow))
          → All OwnsId x.state
          → select_rows (elsewhere d) (fn x).0.state ≡ select_rows (elsewhere d) x.state)
      → All OwnsId w.state
      → select_rows (elsewhere d) (guard at ctx a r fn w).0.state
        ≡ select_rows (elsewhere d) w.state
  unfolding record_decision
  guard-elsewhere {T} a r fn w run owned = elim (guard_cases at ctx a r fn w) [
    | inl (e, refused, same) ↦ ap (select_rows (elsewhere d)) same
    | inr (decided, ran) ↦
        ap
          (λ (o : World (List TemplateRow) × Guard.Result StoreError T).
            select_rows (elsewhere d) o.0.state)
          ran
        ∙ run (record_decision decided w) owned
  ]

  update_elsewhere :
      (html title : Text) (w : World (List TemplateRow))
      → All OwnsId w.state
      → select_rows (elsewhere d) (update_unguarded other now d template_id html title w).0.state
        ≡ select_rows (elsewhere d) w.state
  unfolding update_unguarded answered
  update_elsewhere html title w owned = go (find_by_domain other d template_id w.state) refl
    where
      go :
          (o : Fetched Template)
          → find_by_domain other d template_id w.state ≡ o
          → select_rows
              (elsewhere d)
              (update_unguarded other now d template_id html title w).0.state
            ≡ select_rows (elsewhere d) w.state
      go (failed e) q = rw (q, update_unguarded) refl
      go (found t) q =
          rw (q, update_unguarded)
            (elim (update_cases other now template_id html title w.state) [
              | inl same ↦ ap (select_rows (elsewhere d)) same
              | inr (x, same) ↦
                  ap (select_rows (elsewhere d)) same
                  ∙ written_elsewhere other d template_id w.state owned now x
                      (inside other d template_id w.state owned q)
            ])

  delete_elsewhere :
      (w : World (List TemplateRow))
      → All OwnsId w.state
      → select_rows (elsewhere d) (delete_unguarded other now d template_id w).0.state
        ≡ select_rows (elsewhere d) w.state
  unfolding delete_unguarded answered delete
  delete_elsewhere w owned = go (find_by_domain other d template_id w.state) refl
    where
      go :
          (o : Fetched Template)
          → find_by_domain other d template_id w.state ≡ o
          → select_rows (elsewhere d) (delete_unguarded other now d template_id w).0.state
            ≡ select_rows (elsewhere d) w.state
      go (failed e) q = rw (q, delete_unguarded) refl
      go (found t) q =
          rw (q, delete_unguarded)
            (select-delete_rows (elsewhere d) (has_id template_id) w.state
              (inside other d template_id w.state owned q))

  -- Where every row's identifier ends in the row's own Domain, updating or deleting a Template of one
  -- Domain leaves the rows of every other Domain as they were, whoever asks and whatever the answer.
  pub templates_elsewhere :
      (html title : Text) (w : World (List TemplateRow))
      → All OwnsId w.state
      → (select_rows
            (elsewhere d)
            (update_template other now at ctx d template_id html title w).0.state
          ≡ select_rows (elsewhere d) w.state)
        × (select_rows (elsewhere d) (delete_template other now at ctx d template_id w).0.state
            ≡ select_rows (elsewhere d) w.state)
  unfolding update_template delete_template
  templates_elsewhere html title w owned = (
    guard-elsewhere _ _ (update_unguarded other now d template_id html title) w
        (λ x h. update_elsewhere html title x h) owned,
    guard-elsewhere _ _ (delete_unguarded other now d template_id) w (λ x h. delete_elsewhere x h)
        owned,
  )
