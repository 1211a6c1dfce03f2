-- ===== src/Templates.antt =====
-- internal/templates, with the repository of internal/db/templates.go over the table templates of
-- db/schema.sql: the bodies of mail and the operations on them.
pub mod Service
pub mod Identity
pub mod Isolation
use kannon.Base.{
  ℕ, zero, suc, ◌+◌, Bool, true, false, not, ◌&&◌, Option, none, some, List, [], ◌∷◌, ◌++◌, Text,
  text, length, leb, ◌==◌, nat_eq, list_eq, any, find_first, update_rows, delete_rows, select_rows,
  if◌then◌else◌,
}
use kannon.Values
use kannon.Values.{DomainName, ParseResult}
use kannon.Storage.{
  StoreError, not_found, aborted, refused, not_canonical, Fetched, failed, found, int32_of, page_of,
}

-- a Go string type
abbrev pub TemplateType : Type 0
TemplateType = Text

abbrev pub type_transient : TemplateType
type_transient = text "transient"

abbrev pub type_persistent : TemplateType
type_persistent = text "template"

pub record Template : Type 0 where
  pub template_id : Text
  pub html : Text
  pub title : Text
  pub domain : DomainName
  pub typ : TemplateType
  pub created_at : ℕ
  pub updated_at : ℕ

abbrev pub id_separator : ℕ
id_separator = b'@'

-- `newTemplateID`, of what cuid2 generates
unfoldable pub new_template_id : Text → DomainName → Text
new_template_id generated domain =
    text "template_" ++ (generated ++ (id_separator ∷ Values.string domain))

-- `NewPersistent`; the instants are set by the repository
unfoldable pub new_persistent : Text → DomainName → Text → Text → Template
new_persistent generated domain html title = record {
  template_id = new_template_id generated domain;
  html = html;
  title = title;
  domain = domain;
  typ = type_persistent;
  created_at = 0;
  updated_at = 0;
}

-- `NewTransient`
unfoldable pub new_transient : Text → DomainName → Text → Template
new_transient generated domain html = record {
  template_id = new_template_id generated domain;
  html = html;
  title = [];
  domain = domain;
  typ = type_transient;
  created_at = 0;
  updated_at = 0;
}

-- `SetHTML` and `SetTitle`
unfoldable pub set_html : Text → Template → Template
set_html html t = record t { html = html }

unfoldable pub set_title : Text → Template → Template
set_title title t = record t { title = title }

-- `strings.Count` of one rune
unfoldable pub count_rune : ℕ → Text → ℕ
count_rune c [] = 0
count_rune c (r ∷ s) = (if r == c then 1 else 0) + count_rune c s

-- what follows the first separator, as `strings.Cut` gives it
unfoldable pub after_separator : Text → Text
after_separator [] = []
after_separator (r ∷ s) = if r == id_separator then s else after_separator s

pub data IdResult : Type 0 where
  ambiguous : ℕ → IdResult
  no_domain : Values.ParseError → IdResult
  domain_of : DomainName → IdResult

-- `DomainFromID`
unfoldable pub domain_from_id : (ℕ → ℕ) → Text → IdResult
domain_from_id other id =
    if not (count_rune id_separator id == 1)
    then ambiguous (count_rune id_separator id)
    else elim (Values.parse other (after_separator id)) [
      | ParseResult.err e ↦ no_domain e
      | ParseResult.ok domain ↦ domain_of domain
    ]

-- the type of the column
pub data RowType : Type 0 where
  row_transient row_template : RowType

pub record TemplateRow : Type 0 where
  pub template_id : Text
  pub html : Text
  pub title : Text
  pub domain : Text
  pub typ : RowType
  pub created_at : ℕ
  pub updated_at : ℕ

unfoldable pub to_row_type : TemplateType → RowType
to_row_type t =
    if t == type_transient
    then row_transient
    else if t == type_persistent
    then row_template
    else row_transient

unfoldable pub from_row_type : RowType → TemplateType
from_row_type row_transient = type_transient
from_row_type row_template = type_persistent

-- `rowToTemplate`, with `Load`
unfoldable pub row_to_template : (ℕ → ℕ) → TemplateRow → Fetched Template
row_to_template other r = elim (Values.parse other r.domain) [
  | ParseResult.err e ↦ failed (not_canonical e)
  | ParseResult.ok domain ↦ found (record {
    template_id = r.template_id;
    html = r.html;
    title = r.title;
    domain = domain;
    typ = from_row_type r.typ;
    created_at = r.created_at;
    updated_at = r.updated_at;
  })
]

-- the row that `createTemplate` inserts
unfoldable pub new_row : ℕ → Template → TemplateRow
new_row now t = record {
  template_id = t.template_id;
  html = t.html;
  title = t.title;
  domain = Values.string t.domain;
  typ = to_row_type t.typ;
  created_at = now;
  updated_at = now;
}

-- `Create`: the widths of the columns; the row is read back
unfoldable pub create :
    (ℕ → ℕ) → ℕ → Template → List TemplateRow → List TemplateRow × Fetched Template
create other now t rows =
    if leb (length t.title) 200 && leb (length (Values.string t.domain)) 254
    then (rows ++ new_row now t ∷ [], row_to_template other (new_row now t))
    else (rows, failed refused)

unfoldable pub has_id : Text → TemplateRow → Bool
has_id template_id r = r.template_id == template_id

unfoldable pub has_id_in : Text → Text → TemplateRow → Bool
has_id_in template_id domain r = r.template_id == template_id && r.domain == domain

unfoldable pub fetched : (ℕ → ℕ) → Option TemplateRow → Fetched Template
fetched other none = failed not_found
fetched other (some r) = row_to_template other r

-- `GetByID`
unfoldable pub get_by_id : (ℕ → ℕ) → Text → List TemplateRow → Fetched Template
get_by_id other template_id rows = fetched other (find_first (has_id template_id) rows)

-- `FindByDomain`
unfoldable pub find_by_domain : (ℕ → ℕ) → DomainName → Text → List TemplateRow → Fetched Template
find_by_domain other domain template_id rows =
    fetched other (find_first (has_id_in template_id (Values.string domain)) rows)

-- the write of `updateTemplate` at an instant
unfoldable pub written_row : ℕ → Template → TemplateRow → TemplateRow
written_row now t r = record r { html = t.html; title = t.title; updated_at = now }

unfoldable pub write :
    (ℕ → ℕ) → ℕ → Template → List TemplateRow → List TemplateRow × Fetched Template
write other now t rows =
    let written = update_rows (has_id t.template_id) (written_row now t) rows in
    (written, get_by_id other t.template_id written)

-- `Update`; `none` of the function is its error
unfoldable pub update :
    (ℕ → ℕ)
    → ℕ
    → Text
    → (Template → Option Template)
    → List TemplateRow
    → List TemplateRow × Fetched Template
update other now template_id fn rows = elim (get_by_id other template_id rows) [
  | failed e ↦ (rows, failed e)
  | found current ↦ elim (fn current) [
    | none ↦ (rows, failed aborted)
    | some changed ↦ write other now changed rows
  ]
]

-- `Delete`, which answers with the row that it removed
unfoldable pub delete : (ℕ → ℕ) → Text → List TemplateRow → List TemplateRow × Fetched Template
delete other template_id rows =
    (delete_rows (has_id template_id) rows, get_by_id other template_id rows)

unfoldable pub is_template : RowType → Bool
is_template row_transient = false
is_template row_template = true

unfoldable pub listed : Text → TemplateRow → Bool
listed domain r = r.domain == domain && is_template r.typ

-- `Count`
unfoldable pub count : DomainName → List TemplateRow → ℕ
count domain rows = length (select_rows (listed (Values.string domain)) rows)

pub record Pagination : Type 0 where
  pub skip : ℕ
  pub take : ℕ

unfoldable pub prepend : Template → Fetched (List Template) → Fetched (List Template)
prepend t (failed e) = failed e
prepend t (found ts) = found (t ∷ ts)

-- the loop of `List`
unfoldable pub rows_to_templates : (ℕ → ℕ) → List TemplateRow → Fetched (List Template)
rows_to_templates other [] = found []
rows_to_templates other (r ∷ rows) =
    let rest = rows_to_templates other rows in
    elim (row_to_template other r) [ failed e ↦ failed e | found t ↦ prepend t rest ]

-- `List`, over rows that stand in the order of their identifiers
unfoldable pub list_templates :
    (ℕ → ℕ) → DomainName → Pagination → List TemplateRow → Fetched (List Template)
list_templates other domain page rows =
    elim (page_of (int32_of page.take) (int32_of page.skip)
      (select_rows (listed (Values.string domain)) rows)) [
        | none ↦ failed refused
        | some page_rows ↦ rows_to_templates other page_rows
      ]
