-- ===== src/Storage.antt =====
-- What the repositories of internal/db answer: an entity or an error. The row of an entity carries its
-- Domain as text, which is parsed again when it is read.
use kannon.Base.{
  ℕ, zero, suc, ◌-◌, ◌%◌, ◌^◌, Option, none, some, List, [], ◌∷◌, take, ltb, if◌then◌else◌,
}
use kannon.Base.Int.{ℤ, pos, negsuc}
use kannon.Values
use kannon.Values.{DomainName, ParseResult}

-- the repository's own errors, and the database's
pub data StoreError : Type 0 where
  not_found aborted refused : StoreError
  not_canonical : Values.ParseError → StoreError

pub data Fetched {ℓ} (T : Type ℓ) : Type ℓ where
  failed : StoreError → Fetched T
  found : T → Fetched T

abbrev pub to_option {ℓ} : {T : Type ℓ} → Fetched T → Option T
to_option (failed e) = none
to_option (found t) = some t

-- the conversion of a Go `int` to `int32`
unfoldable pub int32_of : ℕ → ℤ
int32_of n =
    if ltb (n % 2 ^ 32) (2 ^ 31) then pos (n % 2 ^ 32) else negsuc (2 ^ 32 - 1 - n % 2 ^ 32)

module _ {R : Type 0} where
  unfoldable pub drop : ℕ → List R → List R
  drop zero rows = rows
  drop (suc n) [] = []
  drop (suc n) (r ∷ rows) = drop n rows

  -- LIMIT and OFFSET, which must not be negative
  unfoldable pub page_of : ℤ → ℤ → List R → Option (List R)
  page_of (pos limit) (pos offset) rows = some (take limit (drop offset rows))
  page_of (pos limit) (negsuc offset) rows = none
  page_of (negsuc limit) (pos offset) rows = none
  page_of (negsuc limit) (negsuc offset) rows = none
