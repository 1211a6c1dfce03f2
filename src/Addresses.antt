-- ===== src/Addresses.antt =====
-- internal/smtp/utils.go: the halves of an address. The pattern of an address is a parameter.
use kannon.Base.{Bool, not, Option, none, some, [], ◌∷◌, Text, ◌==◌, nat_eq, if◌then◌else◌}

-- the rest of a text after the first `@`, as `strings.SplitN` parts it in two; `none` is one part
unfoldable pub after_at : Text → Option Text
after_at [] = none
after_at (r ∷ s) = if r == b'@' then some s else after_at s

-- `GetEmailDomain`, the second half of `SplitEmail`; `none` is the error
unfoldable pub get_email_domain : (Text → Bool) → Text → Option Text
get_email_domain matches addr = if not (matches addr) then none else after_at addr
