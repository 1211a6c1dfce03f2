-- ===== src/LinkTokens.antt =====
-- internal/statssec/keys.go: the claims that a tracking token is minted with. Signing is left out.
use kannon.Base.{ℕ, not, Option, none, some, List, [], ◌∷◌, Text, text, if◌then◌else◌}
use kannon.Base.Int.{ℤ, pos, ◌+ℤ◌}
use kannon.Tracking.{Mode, identifies_recipient, isolates_recipient}
use kannon.Tracking.Identity.{anonymous_identity, is_pseudonym}

-- the Domain that a message id names by the expression of internal/utils/message.go, and the fold of
-- the runes past ASCII
pub record Names : Type 0 where
  pub domain_of : Text → Option Text
  pub fold : ℕ → ℕ

-- three months
abbrev pub token_expire_period : ℤ
token_expire_period = pos 7776000000000000

pub record RegisteredClaims : Type 0 where
  pub expires_at : ℤ
  pub audience : List Text
  pub issued_at : ℤ

pub record OpenClaims : Type 0 where
  pub message_id : Text
  pub email : Text
  pub mode : Mode
  pub registered : RegisteredClaims

pub record LinkClaims : Type 0 where
  pub message_id : Text
  pub email : Text
  pub url : Text
  pub mode : Mode
  pub registered : RegisteredClaims

module _ (o : Names) where
  -- `identityUnder`, where `none` is an error
  unfoldable pub identity_under : Mode → Text → Text → Option Text
  identity_under mode offered message_id =
      if identifies_recipient mode then some offered else elim (o.domain_of message_id) [
        | none ↦ none
        | some domain ↦
            if not (isolates_recipient mode)
            then some (anonymous_identity domain)
            else if not (is_pseudonym o.fold offered domain)
            then none
            else some offered
      ]

  unfoldable pub registered_at : ℤ → Text → RegisteredClaims
  registered_at now audience = record {
    expires_at = now +ℤ token_expire_period;
    audience = audience ∷ [];
    issued_at = now;
  }

  -- the claims of `createOpenToken`
  unfoldable pub open_claims : ℤ → Text → Text → Mode → Option OpenClaims
  open_claims now message_id offered mode = elim (identity_under mode offered message_id) [
    | none ↦ none
    | some identity ↦ some (record {
      message_id = message_id;
      email = identity;
      mode = mode;
      registered = registered_at now (text "stats:open");
    })
  ]

  -- the claims of `createLinkToken`
  unfoldable pub link_claims : ℤ → Text → Text → Text → Mode → Option LinkClaims
  link_claims now message_id offered url mode = elim (identity_under mode offered message_id) [
    | none ↦ none
    | some identity ↦ some (record {
      message_id = message_id;
      email = identity;
      url = url;
      mode = mode;
      registered = registered_at now (text "stats:link");
    })
  ]
