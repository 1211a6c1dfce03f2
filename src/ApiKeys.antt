-- ===== src/ApiKeys.antt =====
-- internal/apikeys: the credentials that send for a Domain.
pub mod Authority
pub mod Store
pub mod Service
pub mod Views
pub mod Refinement
pub mod Runs
pub mod Invariants
pub mod Authentication
pub mod Revocation
pub mod Separation
use kannon.Base.{
  ℕ, Bool, true, false, not, ◌&&◌, ◌||◌, Option, none, some, List, [], ◌∷◌, ◌++◌, ◌%◌, map, get_or,
  Text, text, take, byte_len, has_prefix, ltb, leb, ◌==◌, nat_eq, list_eq, if◌then◌else◌,
}
use kannon.Values
use kannon.Values.{DomainName}
use kannon.Authz.Anchor.{domain_anchor}
use kannon.Authz.Role.{role_sender}
use kannon.Authz.Grant
use kannon.Authz.Grant.{Grant, GrantResult, GrantError, new_grant}
use kannon.Authz.Principal.{Principal, new_principal}

abbrev pub id_prefix : Text
id_prefix = text "key_"

abbrev pub masked_key_length : ℕ
masked_key_length = 8

pub record ApiKey : Type 0 where
  pub id : Text
  pub key_hash : Text
  pub key_prefix : Text
  pub name : Text
  pub domain : DomainName
  pub created_at : ℕ
  pub expires_at : Option ℕ
  pub is_active : Bool
  pub deactivated_at : Option ℕ

pub data KeyError : Type 0 where
  name_required name_too_long expires_in_past : KeyError
  id_required id_format : KeyError

pub data Result {ℓ} (T : Type ℓ) : Type ℓ where
  err : KeyError → Result T
  ok : T → Result T

infixl 5 ◌>>=◌
infixl 5 ◌>>◌
-- an early return of an error
abbrev pub ◌>>=◌ {ℓ κ} : {T : Type ℓ} {U : Type κ} → Result T → (T → Result U) → Result U
first >>= after = elim first [ err reason ↦ err reason | ok value ↦ after value ]

abbrev pub ◌>>◌ {ℓ} : {U : Type ℓ} → Result (Unit {0}) → Result U → Result U
check >> after = elim check [ err reason ↦ err reason | ok _ ↦ after ]

unfoldable pub parse_id : Text → Result Text
parse_id s =
    if s == []
    then err id_required
    else if not (has_prefix s id_prefix)
    then err id_format
    else ok s

unfoldable pub validate_name : Text → Result (Unit {0})
validate_name name =
    if name == []
    then err name_required
    else if ltb 100 (byte_len name)
    then err name_too_long
    else ok tt

-- `Before` on instants
unfoldable pub validate_expires_at : ℕ → Option ℕ → Result (Unit {0})
validate_expires_at now none = ok tt
validate_expires_at now (some t) = if ltb t now then err expires_in_past else ok tt

pub record CreateResult : Type 0 where
  pub key : ApiKey
  pub plaintext_key : Text

abbrev pub key_prefix_text : Text
key_prefix_text = text "k_"

abbrev pub charset : Text
charset = text "abcdefghijklmnopqrstuvwxyzABCDEFGHIJKLMNOPQRSTUVWXYZ0123456789"

-- `generateKey`, of the `keyLength` bytes that `rand.Read` gives
unfoldable pub generate_key : List ℕ → Text
generate_key random = key_prefix_text ++ map (λ b. get_or charset (b % 62) 0) random

-- `NewAPIKey`. SHA-256 in hexadecimal, the identifier that cuid2 generates, the instant and the
-- random bytes come from outside.
unfoldable pub new_api_key :
    (Text → Text) → ℕ → Text → List ℕ → DomainName → Text → Option ℕ → Result CreateResult
new_api_key hash_key now id random domain name expires_at = do
  validate_name name
  validate_expires_at now expires_at
  let plaintext = generate_key random
  ok (record {
    key = record {
      id = id;
      key_hash = hash_key plaintext;
      key_prefix = take masked_key_length plaintext;
      name = name;
      domain = domain;
      created_at = now;
      expires_at = expires_at;
      is_active = true;
      deactivated_at = none;
    };
    plaintext_key = plaintext;
  })

unfoldable pub masked_key : ApiKey → Text
masked_key k = k.key_prefix ++ text "..."

unfoldable pub expired : ℕ → Option ℕ → Bool
expired now none = false
expired now (some t) = ltb t now

unfoldable pub is_valid : ℕ → ApiKey → Bool
is_valid now k = if not k.is_active then false else if expired now k.expires_at then false else true

unfoldable pub is_expired : ℕ → ApiKey → Bool
is_expired now k = expired now k.expires_at

unfoldable pub deactivate : ℕ → ApiKey → ApiKey
deactivate now k =
    if k.is_active then record k { is_active = false; deactivated_at = some now } else k

-- The errors of `Principal`: the Grant's, and the blank identifier of `NewPrincipal`.
pub data PrincipalResult : Type 0 where
  resolved : Principal → PrincipalResult
  not_granted : GrantError → PrincipalResult
  blank_id : PrincipalResult

unfoldable pub named_principal : Text → Grant → PrincipalResult
named_principal id g = elim (new_principal id (g ∷ [])) [ none ↦ blank_id | some p ↦ resolved p ]

unfoldable pub principal : ApiKey → PrincipalResult
unfolding named_principal
principal k = elim (new_grant role_sender (domain_anchor k.domain)) [
  | GrantResult.err e ↦ not_granted e
  | GrantResult.ok g ↦ named_principal (k.id ++ (text "@" ++ Values.string k.domain)) g
]
