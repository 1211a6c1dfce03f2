-- ===== src/Envelope/SharedTokens.antt =====
-- internal/envelope/sharedtokens.go: the cache of the tokens that name no Recipient.
pub mod Stability
use kannon.Base.{
  ℕ, ◌+◌, Bool, true, false, ◌&&◌, Option, none, some, List, [], ◌∷◌, Text, Comparable, ◌==◌, ◌≡◌,
  ◌↔◌, nat_eq, list_eq, leb, length, lookup, put, if◌then◌else◌, refl, arith, list_beq_iff,
}
use kannon.Tracking.{Mode}
use kannon.Tracking.Ceiling.{Axis, axis_opens, axis_links}

-- `sharedTokenGeneration`
abbrev pub shared_token_generation : ℕ
shared_token_generation = 1024

pub record SharedTokenKey : Type 0 where
  pub axis : Axis
  pub domain : Text
  pub message_id : Text
  pub url : Text
  pub mode : Mode

unfoldable pub axis_beq : Axis → Axis → Bool
axis_beq axis_opens axis_opens = true
axis_beq axis_links axis_links = true
axis_beq _ _ = false

pub axis_beq_iff : (x y : Axis) → (axis_beq x y ≡ true) ↔ (x ≡ y)
unfolding axis_beq
axis_beq_iff axis_opens axis_opens = ground arith
axis_beq_iff axis_opens axis_links = ground arith
axis_beq_iff axis_links axis_opens = ground arith
axis_beq_iff axis_links axis_links = ground arith

unfoldable pub key_beq : SharedTokenKey → SharedTokenKey → Bool
key_beq j k =
    axis_beq j.axis k.axis
    && j.domain == k.domain
    && j.message_id == k.message_id
    && j.url == k.url
    && j.mode == k.mode

pub key_beq_iff : (j k : SharedTokenKey) → (key_beq j k ≡ true) ↔ (j ≡ k)
unfolding key_beq
key_beq_iff j k = ground (
  arith,
  axis_beq_iff j.axis k.axis,
  list_beq_iff j.domain k.domain,
  list_beq_iff j.message_id k.message_id,
  list_beq_iff j.url k.url,
  list_beq_iff j.mode k.mode,
)

instance abbrev pub key_eq : Comparable SharedTokenKey
key_eq = record { equals = key_beq; equals_iff = key_beq_iff }

abbrev pub Tokens : Type 0
Tokens = List (SharedTokenKey × Text)

pub record SharedTokens : Type 0 where
  pub live : Tokens
  pub prev : Tokens

-- `newSharedTokens`; a nil map reads as an empty one
abbrev pub new_shared_tokens : SharedTokens
new_shared_tokens = record { live = []; prev = [] }

-- `put`
unfoldable pub put_token : SharedTokenKey → Text → SharedTokens → SharedTokens
put_token key token c =
    if leb shared_token_generation (length c.live)
    then record { live = (key, token) ∷ []; prev = c.live }
    else record { live = put key token c.live; prev = c.prev }

-- what `reuse` leaves and returns; `none` is the error of the mint
pub record Reused (W : Type 0) : Type 0 where
  pub cache : SharedTokens
  pub world : W
  pub token : Option Text

module _ {W : Type 0} where
  unfoldable pub after_mint : SharedTokenKey → SharedTokens → W × Option Text → Reused W
  after_mint key c (w, none) = record { cache = c; world = w; token = none }
  after_mint key c (w, some token) = record {
    cache = put_token key token c;
    world = w;
    token = some token;
  }

  -- `reuse`, from what the live and the previous generation hold
  unfoldable pub reuse_held :
      SharedTokenKey
      → (W → W × Option Text)
      → SharedTokens
      → W
      → Option Text
      → Option Text
      → Reused W
  reuse_held key mint c w (some token) held = record { cache = c; world = w; token = some token }
  reuse_held key mint c w none (some token) = record {
    cache = put_token key token c;
    world = w;
    token = some token;
  }
  reuse_held key mint c w none none = after_mint key c (mint w)

  -- `reuse`, which runs alone, under the lock
  unfoldable pub reuse : SharedTokenKey → (W → W × Option Text) → SharedTokens → W → Reused W
  reuse key mint c w = reuse_held key mint c w (lookup key c.live) (lookup key c.prev)

-- `len`
unfoldable pub len : SharedTokens → ℕ
len c = length c.live + length c.prev
