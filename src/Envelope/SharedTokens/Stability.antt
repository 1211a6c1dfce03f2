-- ===== src/Envelope/SharedTokens/Stability.antt =====
-- How long the cache of internal/envelope/sharedtokens.go keeps a token, and how many it keeps.
use kannon.Base.{
  ℕ, suc, ◌+◌, ◌≤◌, false, Option, none, some, List, [], ◌∷◌, Text, ◌==◌, ◌≡◌, ◌⊎◌, inl, inr, leb,
  length, lookup, refl, arith, Bool-cases, ◌∙◌, lookup-put, lookup-put_other, length-put,
  equals_self,
}
use kannon.Envelope.SharedTokens.{
  SharedTokenKey, key_eq, SharedTokens, new_shared_tokens, put_token, after_mint, reuse_held, reuse,
  len, shared_token_generation,
}

-- a call of `reuse`: the key and the mint
pub record Call (W : Type 0) : Type 0 where
  pub key : SharedTokenKey
  pub mint : W → W × Option Text

unfoldable pub reuse_all : {W : Type 0} → List (Call W) → SharedTokens → W → SharedTokens × W
reuse_all [] c w = (c, w)
reuse_all (x ∷ calls) c w =
    reuse_all calls (reuse x.key x.mint c w).cache (reuse x.key x.mint c w).world

IsBounded : SharedTokens → Type 0
IsBounded c = (length c.live ≤ shared_token_generation) × (length c.prev ≤ shared_token_generation)

-- A call leaves the cache, or puts a token under a key that the live generation does not hold: the
-- one that the previous generation holds, if any.
pub data Left (key : SharedTokenKey) (c : SharedTokens) : SharedTokens → Type 0 where
  unchanged : Left key c c
  stored :
      (token : Text)
      → lookup key c.live ≡ none
      → ((t : Text) → lookup key c.prev ≡ some t → token ≡ t)
      → Left key c (put_token key token c)

module _ {W : Type 0} (key : SharedTokenKey) (mint : W → W × Option Text) where
  reuse_held-Left :
      (c : SharedTokens) (w : W) (live held : Option Text)
      → lookup key c.live ≡ live
      → lookup key c.prev ≡ held
      → Left key c (reuse_held key mint c w live held).cache
  unfolding reuse_held after_mint
  reuse_held-Left c w (some t) held l p = unchanged
  reuse_held-Left c w none (some t) l p = stored t l (λ s q. ground arith)
  reuse_held-Left c w none none l p = go (mint w)
    where
      go : (r : W × Option Text) → Left key c (after_mint key c r).cache
      go (v, none) = unchanged
      go (v, some t) = stored t l (λ s q. absurd (ground arith))

  reuse-Left : (c : SharedTokens) (w : W) → Left key c (reuse key mint c w).cache
  unfolding reuse
  reuse-Left c w = reuse_held-Left c w (lookup key c.live) (lookup key c.prev) refl refl

-- A token that a key has, and still has after `n` calls for other keys.
Holds : SharedTokenKey → Text → ℕ → SharedTokens → Type 0
Holds key token n c =
    (lookup key c.live ≡ some token)
    ⊎ (lookup key c.live ≡ none)
      × (lookup key c.prev ≡ some token)
      × (length c.live + n ≤ shared_token_generation)

module _ (key : SharedTokenKey) (token : Text) where
  -- A token that is put under the key is held by the live generation.
  put-Holds : (c : SharedTokens) → lookup key (put_token key token c).live ≡ some token
  unfolding put_token lookup
  put-Holds c = elim (Bool-cases (leb shared_token_generation (length c.live))) [
    | inl h ↦ rw h (rw (equals_self key) refl)
    | inr h ↦ rw h (lookup-put key token c.live)
  ]

  put_other-Holds :
      (n : ℕ) (j : SharedTokenKey) (t : Text) (c : SharedTokens)
      → (j == key) ≡ false
      → suc n ≤ shared_token_generation
      → Holds key token (suc n) c
      → Holds key token n (put_token j t c)
  unfolding put_token lookup Holds
  put_other-Holds n j t c other le held =
      elim (Bool-cases (leb shared_token_generation (length c.live))) [
        | inl h ↦ rw h (elim held [
          | inl l ↦ inr (rw other refl, l, omega (arith, le))
          | inr (l, p, room) ↦ absurd (ground arith)
        ])
        | inr h ↦ rw h (elim held [
          | inl l ↦ inl (lookup-put_other j key t c.live other ∙ l)
          | inr (l, p, room) ↦
              inr
                (lookup-put_other j key t c.live other ∙ l, p, omega (arith, length-put j t c.live))
        ])
      ]

  stored_same :
      (n : ℕ) (t : Text) (c : SharedTokens)
      → lookup key c.live ≡ none
      → ((s : Text) → lookup key c.prev ≡ some s → t ≡ s)
      → Holds key token n c
      → lookup key (put_token key t c).live ≡ some token
  unfolding Holds
  stored_same n t c absent same (inl l) = absurd (ground (arith, absent, l))
  stored_same n t c absent same (inr (l, p, room)) = rw (same token p) (put-Holds c)

  Left-Holds :
      (n : ℕ) (j : SharedTokenKey) (c d : SharedTokens)
      → suc n ≤ shared_token_generation
      → Left j c d
      → Holds key token (suc n) c
      → Holds key token n d
  unfolding Holds
  Left-Holds n j c d le unchanged (inl l) = inl l
  Left-Holds n j c d le unchanged (inr (l, p, room)) = inr (l, p, omega arith)
  Left-Holds n j c d le (stored t absent same) held = elim (Bool-cases (j == key)) [
    | inl h ↦
        let at_key : j ≡ key = (key_eq.equals_iff j key).0 h in
        rw at_key
          (inl (stored_same (suc n) t c (rw (← at_key) absent) (λ s p. same s (rw at_key p)) held))
    | inr h ↦ put_other-Holds n j t c h le held
  ]

  Holds-reuse_all :
      {W : Type 0} (calls : List (Call W)) (c : SharedTokens) (w : W)
      → length calls ≤ shared_token_generation
      → Holds key token (length calls) c
      → Holds key token 0 (reuse_all calls c w).0
  unfolding reuse_all
  Holds-reuse_all [] c w le held = held
  Holds-reuse_all (x ∷ calls) c w le held =
      Holds-reuse_all calls (reuse x.key x.mint c w).cache (reuse x.key x.mint c w).world
        (omega (arith, le))
        (Left-Holds (length calls) x.key c (reuse x.key x.mint c w).cache le
          (reuse-Left x.key x.mint c w) held)

  reuse-held :
      {W : Type 0} (mint : W → W × Option Text) (n : ℕ) (c : SharedTokens) (w : W)
      → Holds key token n c
      → ((reuse key mint c w).token ≡ some token) × ((reuse key mint c w).world ≡ w)
  unfolding reuse reuse_held Holds
  reuse-held mint n c w (inl l) = rw l (refl, refl)
  reuse-held mint n c w (inr (l, p, room)) = rw l (rw p (refl, refl))

  -- A call that returns a token leaves it in the live generation.
  reuse-live :
      {W : Type 0} (mint : W → W × Option Text) (c : SharedTokens) (w : W)
      → (reuse key mint c w).token ≡ some token
      → lookup key (reuse key mint c w).cache.live ≡ some token
  unfolding reuse reuse_held after_mint
  reuse-live {W} mint c w e = live (lookup key c.live) (lookup key c.prev) refl e
    where
      minted :
          (r : W × Option Text)
          → (after_mint key c r).token ≡ some token
          → lookup key (after_mint key c r).cache.live ≡ some token
      minted (v, none) q = absurd (ground arith)
      minted (v, some t) q = let same : t ≡ token = ground arith in rw same (put-Holds c)

      live :
          (l p : Option Text)
          → lookup key c.live ≡ l
          → (reuse_held key mint c w l p).token ≡ some token
          → lookup key (reuse_held key mint c w l p).cache.live ≡ some token
      live (some t) p l q = l ∙ q
      live none (some t) l q = let same : t ≡ token = ground arith in rw same (put-Holds c)
      live none none l q = minted (mint w) q

-- A token that a call returns is what a later call for its key returns, and that call does not
-- mint, where at most 1024 calls, for any keys, lie between the two.
pub reuse_again :
    {W : Type 0} (key : SharedTokenKey) (token : Text) (mint again : W → W × Option Text)
    (calls : List (Call W)) (c : SharedTokens) (w : W)
    → (reuse key mint c w).token ≡ some token
    → length calls ≤ shared_token_generation
    → let first = reuse key mint c w in
      let between = reuse_all calls first.cache first.world in
      ((reuse key again between.0 between.1).token ≡ some token)
      × ((reuse key again between.0 between.1).world ≡ between.1)
unfolding Holds
reuse_again key token mint again calls c w e le =
    let first = reuse key mint c w in
    let between = reuse_all calls first.cache first.world in
    reuse-held key token again 0 between.0 between.1 (
      Holds-reuse_all key token calls first.cache first.world le
        (inl (reuse-live key token mint c w e)))

put_token-IsBounded :
    (key : SharedTokenKey) (token : Text) (c : SharedTokens)
    → IsBounded c
    → IsBounded (put_token key token c)
unfolding put_token IsBounded
put_token-IsBounded key token c (l, p) =
    elim (Bool-cases (leb shared_token_generation (length c.live))) [
      | inl h ↦ rw h (omega arith, l)
      | inr h ↦ rw h (ground (arith, length-put key token c.live), p)
    ]

reuse_all-IsBounded :
    {W : Type 0} (calls : List (Call W)) (c : SharedTokens) (w : W)
    → IsBounded c
    → IsBounded (reuse_all calls c w).0
unfolding reuse_all
reuse_all-IsBounded [] c w b = b
reuse_all-IsBounded (x ∷ calls) c w b =
    reuse_all-IsBounded calls (reuse x.key x.mint c w).cache (reuse x.key x.mint c w).world
      (step (reuse x.key x.mint c w).cache (reuse-Left x.key x.mint c w))
  where
    step : (d : SharedTokens) → Left x.key c d → IsBounded d
    step d unchanged = b
    step d (stored t absent same) = put_token-IsBounded x.key t c b

-- Whatever calls are made of a new cache, it never holds more than 2048 tokens.
pub len-reuse_all :
    {W : Type 0} (calls : List (Call W)) (w : W)
    → len (reuse_all calls new_shared_tokens w).0 ≤ 2048
unfolding len IsBounded
len-reuse_all calls w =
    omega (arith, reuse_all-IsBounded calls new_shared_tokens w (omega arith, omega arith))
