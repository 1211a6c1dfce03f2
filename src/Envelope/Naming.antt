-- ===== src/Envelope/Naming.antt =====
-- Whom the tokens of a Delivery name: internal/envelope/builder.go before internal/statssec/keys.go.
use mathlib.Core.Path.{subst}
use kannon.Base.{
  ℕ, ◌≡◌, refl, ap, true, false, some, List, [], ◌∷◌, Text, ◌==◌, nat_eq, list_eq, list_beq,
  list_beq_iff, length, In, Bool-cases, Option-cases, inl, inr, arith, if◌then◌else◌,
}
use kannon.Tracking.{
  Mode, Policy, mode_pseudonymous, mode_identified, states, rank, find_rank, rank_or_zero,
  collection, reaches, identifies_recipient, isolates_recipient,
}
use kannon.Tracking.Scale.{mode_at, mode_at-rank, collection_read, collection_unread}
use kannon.Tracking.Identity.{anonymous_identity, pseudonym_of, new_pseudonym}
use kannon.Tracking.Sentinels.{is_pseudonym-pseudonym_of}
use kannon.LinkTokens.{Names, identity_under}
use kannon.Envelope.Tracks.{
  TrackingIdentity, new_tracking_identity, with_pseudonym, under, track_target_for,
}

rank-pseudonymous : rank_or_zero mode_pseudonymous ≡ 2
unfolding rank_or_zero rank find_rank list_beq
rank-pseudonymous = refl

rank-identified : rank_or_zero mode_identified ≡ 3
unfolding rank_or_zero rank find_rank list_beq
rank-identified = refl

-- Only one Mode tells Recipients apart and does not name them.
pseudonymous-only :
    (m : Mode)
    → isolates_recipient m ≡ true
    → identifies_recipient m ≡ false
    → m ≡ mode_pseudonymous
unfolding isolates_recipient identifies_recipient reaches
pseudonymous-only m i n = elim (Bool-cases (states m)) [
  | inr s ↦ absurd (ground (arith, n, s))
  | inl s ↦ elim (Option-cases (rank m)) [
    | inl e ↦ absurd (ground (arith, i, s, rank-pseudonymous, collection_unread m e))
    | inr (r, e) ↦
        let two : r ≡ 2 =
          ground (arith, i, n, s, rank-pseudonymous, rank-identified, collection_read m e) in
        unfold mode_at in subst (λ (k : ℕ). m ≡ mode_at k) two (mode_at-rank m e).0
  ]
]

-- The Mode that draws a pseudonym names nobody by an address.
unnamed : identifies_recipient mode_pseudonymous ≡ false
unfolding identifies_recipient reaches states collection rank_or_zero rank find_rank list_beq
unnamed = refl

named-address : (m : Mode) → identifies_recipient m ≡ true → (m == mode_pseudonymous) ≡ false
named-address m h = elim (Bool-cases (m == mode_pseudonymous)) [
  | inr e ↦ e
  | inl e ↦
      let same : m ≡ mode_pseudonymous = (list_beq_iff m mode_pseudonymous).0 e in
      absurd (ground (arith, unnamed, rw same at h))
]

module _ (policy : Policy) (email domain : Text) (raw : List ℕ) where
  -- What the identities of a Delivery are: its address and, where an axis asks for one, a pseudonym.
  IsDrawn : TrackingIdentity → Type 0
  IsDrawn i =
      (i.email ≡ email)
      × (In (policy.opens ∷ policy.links ∷ []) mode_pseudonymous
          → i.pseudonym ≡ pseudonym_of raw domain)

  new_tracking_identity-IsDrawn :
      (i : TrackingIdentity) × (new_tracking_identity (some raw) policy email domain ≡ some i)
      × IsDrawn i
  unfolding new_tracking_identity with_pseudonym new_pseudonym IsDrawn
  new_tracking_identity-IsDrawn = elim (Bool-cases (policy.opens == mode_pseudonymous)) [
    | inl o ↦ (
      record { email = email; pseudonym = pseudonym_of raw domain },
      rw o refl,
      (refl, (λ _. refl)),
    )
    | inr o ↦ elim (Bool-cases (policy.links == mode_pseudonymous)) [
      | inl l ↦ (
        record { email = email; pseudonym = pseudonym_of raw domain },
        rw o (rw l refl),
        (refl, (λ _. refl)),
      )
      | inr l ↦ (
        record { email = email; pseudonym = [] },
        rw o (rw l refl),
        (
          refl,
          (λ asked. elim asked [
            | inl e ↦ absurd (ground (arith, o, (list_beq_iff policy.opens mode_pseudonymous).1 e))
            | inr (inl e) ↦
                absurd (ground (arith, l, (list_beq_iff policy.links mode_pseudonymous).1 e))
            | inr (inr e) ↦ absurd e
          ]),
        ),
      )
    ]
  ]

  -- Whom a token names under a Mode: the Recipient, the Delivery, or nobody.
  unfoldable pub named_under : Mode → Text
  named_under m =
      if identifies_recipient m
      then email
      else if isolates_recipient m
      then pseudonym_of raw domain
      else anonymous_identity domain

  under-address :
      (i : TrackingIdentity) (m : Mode)
      → identifies_recipient m ≡ true
      → IsDrawn i
      → under i m ≡ email
  unfolding under IsDrawn
  under-address i m n (address, pseudonym) = rw (named-address m n) address

  under-pseudonym :
      (i : TrackingIdentity) (m : Mode)
      → m ≡ mode_pseudonymous
      → In (policy.opens ∷ policy.links ∷ []) m
      → IsDrawn i
      → under i m ≡ pseudonym_of raw domain
  unfolding under IsDrawn
  under-pseudonym i m same asked (address, pseudonym) =
      rw ((list_beq_iff m mode_pseudonymous).1 same)
        (pseudonym (subst (λ (k : Mode). In (policy.opens ∷ policy.links ∷ []) k) same asked))

  identity_under-named :
      (o : Names) (message_id : Text) (m : Mode) (i : TrackingIdentity)
      → length raw ≡ 16
      → o.domain_of message_id ≡ some domain
      → In (policy.opens ∷ policy.links ∷ []) m
      → IsDrawn i
      → identity_under o m (under i m) message_id ≡ some (named_under m)
  unfolding identity_under named_under
  identity_under-named o message_id m i drawn names asked is_drawn =
      elim (Bool-cases (identifies_recipient m)) [
        | inl n ↦ rw n (ap some (under-address i m n is_drawn))
        | inr n ↦ elim (Bool-cases (isolates_recipient m)) [
          | inr a ↦ rw n (rw (names, identity_under) (rw a refl))
          | inl a ↦ rw n (
              rw (names, identity_under)
                (rw a (
                  rw (under-pseudonym i m (pseudonymous-only m a n) asked is_drawn)
                    (rw (is_pseudonym-pseudonym_of o.fold raw domain drawn) refl))))
        ]
      ]

  -- For each Mode of a Delivery's Policy, where the message id names the Domain and 16 bytes are
  -- drawn, the builder has an identity to offer and the mint of a token takes it: the token names
  -- the Recipient's address under a Mode that identifies Recipients, the pseudonym drawn for the
  -- Delivery under any other that tells them apart, and the Domain's sentinel of nobody otherwise.
  pub identity_under_lem :
      (o : Names) (message_id : Text) (m : Mode)
      → length raw ≡ 16
      → o.domain_of message_id ≡ some domain
      → In (policy.opens ∷ policy.links ∷ []) m
      → (i : TrackingIdentity) × (new_tracking_identity (some raw) policy email domain ≡ some i)
        × (identity_under o m (track_target_for i message_id domain m).identity message_id
            ≡ some (named_under m))
  unfolding track_target_for
  identity_under_lem o message_id m drawn names asked =
      let (i, made, is_drawn) = new_tracking_identity-IsDrawn in
      (i, made, identity_under-named o message_id m i drawn names asked is_drawn)
