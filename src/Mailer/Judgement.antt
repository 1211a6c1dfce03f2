-- ===== src/Mailer/Judgement.antt =====
-- What the loop of `scheduleBatch` in pkg/api/mailapi/mailer.go makes of each Recipient.
use kannon.Base.{
  ◌+◌, ◌≡◌, ◌≢◌, refl, sym, ap, ◌∙◌, ◌⊎◌, inl, inr, true, false, not, List, [], ◌∷◌, ◌++◌, Text,
  length, arith, ◌==◌, nat_eq, list_eq, list_beq_iff, Bool-cases, trim_space, trim_left, list_beq,
}
use mathlib.Core.Path.{subst}
use mathlib.Core.List.{append-nil, append_assoc}
use kannon.Base.Int.{ℤ}
use kannon.Tracking.{Policy, resolve, normalized}
use kannon.Tracking.Ceiling.{CeilingViolation, ceiling_violations}
use kannon.Tracking.Resolution.{normalized-resolve}
use kannon.Delivery.{Delivery}
use kannon.Delivery
use kannon.Batch.{Batch, Recipient, has_address}
use kannon.Domains.{Domain}
use kannon.Mailer.{
  Outside, Reason, invalid_email, tracking_above_ceiling, unsupported_tracking_mode,
  unsubscribe_url_unresolved, Rejected,
}
use kannon.Mailer.Intake.{
  StatedRecipient, refused, governed, resolve_recipient_tracking, unsubscribe_resolves, Taken,
  nothing_taken, reject, accept, build, take_recipient, take_recipients,
}

trim_empty : trim_space [] ≡ []
unfolding trim_space trim_left
trim_empty = refl

address_nonempty : (r : Recipient) → has_address r ≡ true → (r.email == []) ≡ false
unfolding has_address list_beq
address_nonempty r h = go r.email h
  where
    go : (e : Text) → not (trim_space e == []) ≡ true → (e == []) ≡ false
    go [] q = absurd (cc (rw trim_empty at q))
    go (c ∷ e) q = refl

module _ (o : Outside) (domain : Domain) (b : Batch) (scheduled : ℤ) where
  -- What a Recipient that is taken meets.
  pub record Admissible (s : StatedRecipient) : Type 0 where
    pub addressed : has_address s.recipient ≡ true
    pub readable : s.unreadable ≡ false
    pub within : ceiling_violations domain.tracking s.recipient.tracking ≡ []
    pub resolves : unsubscribe_resolves o.patterns b.one_click_unsubscribe s.recipient ≡ true

  -- The Delivery of a Recipient that is taken.
  pub record Accepts (s : StatedRecipient) (d : Delivery) : Type 0 where
    pub admissible : Admissible s
    pub batch_id : d.batch_id ≡ b.id
    pub email : d.email ≡ s.recipient.email
    pub fields : d.fields ≡ s.recipient.fields
    pub scheduled_time : d.scheduled_time ≡ scheduled
    pub unattempted : d.send_attempts ≡ 0
    pub tracking : d.tracking ≡ resolve domain.tracking b.tracking s.recipient.tracking

  -- Why a Recipient that is refused is refused: the first test that it fails names the reason.
  abbrev pub Fails : StatedRecipient → Reason → Type 0
  Fails s invalid_email = has_address s.recipient ≡ false
  Fails s unsupported_tracking_mode = (has_address s.recipient ≡ true) × (s.unreadable ≡ true)
  Fails s tracking_above_ceiling =
      (has_address s.recipient ≡ true)
      × (s.unreadable ≡ false)
      × (ceiling_violations domain.tracking s.recipient.tracking ≢ [])
  Fails s unsubscribe_url_unresolved =
      (has_address s.recipient ≡ true)
      × (s.unreadable ≡ false)
      × (ceiling_violations domain.tracking s.recipient.tracking ≡ [])
      × (unsubscribe_resolves o.patterns b.one_click_unsubscribe s.recipient ≡ false)

  -- Each Recipient, in the order stated, is either the next Delivery or the next refusal.
  pub data Sorted : List StatedRecipient → List Delivery → List Rejected → Type 0 where
    nobody : Sorted [] [] []
    taken :
        {s : StatedRecipient} {rs : List StatedRecipient} {d : Delivery} {ds : List Delivery}
        {xs : List Rejected}
        → Accepts s d
        → Sorted rs ds xs
        → Sorted (s ∷ rs) (d ∷ ds) xs
    turned_away :
        {s : StatedRecipient} {rs : List StatedRecipient} {ds : List Delivery} {x : Rejected}
        {xs : List Rejected}
        → x.email ≡ s.recipient.email
        → Fails s x.reason
        → Sorted rs ds xs
        → Sorted (s ∷ rs) ds (x ∷ xs)

  pub Sorted-count :
      {rs : List StatedRecipient} {ds : List Delivery} {xs : List Rejected}
      → Sorted rs ds xs
      → length ds + length xs ≡ length rs
  Sorted-count nobody = omega arith
  Sorted-count (taken a h) = omega (arith, Sorted-count h)
  Sorted-count (turned_away e f h) = omega (arith, Sorted-count h)

  delivery_of : Recipient → Policy → Delivery
  delivery_of r policy = record {
    batch_id = b.id;
    email = r.email;
    fields = r.fields;
    send_attempts = 0;
    domain = b.domain;
    scheduled_time = scheduled;
    original_scheduled_time = scheduled;
    backoff = Delivery.policy_or_default o.repo.overflowed o.repo.backoff;
    retry_window = Delivery.window_or_default o.repo.retry_window;
    tracking = normalized policy;
  }

  unreadable_lem :
      (s : StatedRecipient)
      → s.unreadable ≡ true
      → resolve_recipient_tracking domain.tracking b.tracking s ≡ refused unsupported_tracking_mode
  unfolding resolve_recipient_tracking
  unreadable_lem s h = rw h refl

  within_lem :
      (s : StatedRecipient)
      → s.unreadable ≡ false
      → ceiling_violations domain.tracking s.recipient.tracking ≡ []
      → resolve_recipient_tracking domain.tracking b.tracking s
        ≡ governed (resolve domain.tracking b.tracking s.recipient.tracking)
  unfolding resolve_recipient_tracking
  within_lem s h k = rw (h, resolve_recipient_tracking) (rw (k, resolve_recipient_tracking) refl)

  above_lem :
      (s : StatedRecipient) (v : CeilingViolation) (vs : List CeilingViolation)
      → s.unreadable ≡ false
      → ceiling_violations domain.tracking s.recipient.tracking ≡ v ∷ vs
      → resolve_recipient_tracking domain.tracking b.tracking s ≡ refused tracking_above_ceiling
  unfolding resolve_recipient_tracking
  above_lem s v vs h k =
      rw (h, resolve_recipient_tracking) (rw (k, resolve_recipient_tracking) refl)

  build_lem :
      (r : Recipient) (policy : Policy) (t : Taken)
      → b.id ≢ []
      → b.domain ≢ []
      → has_address r ≡ true
      → build o domain b scheduled r policy t ≡ accept (delivery_of r policy) t
  unfolding build Delivery.new delivery_of
  build_lem r policy t id named h =
      rw (no_id, build) (rw (address_nonempty r h) (rw no_domain refl))
    where
      no_id : (b.id == []) ≡ false
      no_id = ground (arith, list_beq_iff b.id [], id)

      no_domain : (b.domain == []) ≡ false
      no_domain = ground (arith, list_beq_iff b.domain [], named)

  accepted :
      (s : StatedRecipient)
      → has_address s.recipient ≡ true
      → s.unreadable ≡ false
      → ceiling_violations domain.tracking s.recipient.tracking ≡ []
      → unsubscribe_resolves o.patterns b.one_click_unsubscribe s.recipient ≡ true
      → Accepts s
          (delivery_of s.recipient (resolve domain.tracking b.tracking s.recipient.tracking))
  unfolding delivery_of
  accepted s e u q k = record {
    admissible = record { addressed = e; readable = u; within = q; resolves = k };
    batch_id = refl;
    email = refl;
    fields = refl;
    scheduled_time = refl;
    unattempted = refl;
    tracking = (normalized-resolve domain.tracking b.tracking s.recipient.tracking).0;
  }

  -- what one round of the loop does
  abbrev Round : StatedRecipient → Taken → Type 0
  Round s t =
      ((d : Delivery) × Accepts s d × (take_recipient o domain b scheduled s t ≡ accept d t))
      ⊎ ((reason : Reason) × Fails s reason
          × (take_recipient o domain b scheduled s t ≡ reject s.recipient.email reason t))

  module _ (id : b.id ≢ []) (named : b.domain ≢ []) where
    take_recipient_lem : (s : StatedRecipient) (t : Taken) → Round s t
    unfolding take_recipient
    take_recipient_lem s t = elim (Bool-cases (has_address s.recipient)) [
      | inr e ↦ inr (invalid_email, e, rw e refl)
      | inl e ↦ elim (Bool-cases s.unreadable) [
        | inl u ↦
            inr (
              unsupported_tracking_mode,
              (e, u),
              rw e (rw (unreadable_lem s u, take_recipient) refl),
            )
        | inr u ↦ go e u (ceiling_violations domain.tracking s.recipient.tracking) refl
      ]
    ]
      where
        go :
            has_address s.recipient ≡ true
            → s.unreadable ≡ false
            → (vs : List CeilingViolation)
            → ceiling_violations domain.tracking s.recipient.tracking ≡ vs
            → Round s t
        go e u (v ∷ vs) q = inr (
          tracking_above_ceiling,
          (e, u, λ k. cc (q, k)),
          rw e (rw (above_lem s v vs u q, take_recipient) refl),
        )
        go e u [] q =
            elim (Bool-cases
              (unsubscribe_resolves o.patterns b.one_click_unsubscribe s.recipient)) [
                | inr k ↦ inr (
                  unsubscribe_url_unresolved,
                  (e, u, q, k),
                  rw e (rw (within_lem s u q, take_recipient) (rw k refl)),
                )
                | inl k ↦ inl (
                  delivery_of s.recipient (resolve domain.tracking b.tracking s.recipient.tracking),
                  accepted s e u q k,
                  rw e (
                      rw (within_lem s u q, take_recipient)
                        (rw k (build_lem s.recipient _ t id named e))),
                )
              ]

    take_recipients_lem :
        (rs : List StatedRecipient) (t : Taken)
        → (ds : List Delivery) × (xs : List Rejected) × Sorted rs ds xs
          × (take_recipients o domain b scheduled rs t
              ≡ record { deliveries = t.deliveries ++ ds; rejected = t.rejected ++ xs })
    unfolding take_recipients accept reject
    take_recipients_lem [] t = ([], [], nobody, rw append-nil (rw append-nil refl))
    take_recipients_lem (s ∷ rs) t = elim (take_recipient_lem s t) [
      | inl (d, a, e) ↦
          let (ds, xs, h, same) = take_recipients_lem rs (accept d t) in
          (
            d ∷ ds,
            xs,
            taken a h,
            ap (take_recipients o domain b scheduled rs) e ∙ same ∙ rw append_assoc refl,
          )
      | inr (reason, f, e) ↦
          let (ds, xs, h, same) = take_recipients_lem rs (reject s.recipient.email reason t) in
          (
            ds,
            record { email = s.recipient.email; reason = reason } ∷ xs,
            turned_away refl f h,
            ap (take_recipients o domain b scheduled rs) e ∙ same ∙ rw append_assoc refl,
          )
    ]

    -- Each Recipient of a send, in the order stated, is accepted or refused, exactly once. One that is
    -- accepted has an address, a readable Policy within the Domain's ceiling and resolves the
    -- unsubscribe URL, and its Delivery carries its address, its fields and the resolved Policy; one
    -- that is refused is reported under its address with the first of the four tests that it failed.
    pub take_recipients-Sorted :
        (rs : List StatedRecipient)
        → Sorted rs
            (take_recipients o domain b scheduled rs nothing_taken).deliveries
            (take_recipients o domain b scheduled rs nothing_taken).rejected
    take_recipients-Sorted rs =
        let (ds, xs, h, same) = take_recipients_lem rs nothing_taken in
        subst (λ (t : Taken). Sorted rs t.deliveries t.rejected) (sym same) h
