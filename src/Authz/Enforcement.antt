-- ===== src/Authz/Enforcement.antt =====
-- What `Guard` (internal/authz/guard.go) does on every branch.
use kannon.Base.{
  ℕ, ◌≡◌, ◌≢◌, refl, sym, ◌∙◌, ◌⊎◌, inl, inr, Bool, true, false, ◌&&◌, ◌||◌, Option, none, some, [],
  Text, text, All, Some, Some-map, Some-witness, In-All, arith, ◌==◌, nat_eq, list_eq, list_beq_iff,
  Bool-cases, if◌then◌else◌,
}
use kannon.Authz.Action.{Action, create, attribute}
use kannon.Authz.Resource.{Resource}
use kannon.Authz.Role.{Rule, role_admin, role_sender, sender}
use kannon.Authz.Grant.{Grant}
use kannon.Authz.Principal.{Principal, zero_principal, with_attribution}
use kannon.Authz.Decide.{can, require, forbidden}
use kannon.Authz.Guard.{
  World, Operation, Decision, GuardError, err, err_forbidden, err_no_principal, allowed, denied,
  no_principal, decision, record_decision, guard, guard_principal, guard_claim,
}
use kannon.Authz.Authority.{GrantPermits, Holds, can-Permits}
use kannon.Authz.Placement.{role_cases}

-- A claim needs `attribute` on the Resource; no claim needs nothing.
abbrev pub may_claim : Principal → Resource → Bool
may_claim p r = p.attribution == [] || can p attribute r

abbrev pub why_refused : Principal → Action → Resource → Text
why_refused p a r =
    if can p a r
    then text "the Attribution is not permitted on this Resource"
    else text "the Action is not permitted on this Resource"

can-with_attribution :
    (p : Principal) (claim : Text) (a : Action) (r : Resource)
    → can (with_attribution p claim) a r ≡ can p a r
unfolding can with_attribution
can-with_attribution p claim a r = refl

require_of_can :
    (p : Principal) (a : Action) (r : Resource) → can p a r ≡ true → require p a r ≡ none
unfolding require
require_of_can p a r h = rw h

require_of_cannot :
    (p : Principal) (a : Action) (r : Resource) → can p a r ≡ false → require p a r ≡ some forbidden
unfolding require
require_of_cannot p a r h = rw h

module _ {ℓ} {S E T : Type ℓ} where
  -- The verdict of `Guard` and the one record that it leaves.
  abbrev pub guarded : ℕ → Option Principal → Action → Resource → Operation S E T → Operation S E T
  guarded now none a r fn w = (
    record_decision
        (decision now zero_principal a r no_principal (text "nothing authenticated this request"))
        w,
    err err_no_principal,
  )
  guarded now (some p) a r fn w =
      if can p a r && may_claim p r
      then fn (record_decision (decision now p a r allowed []) w)
      else (record_decision (decision now p a r denied (why_refused p a r)) w, err err_forbidden)

  guard_claim_lem :
      (now : ℕ) (p : Principal) (a : Action) (r : Resource) (fn : Operation S E T) (w : World S)
      → guard_claim now p a r fn w ≡ (
          if may_claim p r then fn (record_decision (decision now p a r allowed []) w) else (
            record_decision
                (decision now p a r denied
                  (text "the Attribution is not permitted on this Resource"))
                w,
            err err_forbidden,
          ))
  unfolding guard_claim
  guard_claim_lem now p a r fn w = elim (Bool-cases (p.attribution == [])) [
    | inl c ↦ rw (c, guard_claim) refl
    | inr c ↦ elim (Bool-cases (can p attribute r)) [
      | inl d ↦ rw (c, require_of_can p attribute r d, guard_claim) (rw d refl)
      | inr d ↦ rw (c, require_of_cannot p attribute r d, guard_claim) (rw d refl)
    ]
  ]

  -- `Guard` runs the operation exactly when a Principal is present that may do the Action on the
  -- Resource and, where it carries an Attribution, may also do `attribute` there. The decision is
  -- recorded once, before the operation runs, with the check that refused; on a refusal the
  -- operation does not run and the state is what it was.
  pub guard_lem :
      (now : ℕ) (ctx : Option Principal) (a : Action) (r : Resource) (fn : Operation S E T)
      (w : World S)
      → guard now ctx a r fn w ≡ guarded now ctx a r fn w
  unfolding guard guard_principal
  guard_lem now none a r fn w = refl
  guard_lem now (some p) a r fn w = elim (Bool-cases (can p a r)) [
    | inl e ↦ rw (require_of_can p a r e, guard, guard_principal) (rw (e, guard_claim_lem) refl)
    | inr e ↦ rw (require_of_cannot p a r e, guard, guard_principal) (rw e refl)
  ]

  -- Either the operation does not run, and the state is what it was, or it runs on the same state.
  pub guard_cases :
      (now : ℕ) (ctx : Option Principal) (a : Action) (r : Resource) (fn : Operation S E T)
      (w : World S)
      → ((e : GuardError E) × ((guard now ctx a r fn w).1 ≡ err e)
          × ((guard now ctx a r fn w).0.state ≡ w.state))
        ⊎ ((d : Decision) × (guard now ctx a r fn w ≡ fn (record_decision d w)))
  unfolding record_decision
  guard_cases now none a r fn w = rw guard_lem (inl (err_no_principal, refl, refl))
  guard_cases now (some p) a r fn w = elim (Bool-cases (can p a r && may_claim p r)) [
    | inl e ↦ inr (decision now p a r allowed [], guard_lem now (some p) a r fn w ∙ rw e refl)
    | inr e ↦ rw guard_lem (inl (err_forbidden, rw e refl, rw e refl))
  ]

  -- No Attribution obtains what the Grants refuse: where `Can` says no, `Guard` refuses, whatever
  -- claim is stated.
  pub guard-with_attribution :
      (now : ℕ) (p : Principal) (claim : Text) (a : Action) (r : Resource) (fn : Operation S E T)
      (w : World S)
      → can p a r ≡ false
      → (guard now (some (with_attribution p claim)) a r fn w).1 ≡ err err_forbidden
        × ((guard now (some (with_attribution p claim)) a r fn w).0.state ≡ w.state)
  unfolding record_decision
  guard-with_attribution now p claim a r fn w h =
      rw (guard_lem, can-with_attribution) (rw h (refl, refl))

sender_holds : (a : Action) → Some (λ (rl : Rule). Holds rl a) sender.rules → a ≡ create
unfolding sender
sender_holds a (inl (inl e)) = sym e
sender_holds a (inl (inr e)) = absurd e
sender_holds a (inr e) = absurd e

admin-ne-sender : role_admin ≢ role_sender
admin-ne-sender e = ground arith

attribute-ne-create : attribute ≢ create
attribute-ne-create e = ground arith

sender_grant :
    (a : Action) (r : Resource) (g : Grant) → g.role ≡ role_sender → GrantPermits a r g → a ≡ create
sender_grant a r g e h = elim (role_cases g.role h.def h.known) [
  | inl (f, _) ↦ absurd (admin-ne-sender (sym f ∙ e))
  | inr (_, f) ↦ sender_holds a (rw f at (Some-map h.def.rules (λ (rl : Rule) k. k.states) h.rule))
]

-- A Principal whose every Grant is the sender Role can do nothing but create, so `Guard` refuses
-- every operation in which it states an Attribution.
pub sender_claim_refused {ℓ} :
    {S E T : Type ℓ} (now : ℕ) (p : Principal) (a : Action) (r : Resource) (fn : Operation S E T)
    (w : World S)
    → All (λ (g : Grant). g.role ≡ role_sender) p.grants
    → p.attribution ≢ []
    → (guard now (some p) a r fn w).1 ≡ err err_forbidden
sender_claim_refused now p a r fn w roles claims =
    rw guard_lem
      (elim (Bool-cases (can p a r)) [ inr e ↦ rw e refl | inl e ↦ rw (e, no_claim) refl ])
  where
    cannot : can p attribute r ≡ false
    cannot = elim (Bool-cases (can p attribute r)) [
      | inr e ↦ e
      | inl e ↦
          let (g, held, k) =
            Some-witness (GrantPermits attribute r) p.grants (can-Permits p attribute r e) in
          absurd
            (attribute-ne-create (sender_grant attribute r g (In-All _ p.grants g held roles) k))
    ]

    no_claim : may_claim p r ≡ false
    no_claim = rw cannot (elim (Bool-cases (p.attribution == [])) [
      | inr e ↦ rw e refl
      | inl e ↦ absurd (claims ((list_beq_iff p.attribution []).0 e))
    ])
