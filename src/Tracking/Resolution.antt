-- ===== src/Tracking/Resolution.antt =====
-- How the Policies of the three levels collapse into one: `Resolve` of internal/tracking.
use Prim.Native.Nat.{min}
use kannon.Base.{
  ℕ, ◌≤◌, ◌≡◌, refl, sym, ap, ◌∙◌, ◌⊎◌, inl, inr, true, false, Option, none, some, List, [], ◌∷◌,
  arith, nat_eq, list_eq, list_beq, Bool-cases, if◌then◌else◌,
}
use kannon.Tracking.{
  Mode, Policy, no_policy, mode_off, states, Best, consider, most_restrictive_from,
  most_restrictive, resolve, normalized,
}
use kannon.Tracking.Scale.{mode_at, level, collection_lem, level-mode_at, states-mode_at}

-- What a level of the cascade states: nothing, or how much may be collected.
abbrev pub stated : Mode → Option ℕ
stated m = if states m then some (level m) else none

unfoldable pub meet : Option ℕ → Option ℕ → Option ℕ
meet none y = y
meet (some x) none = some x
meet (some x) (some y) = some (min x y)

unfoldable pub least : List Mode → Option ℕ
least [] = none
least (m ∷ modes) = meet (stated m) (least modes)

abbrev pub or_zero : Option ℕ → ℕ
or_zero none = 0
or_zero (some n) = n

abbrev best_so_far : Best → Option ℕ
best_so_far b = if b.found then some b.out_rank else none

record IsBest (b : Best) : Type 0 where
  at_rank : b.out ≡ mode_at b.out_rank
  at_start : b.found ≡ false → b.out_rank ≡ 0

consider-IsBest : (m : Mode) (b : Best) → IsBest b → IsBest (consider m b)
unfolding consider
consider-IsBest m b h = ground (arith, collection_lem m)

consider_best :
    (m : Mode) (b : Best) → IsBest b → best_so_far (consider m b) ≡ meet (best_so_far b) (stated m)
unfolding consider meet
consider_best m b h = ground arith

meet_assoc : (x y z : Option ℕ) → meet (meet x y) z ≡ meet x (meet y z)
unfolding meet
meet_assoc x y z = ground arith

meet-none : (x : Option ℕ) → meet none x ≡ x
unfolding meet
meet-none x = refl

meet_comm : (x y : Option ℕ) → meet x y ≡ meet y x
unfolding meet
meet_comm x y = ground arith

from_best :
    (modes : List Mode) (b : Best)
    → IsBest b
    → (most_restrictive_from modes b).out ≡ mode_at (or_zero (meet (best_so_far b) (least modes)))
unfolding most_restrictive_from least meet
from_best [] b h = elim (Bool-cases b.found) [
  | inl e ↦ rw (e, meet) h.at_rank
  | inr e ↦ rw (e, meet) (h.at_rank ∙ ap mode_at (h.at_start e))
]
from_best (m ∷ modes) b h =
    from_best modes (consider m b) (consider-IsBest m b h)
    ∙ ap (λ (x : Option ℕ). mode_at (or_zero x))
        (ap (λ (x : Option ℕ). meet x (least modes)) (consider_best m b h)
          ∙ meet_assoc (best_so_far b) (stated m) (least modes))

-- The loop finds the least level that is stated, and no collection where none is.
pub most_restrictive_lem :
    (modes : List Mode) → most_restrictive modes ≡ mode_at (or_zero (least modes))
unfolding most_restrictive
most_restrictive_lem modes =
    from_best modes (record { out = mode_off; out_rank = 0; found = false }) start
    ∙ ap (λ (x : Option ℕ). mode_at (or_zero x)) (meet-none (least modes))
  where
    start : IsBest (record { out = mode_off; out_rank = 0; found = false })
    start = record { at_rank = unfold mode_at in refl; at_start = λ _. refl }

least_of_three :
    (a b c : Mode) → least (a ∷ b ∷ c ∷ []) ≡ meet (stated a) (meet (stated b) (stated c))
unfolding least meet
least_of_three a b c = ground arith

-- No level states anything.
abbrev pub IsSilent : Mode → Mode → Mode → Type 0
IsSilent a b c = (states a ≡ false) × (states b ≡ false) × (states c ≡ false)

-- How much each axis of a resolved Policy collects: the least that any level states, and nothing
-- where none states anything; the Mode itself is the one at that position of the scale.
pub record IsLeast (m a b c : Mode) : Type 0 where
  pub bound_first : states a ≡ true → level m ≤ level a
  pub bound_second : states b ≡ true → level m ≤ level b
  pub bound_third : states c ≡ true → level m ≤ level c
  pub reached :
      ((states a ≡ true) × (level m ≡ level a))
      ⊎ (((states b ≡ true) × (level m ≡ level b))
          ⊎ (((states c ≡ true) × (level m ≡ level c)) ⊎ (IsSilent a b c × (m ≡ mode_off))))
  pub placed : m ≡ mode_at (level m)
  pub speaks : states m ≡ true

abbrev pub least3 : Mode → Mode → Mode → ℕ
least3 a b c = or_zero (meet (stated a) (meet (stated b) (stated c)))

three_lem : (a b c : Mode) → most_restrictive (a ∷ b ∷ c ∷ []) ≡ mode_at (least3 a b c)
three_lem a b c =
    most_restrictive_lem (a ∷ b ∷ c ∷ [])
    ∙ ap (λ (x : Option ℕ). mode_at (or_zero x)) (least_of_three a b c)

least3_bounds :
    (a b c : Mode)
    → (least3 a b c ≤ 4)
      × (states a ≡ true → least3 a b c ≤ level a)
      × (states b ≡ true → least3 a b c ≤ level b)
      × (states c ≡ true → least3 a b c ≤ level c)
unfolding meet
least3_bounds a b c = ground (arith, collection_lem a, collection_lem b, collection_lem c)

least3_reached :
    (a b c : Mode)
    → ((states a ≡ true) × (least3 a b c ≡ level a))
      ⊎ (((states b ≡ true) × (least3 a b c ≡ level b))
          ⊎ (((states c ≡ true) × (least3 a b c ≡ level c))
              ⊎ (IsSilent a b c × (least3 a b c ≡ 0))))
unfolding meet
least3_reached a b c = ground arith

pub three-level : (a b c : Mode) → level (most_restrictive (a ∷ b ∷ c ∷ [])) ≡ least3 a b c
three-level a b c =
    ap level (three_lem a b c) ∙ level-mode_at (least3 a b c) (least3_bounds a b c).0

abbrev pub result : Mode → Mode → Mode → Mode
result a b c = most_restrictive (a ∷ b ∷ c ∷ [])

reached_at :
    (a b c : Mode)
    → ((states a ≡ true) × (level (result a b c) ≡ level a))
      ⊎ (((states b ≡ true) × (level (result a b c) ≡ level b))
          ⊎ (((states c ≡ true) × (level (result a b c) ≡ level c))
              ⊎ (IsSilent a b c × (result a b c ≡ mode_off))))
reached_at a b c = elim (least3_reached a b c) [
  | inl (x, y) ↦ inl (x, three-level a b c ∙ y)
  | inr (inl (x, y)) ↦ inr (inl (x, three-level a b c ∙ y))
  | inr (inr (inl (x, y))) ↦ inr (inr (inl (x, three-level a b c ∙ y)))
  | inr (inr (inr (silence, y))) ↦
      inr (inr (inr (silence, three_lem a b c ∙ (ap mode_at y ∙ unfold mode_at in refl))))
]

three-IsLeast : (a b c : Mode) → IsLeast (most_restrictive (a ∷ b ∷ c ∷ [])) a b c
three-IsLeast a b c =
    let (_, first, second, third) = least3_bounds a b c in
    let same = three-level a b c in
    record {
      bound_first = λ h. rw same (first h);
      bound_second = λ h. rw same (second h);
      bound_third = λ h. rw same (third h);
      reached = reached_at a b c;
      placed = three_lem a b c ∙ ap mode_at (sym same);
      speaks = rw three_lem (states-mode_at (least3 a b c));
    }

pub record IsResolved (p domain batch recipient : Policy) : Type 0 where
  pub opens : IsLeast p.opens domain.opens batch.opens recipient.opens
  pub links : IsLeast p.links domain.links batch.links recipient.links

-- On each axis the resolved Policy collects no more than any level that states something, and
-- exactly what some such level does; it is off where no level states anything, and it always states
-- a Mode that this build can read.
pub resolve-IsResolved :
    (domain batch recipient : Policy)
    → IsResolved (resolve domain batch recipient) domain batch recipient
unfolding resolve
resolve-IsResolved d b r = record {
  opens = three-IsLeast d.opens b.opens r.opens;
  links = three-IsLeast d.links b.links r.links;
}

result_swap : (a b c : Mode) → result a b c ≡ result b a c
result_swap a b c =
    three_lem a b c
    ∙ (ap (λ (x : Option ℕ). mode_at (or_zero x))
          (sym (meet_assoc (stated a) (stated b) (stated c))
            ∙ (ap (λ (x : Option ℕ). meet x (stated c)) (meet_comm (stated a) (stated b))
                ∙ meet_assoc (stated b) (stated a) (stated c)))
        ∙ sym (three_lem b a c))

result_rotate : (a b c : Mode) → result a b c ≡ result b c a
result_rotate a b c =
    three_lem a b c
    ∙ (ap (λ (x : Option ℕ). mode_at (or_zero x))
          (meet_comm (stated a) (meet (stated b) (stated c))
            ∙ meet_assoc (stated b) (stated c) (stated a))
        ∙ sym (three_lem b c a))

-- It makes no difference at which level a Policy is stated: every order of the three resolves to
-- the same Policy.
pub resolve_any_order :
    (p q r : Policy) → (resolve p q r ≡ resolve q p r) × (resolve p q r ≡ resolve q r p)
unfolding resolve
resolve_any_order p q r = (
  cc (result_swap p.opens q.opens r.opens, result_swap p.links q.links r.links),
  cc (result_rotate p.opens q.opens r.opens, result_rotate p.links q.links r.links),
)

pub silent : states [] ≡ false
unfolding states list_beq
silent = refl

least3_alone : (m : Mode) → states m ≡ true → least3 m [] [] ≡ level m
unfolding meet
least3_alone m h = ground (arith, silent)

result_alone : (m : Mode) → m ≡ mode_at (level m) → states m ≡ true → result m [] [] ≡ m
result_alone m placed speaks = three_lem m [] [] ∙ (ap mode_at (least3_alone m speaks) ∙ sym placed)

normalized_at_rest : (p x y z : Policy) → IsResolved p x y z → normalized p ≡ p
unfolding normalized resolve
normalized_at_rest p x y z h = cc (
  result_alone p.opens h.opens.placed h.opens.speaks,
  result_alone p.links h.links.placed h.links.speaks,
)

-- A resolved Policy is at rest: normalising it changes nothing, and so does normalising twice.
pub normalized-resolve :
    (domain batch recipient : Policy)
    → (normalized (resolve domain batch recipient) ≡ resolve domain batch recipient)
      × (normalized (normalized domain) ≡ normalized domain)
normalized-resolve d b r = (
  normalized_at_rest (resolve d b r) d b r (resolve-IsResolved d b r),
  normalized_at_rest (normalized d) d no_policy no_policy
      (unfold normalized in resolve-IsResolved d no_policy no_policy),
)
