-- ===== src/Base/Lists.antt =====
-- Lists measured by native numbers, predicates over lists by recursion, and searches in a list.
use Prim.Native.Nat.{ℕ, zero, suc, ◌+◌}
use mathlib.Core.Path.{◌≡◌, refl, subst}
use mathlib.Core.Logic.{◌⊎◌, inl, inr}
use mathlib.Core.Bool.{Bool, true, false, ◌||◌}
use mathlib.Core.List.{List, [], ◌∷◌, ◌++◌}
use native.Mathlib.Omega.{arith}
use kannon.Base.Tests.{Comparable, ◌==◌, or-true}

module _ {ℓ} {A : Type ℓ} where
  abbrev pub length : List A → ℕ
  length [] = 0
  length (x ∷ xs) = suc (length xs)

  pub length-append : (xs ys : List A) → length (xs ++ ys) ≡ length xs + length ys
  length-append [] ys = omega arith
  length-append (x ∷ xs) ys = omega (arith, length-append xs ys)

  abbrev pub get_or : List A → ℕ → A → A
  get_or [] i d = d
  get_or (x ∷ xs) zero d = x
  get_or (x ∷ xs) (suc i) d = get_or xs i d

  abbrev pub take : ℕ → List A → List A
  take zero xs = []
  take (suc n) [] = []
  take (suc n) (x ∷ xs) = x ∷ take n xs

-- Every element has the property.
abbrev pub All {ℓ κ} : {T : Type ℓ} → (T → Type κ) → List T → Type κ
All Q [] = Unit
All Q (a ∷ rest) = Q a × All Q rest

-- Some element has the property, and it is known which.
abbrev pub Some {ℓ} : {A : Type ℓ} → (A → Type 0) → List A → Type 0
Some P [] = ⊥
Some P (x ∷ xs) = P x ⊎ Some P xs

-- A loop that returns true at the first element that passes a test.
unfoldable pub any {ℓ} : {A : Type ℓ} → (A → Bool) → List A → Bool
any p [] = false
any p (x ∷ xs) = p x || any p xs

-- `slices.Contains`
unfoldable pub contains {ℓ} : {A : Type ℓ} ⦃e : Comparable A⦄ → List A → A → Bool
contains xs a = any (λ x. x == a) xs

module _ {ℓ} {A : Type ℓ} where
  pub any-Some : (p : A → Bool) (xs : List A) → any p xs ≡ true → Some (λ x. p x ≡ true) xs
  unfolding any
  any-Some p [] h = ground arith
  any-Some p (x ∷ xs) h = elim (or-true (p x) (any p xs) h) [
    | inl a ↦ inl a
    | inr b ↦ inr (any-Some p xs b)
  ]

  pub Some-any : (p : A → Bool) (xs : List A) → Some (λ x. p x ≡ true) xs → any p xs ≡ true
  unfolding any
  Some-any p [] h = absurd h
  Some-any p (x ∷ xs) (inl a) = rw a
  Some-any p (x ∷ xs) (inr b) = ground (arith, Some-any p xs b)

  pub Some-map : {P Q : A → Type 0} (xs : List A) → ((x : A) → P x → Q x) → Some P xs → Some Q xs
  Some-map [] f h = h
  Some-map (x ∷ xs) f (inl a) = inl (f x a)
  Some-map (x ∷ xs) f (inr b) = inr (Some-map xs f b)

  -- A property of all elements is at hand at the element that has another one.
  pub Some-map-All :
      {P Q R : A → Type 0} (xs : List A)
      → ((x : A) → R x → P x → Q x)
      → All R xs
      → Some P xs
      → Some Q xs
  Some-map-All [] f r h = h
  Some-map-All (x ∷ xs) f r (inl a) = inl (f x r.0 a)
  Some-map-All (x ∷ xs) f r (inr b) = inr (Some-map-All xs f r.1 b)

  pub Some-append_left : (P : A → Type 0) (xs ys : List A) → Some P xs → Some P (xs ++ ys)
  Some-append_left P [] ys h = absurd h
  Some-append_left P (x ∷ xs) ys (inl a) = inl a
  Some-append_left P (x ∷ xs) ys (inr b) = inr (Some-append_left P xs ys b)

  pub Some-append_right : (P : A → Type 0) (xs ys : List A) → Some P ys → Some P (xs ++ ys)
  Some-append_right P [] ys h = h
  Some-append_right P (x ∷ xs) ys h = inr (Some-append_right P xs ys h)

  pub Some-append_cases :
      (P : A → Type 0) (xs ys : List A) → Some P (xs ++ ys) → Some P xs ⊎ Some P ys
  Some-append_cases P [] ys h = inr h
  Some-append_cases P (x ∷ xs) ys (inl a) = inl (inl a)
  Some-append_cases P (x ∷ xs) ys (inr b) = elim (Some-append_cases P xs ys b) [
    | inl c ↦ inl (inr c)
    | inr d ↦ inr d
  ]

  pub All-append {κ} :
      (Q : A → Type κ) (front back : List A) → All Q front → All Q back → All Q (front ++ back)
  All-append Q [] back _ behind = behind
  All-append Q (a ∷ front) back (here, ahead) behind = (here, All-append Q front back ahead behind)

  pub All-map {κ μ} :
      {P : A → Type κ} {Q : A → Type μ} (xs : List A) → ((x : A) → P x → Q x) → All P xs → All Q xs
  All-map [] f h = tt
  All-map (x ∷ xs) f h = (f x h.0, All-map xs f h.1)

  pub All-of_All {κ} : {P : A → Type κ} (xs : List A) → ((x : A) → P x) → All P xs
  All-of_All [] f = tt
  All-of_All (x ∷ xs) f = (f x, All-of_All xs f)

  -- A loop that never passes: every element fails the test.
  pub any-false : (p : A → Bool) (xs : List A) → any p xs ≡ false → All (λ x. p x ≡ false) xs
  unfolding any
  any-false p [] h = tt
  any-false p (x ∷ xs) h = (ground arith, any-false p xs (ground arith))

-- The element is in the list.
abbrev pub In : {A : Type 0} → List A → A → Type 0
In xs a = Some (λ x. x ≡ a) xs

pub All-In_cons : {A : Type 0} (x : A) (xs ys : List A) → All (In xs) ys → All (In (x ∷ xs)) ys
All-In_cons x xs [] h = tt
All-In_cons x xs (y ∷ ys) h = (inr h.0, All-In_cons x xs ys h.1)

pub All-In : {A : Type 0} (xs : List A) → All (In xs) xs
All-In [] = tt
All-In (x ∷ xs) = (inl refl, All-In_cons x xs xs (All-In xs))

pub In-All {κ} : {A : Type 0} (P : A → Type κ) (xs : List A) (a : A) → In xs a → All P xs → P a
In-All P (x ∷ xs) a (inl e) h = subst P e h.0
In-All P (x ∷ xs) a (inr m) h = In-All P xs a m h.1
In-All P [] a m h = absurd m

pub Some-witness : {A : Type 0} (P : A → Type 0) (xs : List A) → Some P xs → (x : A) × In xs x × P x
Some-witness P [] h = absurd h
Some-witness P (x ∷ xs) (inl a) = (x, inl refl, a)
Some-witness P (x ∷ xs) (inr b) = let (y, m, h) = Some-witness P xs b in (y, inr m, h)

pub In-Some : {A : Type 0} (P : A → Type 0) (xs : List A) (x : A) → In xs x → P x → Some P xs
In-Some P [] x m h = absurd m
In-Some P (y ∷ ys) x (inl e) h = inl (rw e h)
In-Some P (y ∷ ys) x (inr m) h = inr (In-Some P ys x m h)

pub contains-Some :
    {A : Type 0} ⦃e : Comparable A⦄ (xs : List A) (a : A)
    → contains xs a ≡ true
    → Some (λ x. x ≡ a) xs
unfolding contains
contains-Some ⦃e⦄ xs a h = Some-map xs (λ x k. (e.equals_iff x a).0 k) (any-Some (λ x. x == a) xs h)

pub Some-contains :
    {A : Type 0} ⦃e : Comparable A⦄ (xs : List A) (a : A)
    → Some (λ x. x ≡ a) xs
    → contains xs a ≡ true
unfolding contains
Some-contains ⦃e⦄ xs a h = Some-any (λ x. x == a) xs (Some-map xs (λ x k. (e.equals_iff x a).1 k) h)
