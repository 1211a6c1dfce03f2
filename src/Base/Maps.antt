-- ===== src/Base/Maps.antt =====
-- A Go map as a list of entries with different keys.
use Prim.Native.Nat.{suc, ◌≤◌}
use mathlib.Core.Path.{◌≡◌, refl}
use mathlib.Core.Logic.{inl, inr}
use mathlib.Core.Bool.{false}
use mathlib.Core.List.{List, [], ◌∷◌}
use mathlib.Core.Option.{Option, none, some}
use native.Mathlib.Omega.{arith}
use kannon.Base.Tests.{Comparable, ◌==◌, if◌then◌else◌, Bool-cases, equals_self}
use kannon.Base.Lists.{length}

module _ {K V : Type 0} ⦃e : Comparable K⦄ where
  unfoldable pub lookup : K → List (K × V) → Option V
  lookup k [] = none
  lookup k ((j, v) ∷ m) = if j == k then some v else lookup k m

  -- an assignment to a key
  unfoldable pub put : K → V → List (K × V) → List (K × V)
  put k v [] = (k, v) ∷ []
  put k v ((j, w) ∷ m) = if j == k then (k, v) ∷ m else (j, w) ∷ put k v m

  pub lookup-put : (k : K) (v : V) (m : List (K × V)) → lookup k (put k v m) ≡ some v
  unfolding lookup put
  lookup-put k v [] = rw (equals_self k) refl
  lookup-put k v ((j, w) ∷ m) = elim (Bool-cases (j == k)) [
    | inl h ↦ rw h (rw (equals_self k) refl)
    | inr h ↦ rw h (rw h (lookup-put k v m))
  ]

  pub lookup-put_other :
      (j k : K) (v : V) (m : List (K × V)) → (j == k) ≡ false → lookup k (put j v m) ≡ lookup k m
  unfolding lookup put
  lookup-put_other j k v [] h = rw h refl
  lookup-put_other j k v ((i, w) ∷ m) h = elim (Bool-cases (i == j)) [
    | inl s ↦ let same : i ≡ j = (e.equals_iff i j).0 s in rw s (rw h (rw same (rw h refl)))
    | inr s ↦ rw s (elim (Bool-cases (i == k)) [
      | inl q ↦ rw q refl
      | inr q ↦ rw q (lookup-put_other j k v m h)
    ])
  ]

  pub length-put : (k : K) (v : V) (m : List (K × V)) → length (put k v m) ≤ suc (length m)
  unfolding put
  length-put k v [] = omega arith
  length-put k v ((j, w) ∷ m) = elim (Bool-cases (j == k)) [
    | inl h ↦ rw h (omega arith)
    | inr h ↦ rw h (omega (arith, length-put k v m))
  ]
