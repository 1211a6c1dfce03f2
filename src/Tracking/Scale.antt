-- ===== src/Tracking/Scale.antt =====
-- The scale of Tracking Modes: `Rank` and `collection` of internal/tracking/tracking.go.
use Prim.Native.Nat.{zero-le}
use mathlib.Core.Path.{subst}
use kannon.Base.{
  ℕ, zero, suc, ◌≤◌, ◌≡◌, refl, sym, ap, true, not, Option, none, some, arith, leb, nat_eq, list_eq,
  list_beq, list_beq_iff, if◌then◌else◌,
}
use kannon.Tracking.{
  Mode, mode_off, mode_anonymous, mode_pseudonymous, mode_identified, mode_full, find_rank, rank,
  states, rank_or_zero, collection, reaches,
}

-- The Mode at each position of the scale.
unfoldable pub mode_at : ℕ → Mode
mode_at zero = mode_off
mode_at (suc zero) = mode_anonymous
mode_at (suc (suc zero)) = mode_pseudonymous
mode_at (suc (suc (suc zero))) = mode_identified
mode_at (suc (suc (suc (suc n)))) = mode_full

-- A Mode has a position exactly when it is the Mode there.
pub rank-mode_at : (n : ℕ) → n ≤ 4 → rank (mode_at n) ≡ some n
unfolding rank find_rank mode_at list_beq
rank-mode_at zero h = refl
rank-mode_at (suc zero) h = refl
rank-mode_at (suc (suc zero)) h = refl
rank-mode_at (suc (suc (suc zero))) h = refl
rank-mode_at (suc (suc (suc (suc zero)))) h = refl
rank-mode_at (suc (suc (suc (suc (suc n))))) h = absurd (omega arith)

pub mode_at-rank : (m : Mode) {n : ℕ} → rank m ≡ some n → (m ≡ mode_at n) × (n ≤ 4)
unfolding rank find_rank mode_at
mode_at-rank m h = ground (
  arith,
  list_beq_iff mode_off m,
  list_beq_iff mode_anonymous m,
  list_beq_iff mode_pseudonymous m,
  list_beq_iff mode_identified m,
  list_beq_iff mode_full m,
)

-- How much is collected under a Mode: its position, and nothing for one that cannot be read.
abbrev pub level : Mode → ℕ
level m = (collection m).1

pub collection_read : (m : Mode) {r : ℕ} → rank m ≡ some r → collection m ≡ (m, r)
unfolding collection
collection_read m e = rw (e, collection) refl

-- A Mode that this build cannot read collects nothing.
pub collection_unread : (m : Mode) → rank m ≡ none → collection m ≡ (mode_off, 0)
unfolding collection rank_or_zero
collection_unread m e = rw (e, collection) (rw (rank-mode_off, rank_or_zero) refl)
  where
    rank-mode_off : rank mode_off ≡ some 0
    rank-mode_off = unfold mode_at in rank-mode_at 0 (omega arith)

abbrev IsOnScale : Mode × ℕ → Type 0
IsOnScale p = (p.0 ≡ mode_at p.1) × (p.1 ≤ 4)

pub collection_lem : (m : Mode) → ((collection m).0 ≡ mode_at (level m)) × (level m ≤ 4)
collection_lem m = go (rank m) refl
  where
    go : (o : Option ℕ) → rank m ≡ o → ((collection m).0 ≡ mode_at (level m)) × (level m ≤ 4)
    go none e = subst IsOnScale (sym (collection_unread m e)) (unfold mode_at in refl, zero-le)
    go (some r) e = subst IsOnScale (sym (collection_read m e)) (mode_at-rank m e)

pub level-mode_at : (n : ℕ) → n ≤ 4 → level (mode_at n) ≡ n
level-mode_at n h = ap (λ (p : Mode × ℕ). p.1) (collection_read (mode_at n) (rank-mode_at n h))

pub states-mode_at : (n : ℕ) → states (mode_at n) ≡ true
unfolding states mode_at list_beq
states-mode_at zero = refl
states-mode_at (suc zero) = refl
states-mode_at (suc (suc zero)) = refl
states-mode_at (suc (suc (suc zero))) = refl
states-mode_at (suc (suc (suc (suc n)))) = refl

-- Silence is permission, and any statement is judged by its level.
pub reaches_lem :
    (m rung : Mode)
    → reaches m rung ≡ (if not (states m) then true else leb (rank_or_zero rung) (level m))
unfolding reaches
reaches_lem m rung = refl
