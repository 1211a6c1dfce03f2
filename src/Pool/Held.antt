-- ===== src/Pool/Held.antt =====
-- The instant of a claim: the column claimed_at of sending_pool_emails, which a reclaim looks at.
use mathlib.Core.Path.{subst}
use kannon.Base.{
  ℕ, ◌≡◌, refl, sym, ap, ◌⊎◌, inl, inr, Bool, true, false, some, List, [], ◌∷◌, ◌++◌, map, Text,
  arith, All, All-append, Bool-cases, if◌then◌else◌,
}
use kannon.Base.Int.{ℤ}
use kannon.Delivery.{Delivery}
use kannon.Pool.{
  Row, Claimed, to_validate, scheduled, has_key, update_where, delete_where, prepare_for_send,
  prepare_for_validate, reclaim_stranded, reschedule_pool, set_sending_pool_scheduled, clean_pool,
  copy_rows, insertable, due, pending, stranded, claim_for_send, claim_for_validation, hand_back,
  push_back, set_scheduled_row,
}
use kannon.Pool.Scan.{update_limit-All}
use kannon.Pool.Repository.{
  Repository, InFlight, ReclaimTarget, schedule, new_row, reclaim, reclaim_target, reclaim_params,
}
use kannon.Pool.Targets.{reclaim_cases, target_cases}
use kannon.Pool.Keys.{
  Step, inserted, claimed_for_send, claimed_for_validation, reclaimed, rescheduled, validated,
  cleaned, Reachable, empty, next,
}

-- not claimed, or claimed at an instant that the row has
abbrev pub IsHeld : Row → Type 0
IsHeld r =
    ((r.status ≡ to_validate) ⊎ (r.status ≡ scheduled)) ⊎ ((at : ℤ) × (r.claimed_at ≡ some at))

update_where-All :
    (P : Row → Type 0) (p : Row → Bool) (change : Row → Row)
    → ((r : Row) → P (change r))
    → (rows : List Row) → All P rows
    → All P (update_where p change rows)
unfolding update_where
update_where-All P p change gives [] h = tt
update_where-All P p change gives (r ∷ rows) h =
    (one (p r), update_where-All P p change gives rows h.1)
  where
    one : (b : Bool) → P (if b then change r else r)
    one true = gives r
    one false = h.0

delete_where-All :
    (P : Row → Type 0) (p : Row → Bool) (rows : List Row) → All P rows → All P (delete_where p rows)
unfolding delete_where
delete_where-All P p [] h = tt
delete_where-All P p (r ∷ rows) h = one (p r) (delete_where-All P p rows h.1)
  where
    one :
        (b : Bool)
        → All P (delete_where p rows)
        → All P (if b then delete_where p rows else r ∷ delete_where p rows)
    one true k = k
    one false k = (h.0, k)

copy_rows-All :
    (P : Row → Type 0) (known : Text → Bool) (rows new_rows : List Row) {table : List Row}
    → All P rows
    → All P new_rows
    → copy_rows known rows new_rows ≡ some table
    → All P table
unfolding copy_rows
copy_rows-All P known rows [] h k e = subst (All P) (ground arith) h
copy_rows-All P known rows (r ∷ new_rows) h k e = elim (Bool-cases (insertable known rows r)) [
  | inl ok ↦
      copy_rows-All P known (rows ++ r ∷ []) new_rows (All-append P rows (r ∷ []) h (k.0, tt)) k.1
        (ground arith)
  | inr bad ↦ absurd (ground arith)
]

new_rows-All : (repo : Repository) (ds : List Delivery) → All IsHeld (map (new_row repo) ds)
unfolding new_row
new_rows-All repo [] = tt
new_rows-All repo (d ∷ ds) = (inl (inl refl), new_rows-All repo ds)

target-IsHeld :
    (f : InFlight) (t : ReclaimTarget) (older_than max : ℕ)
    → reclaim_target f ≡ some t
    → (r : Row) → IsHeld (hand_back (reclaim_params t older_than max) r)
unfolding hand_back reclaim_params
target-IsHeld f t older_than max e r = elim (target_cases f t e) [
  | inl (_, a) ↦ inl (inr (ap (λ (x : ReclaimTarget). x.to_status) a))
  | inr (_, a) ↦ inl (inl (ap (λ (x : ReclaimTarget). x.to_status) a))
]

reclaim-IsHeld :
    (locked : Row → Bool) (now : ℤ) (f : InFlight) (older_than max : ℕ) (rows : List Row)
    (c : Claimed)
    → reclaim locked now f older_than max rows ≡ some c
    → All IsHeld rows
    → All IsHeld c.table
unfolding reclaim_stranded reclaim_params
reclaim-IsHeld locked now f older_than max rows c e h =
    let (t, n, k, _, same) = reclaim_cases locked now f older_than max rows c e in
    subst (λ (x : Claimed). All IsHeld x.table) (sym same)
      (update_limit-All (stranded locked now (reclaim_params t older_than n))
        (hand_back (reclaim_params t older_than n)) IsHeld (target-IsHeld f t older_than n k) n rows
        h)

Step-IsHeld :
    {rows new_table : List Row} → Step rows new_table → All IsHeld rows → All IsHeld new_table
unfolding prepare_for_send prepare_for_validate reschedule_pool set_sending_pool_scheduled
    clean_pool schedule claim_for_send claim_for_validation push_back set_scheduled_row
Step-IsHeld {rows = rows} (inserted repo known ds e) h =
    copy_rows-All IsHeld known rows (map (new_row repo) ds) h (new_rows-All repo ds) e
Step-IsHeld {rows = rows} (claimed_for_send locked now max) h =
    update_limit-All (due locked now) (claim_for_send now) IsHeld (λ r. inr (now, refl)) max rows h
Step-IsHeld {rows = rows} (claimed_for_validation locked now max) h =
    update_limit-All (pending locked) (claim_for_validation now) IsHeld (λ r. inr (now, refl)) max
      rows h
Step-IsHeld {rows = rows} (reclaimed locked now f older_than max c e) h =
    reclaim-IsHeld locked now f older_than max rows c e h
Step-IsHeld {rows = rows} (rescheduled at email message_id) h =
    update_where-All IsHeld (has_key email message_id) (push_back at) (λ r. inl (inr refl)) rows h
Step-IsHeld {rows = rows} (validated email message_id) h =
    update_where-All IsHeld (has_key email message_id) set_scheduled_row (λ r. inl (inr refl)) rows
      h
Step-IsHeld {rows = rows} (cleaned email message_id) h =
    delete_where-All IsHeld (has_key email message_id) rows h

-- In every pool that the statements can make from the empty one, a row is `to_validate` or
-- `scheduled`, or it has the instant of its claim.
pub Reachable-IsHeld : {rows : List Row} → Reachable rows → All IsHeld rows
Reachable-IsHeld empty = tt
Reachable-IsHeld (next before step) = Step-IsHeld step (Reachable-IsHeld before)
