-- ===== src/Pool/Claims.antt =====
-- Claiming for dispatch: `PrepareForSend` of internal/db/delivery_repo.go.
use kannon.Base.{
  ℕ, ◌≤◌, ◌≡◌, refl, sym, ap, ◌∙◌, inl, inr, Bool, true, false, some, List, [], ◌∷◌, length, arith,
  nat_eq, list_eq, list_beq_iff, any-false, All, All-map, In, In-All, Some-witness,
}
use kannon.Base.Int.{ℤ, ltb_ℤ}
use kannon.Pool.{
  Row, Status, scheduled, sending, status_beq_iff, has_key, due, claim_for_send, prepare_for_send,
  update_limit,
}
use kannon.Pool.Scan.{IsChanged, length-returned, returned-IsChanged, returned-In}
use kannon.Pool.Keys.{UniqueKeys, update_limit-UniqueKeys}

-- What a claim hands to its worker, against the table before it.
pub record IsDispatched (now : ℤ) (rows : List Row) (y : Row) : Type 0 where
  pub before : Row
  pub stored : In rows before
  pub was_scheduled : before.status ≡ scheduled
  pub was_due : ltb_ℤ now before.scheduled_time ≡ false
  pub now_claimed : y ≡ record before { status = sending; claimed_at = some now }

due-cases :
    (locked : Row → Bool) (now : ℤ) (r : Row)
    → due locked now r ≡ true
    → (r.status ≡ scheduled) × (ltb_ℤ now r.scheduled_time ≡ false)
unfolding due
due-cases locked now r h = ground (arith, status_beq_iff r.status scheduled)

IsChanged-IsDispatched :
    (locked : Row → Bool) (now : ℤ) (rows : List Row) (y : Row)
    → IsChanged (due locked now) (claim_for_send now) rows y
    → IsDispatched now rows y
unfolding claim_for_send
IsChanged-IsDispatched locked now rows y h =
    let (r, m, (k, e)) =
      Some-witness (λ q. (due locked now q ≡ true) × (claim_for_send now q ≡ y)) rows h in
    let (s, d) = due-cases locked now r k in
    record { before = r; stored = m; was_scheduled = s; was_due = d; now_claimed = sym e }

-- A claim for dispatch returns at most `max` rows. Each of them stood in the table as scheduled, its
-- scheduled time not after `now`, and has become `sending`, claimed at `now`, and is otherwise as it
-- was.
pub prepare_for_send-IsDispatched :
    (locked : Row → Bool) (now : ℤ) (max : ℕ) (rows : List Row)
    → (length (prepare_for_send locked now max rows).returned ≤ max)
      × All (IsDispatched now rows) (prepare_for_send locked now max rows).returned
unfolding prepare_for_send
prepare_for_send-IsDispatched locked now max rows = (
  length-returned (due locked now) (claim_for_send now) max rows,
  All-map (update_limit (due locked now) (claim_for_send now) max rows).returned
      (λ y h. IsChanged-IsDispatched locked now rows y h)
      (returned-IsChanged (due locked now) (claim_for_send now) max rows),
)

-- The key of a row is that of another one.
abbrev pub SameKey : Row → Row → Type 0
SameKey a b = (a.email ≡ b.email) × (a.message_id ≡ b.message_id)

has_key-false : (a b : Row) → has_key a.email a.message_id b ≡ false → SameKey a b → ⊥
unfolding has_key
has_key-false a b h (e, m) =
    ground (arith, list_beq_iff b.email a.email, list_beq_iff b.message_id a.message_id)

-- Rows of one key are one row.
pub same_row :
    (rows : List Row) (a b : Row) → UniqueKeys rows → In rows a → In rows b → SameKey a b → a ≡ b
same_row [] a b u ia ib k = absurd ia
same_row (r ∷ rows) a b u (inl x) (inl y) k = sym x ∙ y
same_row (r ∷ rows) a b u (inl x) (inr y) k = absurd (
    has_key-false r b
      (In-All (λ q. has_key r.email r.message_id q ≡ false) rows b y
        (any-false (has_key r.email r.message_id) rows u.0))
      (ap (λ (q : Row). q.email) x ∙ k.0, ap (λ (q : Row). q.message_id) x ∙ k.1))
same_row (r ∷ rows) a b u (inr x) (inl y) k = absurd (
    has_key-false r a
      (In-All (λ q. has_key r.email r.message_id q ≡ false) rows a x
        (any-false (has_key r.email r.message_id) rows u.0))
      (ap (λ (q : Row). q.email) y ∙ sym k.0, ap (λ (q : Row). q.message_id) y ∙ sym k.1))
same_row (r ∷ rows) a b u (inr x) (inr y) k = same_row rows a b u.1 x y k

sending_is_not_scheduled : (a b : Row) → a ≡ b → a.status ≡ sending → b.status ≡ scheduled → ⊥
sending_is_not_scheduled a b e s t = differ a.status s (ap (λ (q : Row). q.status) e ∙ t)
  where
    differ : (x : Status) → x ≡ sending → x ≡ scheduled → ⊥
    differ x p q = ground arith

unique_after :
    (l : Row → Bool) (n : ℤ) (m : ℕ) (rs : List Row)
    → UniqueKeys rs
    → UniqueKeys (prepare_for_send l n m rs).table
unfolding prepare_for_send claim_for_send
unique_after l n m rs h =
    update_limit-UniqueKeys (claim_for_send n) (λ r. (refl, refl)) (due l n) m rs h

returned_stands :
    (l : Row → Bool) (n : ℤ) (m : ℕ) (rs : List Row) (y : Row)
    → In (prepare_for_send l n m rs).returned y
    → In (prepare_for_send l n m rs).table y
unfolding prepare_for_send
returned_stands l n m rs y h =
    In-All (In (update_limit (due l n) (claim_for_send n) m rs).table)
      (update_limit (due l n) (claim_for_send n) m rs).returned y h
      (returned-In (due l n) (claim_for_send n) m rs)

-- Where the keys are unique, no row that a claim for dispatch returns has the key of a row that the
-- claim before it returned.
pub prepare_for_send_exclusive :
    (locked locked_later : Row → Bool) (now later : ℤ) (max max_later : ℕ) (rows : List Row)
    (a b : Row)
    → UniqueKeys rows
    → In (prepare_for_send locked now max rows).returned a
    → In
        (prepare_for_send locked_later later max_later
          (prepare_for_send locked now max rows).table).returned
        b
    → ¬ SameKey a b
prepare_for_send_exclusive locked locked_later now later max max_later rows a b u ia ib k =
    let first = prepare_for_send locked now max rows in
    let da =
      In-All (IsDispatched now rows) first.returned a ia
        (prepare_for_send-IsDispatched locked now max rows).1 in
    let second = prepare_for_send locked_later later max_later first.table in
    let db =
      In-All (IsDispatched later first.table) second.returned b ib
        (prepare_for_send-IsDispatched locked_later later max_later first.table).1 in
    sending_is_not_scheduled a db.before
      (same_row first.table a db.before (unique_after locked now max rows u)
        (returned_stands locked now max rows a ia) db.stored
        (
          k.0 ∙ ap (λ (q : Row). q.email) db.now_claimed,
          k.1 ∙ ap (λ (q : Row). q.message_id) db.now_claimed,
        ))
      (ap (λ (q : Row). q.status) da.now_claimed) db.was_scheduled
