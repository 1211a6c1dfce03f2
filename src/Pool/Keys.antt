-- ===== src/Pool/Keys.antt =====
-- The statements of internal/db/pool.sql.go as steps of the pool, and the rows' keys, which the index
-- unique_emails_message_id_idx of db/schema.sql is on.
use mathlib.Core.Path.{subst}
use kannon.Base.{
  ℕ, zero, suc, ◌≡◌, refl, sym, ◌∙◌, inl, inr, Bool, true, false, ◌&&◌, some, List, [], ◌∷◌, ◌++◌,
  map, Text, any, list_beq_iff, nat_eq, list_eq, ◌==◌, arith, Bool-cases, Bool-eq_of_iff,
}
use kannon.Base.Int.{ℤ}
use kannon.Delivery.{Delivery}
use kannon.Pool.{
  Row, Claimed, has_key, update_where, delete_where, update_limit, keep_row, take_row,
  prepare_for_send, prepare_for_validate, reclaim_stranded, reschedule_pool,
  set_sending_pool_scheduled, clean_pool, copy_rows, insertable, due, pending, stranded,
  claim_for_send, claim_for_validation, hand_back, push_back, set_scheduled_row,
}
use kannon.Pool.Scan.{update_limit_hit, update_limit_miss}
use kannon.Pool.Targets.{reclaim_cases}
use kannon.Pool.Repository.{InFlight, reclaim, reclaim_params, Repository, schedule, new_row}

-- One statement of any worker, with every choice of the rows that others hold, of the clock and of
-- the statement's arguments.
pub data Step : List Row → List Row → Type 0 where
  inserted :
      {rows new_table : List Row} (repo : Repository) (known : Text → Bool) (ds : List Delivery)
      → schedule repo known ds rows ≡ some new_table
      → Step rows new_table
  claimed_for_send :
      {rows : List Row} (locked : Row → Bool) (now : ℤ) (max : ℕ)
      → Step rows (prepare_for_send locked now max rows).table
  claimed_for_validation :
      {rows : List Row} (locked : Row → Bool) (now : ℤ) (max : ℕ)
      → Step rows (prepare_for_validate locked now max rows).table
  reclaimed :
      {rows : List Row} (locked : Row → Bool) (now : ℤ) (f : InFlight) (older_than max : ℕ)
      (c : Claimed)
      → reclaim locked now f older_than max rows ≡ some c
      → Step rows c.table
  rescheduled :
      {rows : List Row} (at : ℤ) (email message_id : Text)
      → Step rows (reschedule_pool at email message_id rows)
  validated :
      {rows : List Row} (email message_id : Text)
      → Step rows (set_sending_pool_scheduled email message_id rows)
  cleaned :
      {rows : List Row} (email message_id : Text) → Step rows (clean_pool email message_id rows)

-- What the pool can become from empty.
pub data Reachable : List Row → Type 0 where
  empty : Reachable []
  next : {rows new_table : List Row} → Reachable rows → Step rows new_table → Reachable new_table

abbrev pub UniqueKeys : List Row → Type 0
UniqueKeys [] = Unit
UniqueKeys (r ∷ rows) = (any (has_key r.email r.message_id) rows ≡ false) × UniqueKeys rows

abbrev pub KeepsKey : (Row → Row) → Type 0
KeepsKey change = (r : Row) → ((change r).email ≡ r.email) × ((change r).message_id ≡ r.message_id)

module _ (change : Row → Row) (keeps : KeepsKey change) where
  pub has_key-change :
      (email message_id : Text) (r : Row)
      → has_key email message_id (change r) ≡ has_key email message_id r
  unfolding has_key
  has_key-change email message_id r = rw (keeps r).0 (rw (keeps r).1 refl)

  pub any-update_limit :
      (p : Row → Bool) (n : ℕ) (rows : List Row) (email message_id : Text)
      → any (has_key email message_id) (update_limit p change n rows).table
        ≡ any (has_key email message_id) rows
  unfolding update_limit any keep_row take_row
  any-update_limit p n [] email message_id = refl
  any-update_limit p zero (r ∷ rows) email message_id = refl
  any-update_limit p (suc n) (r ∷ rows) email message_id = elim (Bool-cases (p r)) [
    | inl e ↦ rw (update_limit_hit p change n r rows e) (
        rw (has_key-change email message_id r)
          (rw (any-update_limit p n rows email message_id) refl))
    | inr e ↦
        rw (update_limit_miss p change n r rows e)
          (rw (any-update_limit p (suc n) rows email message_id) refl)
  ]

  pub update_limit-UniqueKeys :
      (p : Row → Bool) (n : ℕ) (rows : List Row)
      → UniqueKeys rows
      → UniqueKeys (update_limit p change n rows).table
  unfolding update_limit keep_row take_row
  update_limit-UniqueKeys p n [] h = tt
  update_limit-UniqueKeys p zero (r ∷ rows) h = h
  update_limit-UniqueKeys p (suc n) (r ∷ rows) h = elim (Bool-cases (p r)) [
    | inl e ↦
        subst (λ c. UniqueKeys c.table) (sym (update_limit_hit p change n r rows e))
          (rw (keeps r).0 (
            rw (keeps r).1 (
              any-update_limit p n rows r.email r.message_id ∙ h.0,
              update_limit-UniqueKeys p n rows h.1,
            )))
    | inr e ↦
        subst (λ c. UniqueKeys c.table) (sym (update_limit_miss p change n r rows e))
          (
            any-update_limit p (suc n) rows r.email r.message_id ∙ h.0,
            update_limit-UniqueKeys p (suc n) rows h.1,
          )
  ]

  pub any-update_where :
      (p : Row → Bool) (rows : List Row) (email message_id : Text)
      → any (has_key email message_id) (update_where p change rows)
        ≡ any (has_key email message_id) rows
  unfolding update_where any
  any-update_where p [] email message_id = refl
  any-update_where p (r ∷ rows) email message_id = elim (Bool-cases (p r)) [
    | inl e ↦ rw e (
        rw (has_key-change email message_id r) (rw (any-update_where p rows email message_id) refl))
    | inr e ↦ rw e (rw (any-update_where p rows email message_id) refl)
  ]

  update_where-UniqueKeys :
      (p : Row → Bool) (rows : List Row) → UniqueKeys rows → UniqueKeys (update_where p change rows)
  unfolding update_where
  update_where-UniqueKeys p [] h = tt
  update_where-UniqueKeys p (r ∷ rows) h = elim (Bool-cases (p r)) [
    | inl e ↦ rw e (
        rw (keeps r).0 (
          rw (keeps r).1 (
            any-update_where p rows r.email r.message_id ∙ h.0,
            update_where-UniqueKeys p rows h.1,
          )))
    | inr e ↦
        rw e
          (any-update_where p rows r.email r.message_id ∙ h.0, update_where-UniqueKeys p rows h.1)
  ]

pub any-delete_where :
    (p q : Row → Bool) (rows : List Row) → any q rows ≡ false → any q (delete_where p rows) ≡ false
unfolding delete_where any
any-delete_where p q [] h = refl
any-delete_where p q (r ∷ rows) h = ground (arith, any-delete_where p q rows)

delete_where-UniqueKeys :
    (p : Row → Bool) (rows : List Row) → UniqueKeys rows → UniqueKeys (delete_where p rows)
unfolding delete_where
delete_where-UniqueKeys p [] h = tt
delete_where-UniqueKeys p (r ∷ rows) h = elim (Bool-cases (p r)) [
  | inl e ↦ rw e (delete_where-UniqueKeys p rows h.1)
  | inr e ↦ rw e (
    any-delete_where p (has_key r.email r.message_id) rows h.0,
    delete_where-UniqueKeys p rows h.1,
  )
]

has_key_sym : (r q : Row) → has_key r.email r.message_id q ≡ has_key q.email q.message_id r
unfolding has_key
has_key_sym r q =
    Bool-eq_of_iff (q.email == r.email && q.message_id == r.message_id)
      (r.email == q.email && r.message_id == q.message_id)
      (λ h. turn q.email r.email q.message_id r.message_id h)
      (λ h. turn r.email q.email r.message_id q.message_id h)
  where
    turn : (a b c d : Text) → (a == b && c == d) ≡ true → (b == a && d == c) ≡ true
    turn a b c d h =
        ground (arith, list_beq_iff a b, list_beq_iff b a, list_beq_iff c d, list_beq_iff d c)

any-append :
    (q : Row → Bool) (rows : List Row) (r : Row)
    → any q rows ≡ false
    → q r ≡ false
    → any q (rows ++ r ∷ []) ≡ false
unfolding any
any-append q [] r h k = ground arith
any-append q (x ∷ rows) r h k = ground (arith, any-append q rows r)

append-UniqueKeys :
    (rows : List Row) (r : Row)
    → UniqueKeys rows
    → any (has_key r.email r.message_id) rows ≡ false
    → UniqueKeys (rows ++ r ∷ [])
unfolding any
append-UniqueKeys [] r h k = (refl, tt)
append-UniqueKeys (x ∷ rows) r h k = (
  any-append (has_key x.email x.message_id) rows r h.0 (rw (has_key_sym x r) (ground arith)),
  append-UniqueKeys rows r h.1 (ground arith),
)

copy_rows-UniqueKeys :
    (known : Text → Bool) (rows new_rows : List Row) {table : List Row}
    → UniqueKeys rows
    → copy_rows known rows new_rows ≡ some table
    → UniqueKeys table
unfolding copy_rows insertable
copy_rows-UniqueKeys known rows [] h e = subst UniqueKeys (ground arith) h
copy_rows-UniqueKeys known rows (r ∷ new_rows) h e = elim (Bool-cases (insertable known rows r)) [
  | inl ok ↦
      copy_rows-UniqueKeys known (rows ++ r ∷ []) new_rows
        (append-UniqueKeys rows r h (ground arith)) (ground arith)
  | inr bad ↦ absurd (ground arith)
]

reclaim-UniqueKeys :
    (locked : Row → Bool) (now : ℤ) (f : InFlight) (older_than max : ℕ) (rows : List Row)
    (c : Claimed)
    → reclaim locked now f older_than max rows ≡ some c
    → UniqueKeys rows
    → UniqueKeys c.table
unfolding reclaim_stranded hand_back reclaim_params
reclaim-UniqueKeys locked now f older_than max rows c e h =
    let (t, n, _, _, same) = reclaim_cases locked now f older_than max rows c e in
    subst (λ (x : Claimed). UniqueKeys x.table) (sym same)
      (update_limit-UniqueKeys (hand_back (reclaim_params t older_than n)) (λ r. (refl, refl))
        (stranded locked now (reclaim_params t older_than n)) n rows h)

-- No statement makes two rows of one key.
Step-UniqueKeys :
    {rows new_table : List Row} → Step rows new_table → UniqueKeys rows → UniqueKeys new_table
unfolding prepare_for_send prepare_for_validate reschedule_pool set_sending_pool_scheduled
    clean_pool schedule claim_for_send claim_for_validation push_back set_scheduled_row
Step-UniqueKeys {rows = rows} (inserted repo known ds e) h =
    copy_rows-UniqueKeys known rows (map (new_row repo) ds) h e
Step-UniqueKeys {rows = rows} (claimed_for_send locked now max) h =
    update_limit-UniqueKeys (claim_for_send now) (λ r. (refl, refl)) (due locked now) max rows h
Step-UniqueKeys {rows = rows} (claimed_for_validation locked now max) h =
    update_limit-UniqueKeys (claim_for_validation now) (λ r. (refl, refl)) (pending locked) max rows
      h
Step-UniqueKeys {rows = rows} (reclaimed locked now f older_than max c e) h =
    reclaim-UniqueKeys locked now f older_than max rows c e h
Step-UniqueKeys {rows = rows} (rescheduled at email message_id) h =
    update_where-UniqueKeys (push_back at) (λ r. (refl, refl)) (has_key email message_id) rows h
Step-UniqueKeys {rows = rows} (validated email message_id) h =
    update_where-UniqueKeys set_scheduled_row (λ r. (refl, refl)) (has_key email message_id) rows h
Step-UniqueKeys {rows = rows} (cleaned email message_id) h =
    delete_where-UniqueKeys (has_key email message_id) rows h

-- In every pool that the statements can make from the empty one, each row's key is its own.
pub Reachable-UniqueKeys : {rows : List Row} → Reachable rows → UniqueKeys rows
Reachable-UniqueKeys empty = tt
Reachable-UniqueKeys (next before step) = Step-UniqueKeys step (Reachable-UniqueKeys before)
