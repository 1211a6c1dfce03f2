-- ===== src/Pool.antt =====
-- The sending pool: the table sending_pool_emails of db/schema.sql and the statements of
-- internal/db/pool.sql.go that read and write it.
--
-- A table is the list of its rows in the order in which a statement scans them. The columns `id`
-- and `created_at` are left out: `id` joins a row with itself within one statement, `created_at`
-- is never read. The statuses are the four that the code writes.
pub mod Repository
pub mod Scan
pub mod Targets
pub mod Keys
pub mod Claims
pub mod Held
pub mod Reclaiming
use kannon.Base.{
  ℕ, zero, suc, ◌+◌, ◌*◌, ◌/◌, ◌≡◌, ◌↔◌, refl, Bool, true, false, not, ◌&&◌, ◌||◌, Option, none,
  some, List, [], ◌∷◌, ◌++◌, Text, leb, Comparable, nat_beq, ◌==◌, nat_eq, list_eq, any, length,
  arith, if◌then◌else◌,
}
use kannon.Base.Int.{ℤ, pos, ◌-ℤ◌, ltb_ℤ}
use kannon.Tracking.{Policy}

-- `SendingPoolStatus`
pub data Status : Type 0 where
  to_validate validating scheduled sending : Status

unfoldable pub status_no : Status → ℕ
status_no to_validate = 0
status_no validating = 1
status_no scheduled = 2
status_no sending = 3

unfoldable pub status_beq : Status → Status → Bool
status_beq a b = nat_beq (status_no a) (status_no b)

pub status_beq_iff : (a b : Status) → (status_beq a b ≡ true) ↔ (a ≡ b)
unfolding status_beq status_no
status_beq_iff a b = ground arith

instance abbrev pub status_eq : Comparable Status
status_eq = record { equals = status_beq; equals_iff = status_beq_iff }

-- `SendingPoolEmail`
pub record Row : Type 0 where
  pub scheduled_time : ℤ
  pub original_scheduled_time : ℤ
  pub send_attempts_cnt : ℕ
  pub email : Text
  pub message_id : Text
  pub fields : List (Text × Text)
  pub status : Status
  pub domain : Text
  pub tracking : Policy
  pub claimed_at : Option ℤ

unfoldable pub has_key : Text → Text → Row → Bool
has_key email message_id r = r.email == email && r.message_id == message_id

unfoldable pub update_where : (Row → Bool) → (Row → Row) → List Row → List Row
update_where p change [] = []
update_where p change (r ∷ rows) = (if p r then change r else r) ∷ update_where p change rows

unfoldable pub delete_where : (Row → Bool) → List Row → List Row
delete_where p [] = []
delete_where p (r ∷ rows) = if p r then delete_where p rows else r ∷ delete_where p rows

unfoldable pub find_row : (Row → Bool) → List Row → Option Row
find_row p [] = none
find_row p (r ∷ rows) = if p r then some r else find_row p rows

-- What an update through a locking subquery with a limit does: the table afterwards and the rows it
-- returns. It changes the first rows of the scan that qualify.
pub record Claimed : Type 0 where
  pub table : List Row
  pub returned : List Row

unfoldable pub keep_row : Row → Claimed → Claimed
keep_row r c = record { table = r ∷ c.table; returned = c.returned }

unfoldable pub take_row : Row → Claimed → Claimed
take_row r c = record { table = r ∷ c.table; returned = r ∷ c.returned }

unfoldable pub update_limit : (Row → Bool) → (Row → Row) → ℕ → List Row → Claimed
update_limit p change n [] = record { table = []; returned = [] }
update_limit p change zero (r ∷ rows) = record { table = r ∷ rows; returned = [] }
update_limit p change (suc n) (r ∷ rows) = elim (p r) [
  | true ↦ take_row (change r) (update_limit p change n rows)
  | false ↦ keep_row r (update_limit p change (suc n) rows)
]

-- `prepareForSend` at `now`; `locked` tells the rows that another transaction holds.
unfoldable pub due : (Row → Bool) → ℤ → Row → Bool
due locked now r = not (locked r) && not (ltb_ℤ now r.scheduled_time) && r.status == scheduled

unfoldable pub claim_for_send : ℤ → Row → Row
claim_for_send now r = record r { status = sending; claimed_at = some now }

-- the statement, under a LIMIT that is not negative; the repository converts what it is asked for
unfoldable pub prepare_for_send : (Row → Bool) → ℤ → ℕ → List Row → Claimed
prepare_for_send locked now max rows = update_limit (due locked now) (claim_for_send now) max rows

-- `prepareForValidate`
unfoldable pub pending : (Row → Bool) → Row → Bool
pending locked r = not (locked r) && r.status == to_validate

unfoldable pub claim_for_validation : ℤ → Row → Row
claim_for_validation now r = record r { status = validating; claimed_at = some now }

unfoldable pub prepare_for_validate : (Row → Bool) → ℤ → ℕ → List Row → Claimed
prepare_for_validate locked now max rows =
    update_limit (pending locked) (claim_for_validation now) max rows

-- `reclaimStranded`; a comparison with NULL is not true.
pub record ReclaimParams : Type 0 where
  pub to_status : Status
  pub bump_attempts : Bool
  pub from_status : Status
  pub stranded_for : ℤ
  pub max : ℕ

unfoldable pub claimed_before : ℤ → Option ℤ → Bool
claimed_before limit none = false
claimed_before limit (some at) = ltb_ℤ at limit

unfoldable pub stranded : (Row → Bool) → ℤ → ReclaimParams → Row → Bool
stranded locked now p r =
    not (locked r)
    && r.status == p.from_status
    && claimed_before (now -ℤ p.stranded_for) r.claimed_at

unfoldable pub hand_back : ReclaimParams → Row → Row
hand_back p r = record r {
  status = p.to_status;
  claimed_at = none;
  send_attempts_cnt = r.send_attempts_cnt + (if p.bump_attempts then 1 else 0);
}

unfoldable pub reclaim_stranded : (Row → Bool) → ℤ → ReclaimParams → List Row → Claimed
reclaim_stranded locked now p rows = update_limit (stranded locked now p) (hand_back p) p.max rows

-- `reschedulePool`
unfoldable pub push_back : ℤ → Row → Row
push_back at r = record r {
  status = scheduled;
  scheduled_time = at;
  send_attempts_cnt = r.send_attempts_cnt + 1;
}

unfoldable pub reschedule_pool : ℤ → Text → Text → List Row → List Row
reschedule_pool at email message_id rows =
    update_where (has_key email message_id) (push_back at) rows

-- `setSendingPoolScheduled`
unfoldable pub set_scheduled_row : Row → Row
set_scheduled_row r = record r { status = scheduled }

unfoldable pub set_sending_pool_scheduled : Text → Text → List Row → List Row
set_sending_pool_scheduled email message_id rows =
    update_where (has_key email message_id) set_scheduled_row rows

-- `cleanPool`
unfoldable pub clean_pool : Text → Text → List Row → List Row
clean_pool email message_id rows = delete_where (has_key email message_id) rows

-- `getPool`
unfoldable pub get_pool : Text → Text → List Row → Option Row
get_pool email message_id rows = find_row (has_key email message_id) rows

-- the column of the address
abbrev pub fits_column : Row → Bool
fits_column r = leb (length r.email) 320

-- `unique_emails_message_id_idx`
abbrev pub has_new_key : List Row → Row → Bool
has_new_key rows r = not (any (has_key r.email r.message_id) rows)

-- `sending_pool_emails_message_id_fkey`, over the messages that are known, and the two above
unfoldable pub insertable : (Text → Bool) → List Row → Row → Bool
insertable known rows r = known r.message_id && fits_column r && has_new_key rows r

-- an insertion of several rows, all or none
unfoldable pub copy_rows : (Text → Bool) → List Row → List Row → Option (List Row)
copy_rows known rows [] = some rows
copy_rows known rows (r ∷ new_rows) = elim (insertable known rows r) [
  | true ↦ copy_rows known (rows ++ r ∷ []) new_rows
  | false ↦ none
]
