-- ===== src/Debit/Intent.antt =====
-- The intent of a Nexus debit in a row of unprocessed_sigs: its reference and its amount, set before
-- the debit is sent, and the single columns that the workers update.
use swap_service.Base.{
  ℤ, ltb_ℤ, pos, ◌==◌, string_eq, option_eq, int_eq, ◌&&◌, ◌||◌, String, Bool, true, Option, none,
  some, if◌then◌else◌, Result, ok, err, value_error, integrity_error, ◌>>=◌, ◌>>◌, require, is_some,
  Value, require_int, require_positive,
}
use swap_service.Database.{PendingDeposit, Database}
use swap_service.Deposit.{get_deposit, put_deposit, delete_deposit}

-- `column IS NULL OR column = ?`.
abbrev pub is_unset_or : ℤ → Option ℤ → Bool
is_unset_or n none = true
is_unset_or n (some m) = m == n

abbrev pub with_row : PendingDeposit → Database → Database
with_row r db = record db { unprocessed_sigs = put_deposit r db.unprocessed_sigs }

-- The UPDATE of a reference, which must change one row.
unfoldable pub set_reference : ℤ → Option PendingDeposit → Database → Result Database
set_reference n none db = err value_error
set_reference n (some r) db =
    if is_unset_or n r.reference
    then ok (with_row (record r { reference = some n }) db)
    else err value_error

-- `set_unprocessed_sig_reference`.
unfoldable pub set_unprocessed_sig_reference : String → Value → Database → Result Database
unfolding set_reference
set_unprocessed_sig_reference s reference db = do
  n ← require_int reference
  set_reference n (get_deposit s db.unprocessed_sigs) db

-- The statuses that a debit may start from or be in.
abbrev pub is_debitable : Option String → Bool
is_debitable status =
    (status == some "ready for processing")
    || (status == some "debit in flight")
    || (status == some "debited, awaiting confirmation")

-- The row of a deposit whose debit has an intent.
abbrev pub intended_row : ℤ → ℤ → PendingDeposit → PendingDeposit
intended_row n amount r = record r {
  reference = some n;
  amount_usdd_units = some amount;
  status = if r.status == some "ready for processing" then some "debit in flight" else r.status;
}

-- The UPDATE of an intent, which must change one row.
unfoldable pub set_intent : ℤ → ℤ → Option PendingDeposit → Database → Result Database
set_intent n amount none db = err value_error
set_intent n amount (some r) db =
    if is_debitable r.status && is_unset_or n r.reference && is_unset_or amount r.amount_usdd_units
    then ok (with_row (intended_row n amount r) db)
    else err value_error

-- `set_unprocessed_sig_debit_intent`.
unfoldable pub set_unprocessed_sig_debit_intent :
    String → Value → Value → Database → Result Database
unfolding set_intent
set_unprocessed_sig_debit_intent s reference amount_usdd_units db = do
  n ← require_int reference
  amount ← require_positive amount_usdd_units
  set_intent n (pos amount) (get_deposit s db.unprocessed_sigs) db

-- A column of the row, None where there is no row.
abbrev pub column_of : (PendingDeposit → Option ℤ) → Option PendingDeposit → Option ℤ
column_of f none = none
column_of f (some r) = f r

-- `get_unprocessed_sig_reference`.
unfoldable pub get_unprocessed_sig_reference : String → Database → Option ℤ
get_unprocessed_sig_reference s db =
    column_of (λ r. r.reference) (get_deposit s db.unprocessed_sigs)

abbrev pub positive_amount : Option ℤ → Result (Option ℤ)
positive_amount none = ok none
positive_amount (some n) = if ltb_ℤ (pos 0) n then ok (some n) else err value_error

-- `get_unprocessed_sig_nexus_amount`.
unfoldable pub get_unprocessed_sig_nexus_amount : String → Database → Result (Option ℤ)
get_unprocessed_sig_nexus_amount s db =
    positive_amount (column_of (λ r. r.amount_usdd_units) (get_deposit s db.unprocessed_sigs))

-- An UPDATE of one column; without the row it changes nothing.
abbrev pub edit_row :
    (PendingDeposit → PendingDeposit) → Option PendingDeposit → Database → Database
edit_row f none db = db
edit_row f (some r) db = with_row (f r) db

-- `update_unprocessed_sig_memo`.
unfoldable pub update_unprocessed_sig_memo : String → Option String → Database → Database
update_unprocessed_sig_memo s memo db =
    edit_row (λ r. record r { memo = memo }) (get_deposit s db.unprocessed_sigs) db

-- `update_unprocessed_sig_status`.
unfoldable pub update_unprocessed_sig_status : String → Option String → Database → Database
update_unprocessed_sig_status s status db =
    edit_row (λ r. record r { status = status }) (get_deposit s db.unprocessed_sigs) db

-- `update_unprocessed_sig_txid`.
unfoldable pub update_unprocessed_sig_txid : String → Option String → Database → Database
update_unprocessed_sig_txid s txid db =
    edit_row (λ r. record r { txid = txid }) (get_deposit s db.unprocessed_sigs) db

-- What `update_unprocessed_sig` is given; a column that is None is left as it is.
pub record DepositUpdate : Type 0 where
  pub timestamp : Option ℤ
  pub memo : Option String
  pub from_address : Option String
  pub amount_usdc_units : Option ℤ
  pub status : Option String
  pub txid : Option String

abbrev pub or_else {ℓ} : {A : Type ℓ} → Option A → Option A → Option A
or_else none old = old
or_else (some new) old = some new

abbrev pub has_columns : DepositUpdate → Bool
has_columns u =
    is_some u.timestamp
    || is_some u.memo
    || is_some u.from_address
    || is_some u.amount_usdc_units
    || is_some u.status
    || is_some u.txid

abbrev pub updated_row : DepositUpdate → PendingDeposit → PendingDeposit
updated_row u r = record r {
  timestamp = or_else u.timestamp r.timestamp;
  memo = or_else u.memo r.memo;
  from_address = or_else u.from_address r.from_address;
  amount_usdc_units = or_else u.amount_usdc_units r.amount_usdc_units;
  status = or_else u.status r.status;
  txid = or_else u.txid r.txid;
}

-- `update_unprocessed_sig`. With no column to set the statement is not SQL, and SQLite raises; its
-- errors are all `integrity_error` here.
unfoldable pub update_unprocessed_sig : String → DepositUpdate → Database → Result Database
update_unprocessed_sig s u db =
    require (has_columns u) integrity_error
    >> ok (edit_row (updated_row u) (get_deposit s db.unprocessed_sigs) db)

-- `remove_unprocessed_sig`.
unfoldable pub remove_unprocessed_sig : String → Database → Database
remove_unprocessed_sig s db = record db { unprocessed_sigs = delete_deposit s db.unprocessed_sigs }
