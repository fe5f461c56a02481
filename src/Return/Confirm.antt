-- ===== src/Return/Confirm.antt =====
-- `confirm_solana_sig_disposition` and `get_solana_sig_disposition_evidence` of src/state_db.py.
use swap_service.Base.{
  ℕ, pos, ℤ, negsuc, ◌-◌, ◌==◌, string_eq, ℕ_eq, option_eq, int_eq, not, ◌&&◌, ◌||◌, leb, String,
  Bool, true, false, Option, none, some, List, [], ◌∷◌, is_empty, Result, ok, err, value_error,
  runtime_error, ◌>>=◌, ◌>>◌, require, require_positive, if◌then◌else◌, int,
}
use swap_service.Database.{ReturnedDeposit, BudgetEvent, FeeEntry, Database, reserved, confirmed}
use swap_service.Payout.{require_text, get_event, has_event, settle_in_transaction}
use swap_service.Return.Kinds.{
  ReturnKind, awaiting_status, terminal_status, fee_kind, obligation_id, returned, set_returned,
  get_returned, put_returned,
}
use swap_service.Return.Intent.{has_valid_provenance}
use swap_service.Return.Submit.{find_disposition, delete_source}

-- The flat fees of a source: `sig = ? AND txid IS NULL AND kind = ?`.
abbrev pub is_fee_of : String → String → FeeEntry → Bool
is_fee_of s kind f = (f.sig == some s) && (f.txid == none) && (f.kind == kind)

abbrev pub fees_of : String → String → List FeeEntry → List FeeEntry
fees_of s kind [] = []
fees_of s kind (f ∷ fs) = if is_fee_of s kind f then f ∷ fees_of s kind fs else fees_of s kind fs

-- The fee of a confirmed return against those recorded for its source.
unfoldable pub write_fee : String → String → ℕ → ℕ → List FeeEntry → Database → Result Database
write_fee s kind fee now [] db = ok (record db {
  fee_entries =
      record {
        sig = some s;
        txid = none;
        kind = kind;
        amount_usdc_units = some (pos fee);
        amount_usdd_units = none;
        contract_id = negsuc 0;
        timestamp = now;
      }
      ∷ db.fee_entries;
})
write_fee s kind fee now (f ∷ []) db =
    if f.amount_usdc_units == some (pos fee) then ok db else err runtime_error
write_fee s kind fee now _ db = err runtime_error

unfoldable pub record_return_fee : String → String → ℕ → ℕ → Database → Result Database
unfolding write_fee
record_return_fee s kind fee now db =
    if fee == 0 then ok db else write_fee s kind fee now (fees_of s kind db.fee_entries) db

-- The row of a return that was confirmed.
abbrev pub settled_row : ReturnKind → ReturnedDeposit → Database → Database
settled_row k r db =
    set_returned k (put_returned (record r { status = some (terminal_status k) }) (returned k db))
      db

-- The settlement of an awaited return.
unfoldable pub settle_return :
    ReturnKind
    → String
    → String
    → ℕ
    → ℕ
    → ℕ
    → ReturnedDeposit
    → Database
    → Result (Option Bool × Database)
unfolding settle_in_transaction record_return_fee delete_source
settle_return k s signature source_units payout_units now r db = do
  (settled, db₁) ← settle_in_transaction (obligation_id k s) signature payout_units now db
  if not settled then ok (some false, db) else do
    db₂ ← record_return_fee s (fee_kind k) (source_units - payout_units) now db₁
    db₃ ← delete_source s (awaiting_status k) (settled_row k r db₂)
    ok (some true, db₃)

-- The confirmed event as the code compares it.
abbrev pub is_confirmed_as : String → ℕ → Option BudgetEvent → Bool
is_confirmed_as signature units none = false
is_confirmed_as signature units (some e) =
    (e.signature == some signature) && (e.amount_usdc_units == units)

abbrev pub positive_units : Option ℤ → Result ℕ
positive_units none = err value_error
positive_units (some n) = require_positive (int n)

-- The numbers of a row that a confirmation needs; an error where the row has none.
unfoldable pub confirmable : String → ReturnedDeposit → Result (ℕ × ℕ)
confirmable signature r = do
  require (r.payout_sig == some signature) value_error
  payout_units ← positive_units r.payout_units
  source_units ← positive_units r.amount_usdc_units
  require (leb payout_units source_units) value_error
  ok (source_units, payout_units)

-- The row of the disposition against the confirmed signature, from its numbers on.
unfoldable pub confirm_row :
    ReturnKind
    → String
    → String
    → ℕ
    → ReturnedDeposit
    → Result (ℕ × ℕ)
    → Database
    → Result (Option Bool × Database)
unfolding settle_return has_valid_provenance
confirm_row k s signature now r (err e) db = ok (some false, db)
confirm_row k s signature now r (ok (source_units, payout_units)) db =
    if not (has_valid_provenance k r)
    then ok (some false, db)
    else if r.status == some (terminal_status k)
    then ok (
      some (
          is_confirmed_as signature payout_units
            (get_event (obligation_id k s) confirmed db.budget_events)),
      db,
    )
    else if not (r.status == some "awaiting confirmation")
    then ok (some false, db)
    else settle_return k s signature source_units payout_units now r db

-- From the row and the reservation of the disposition on.
unfoldable pub confirm_found :
    ReturnKind
    → String
    → String
    → ℕ
    → Option ReturnedDeposit
    → Bool
    → Database
    → Result (Option Bool × Database)
unfolding confirmable confirm_row
confirm_found k s signature now none is_reserved db = ok (none, db)
confirm_found k s signature now (some r) false db = ok (none, db)
confirm_found k s signature now (some r) true db =
    confirm_row k s signature now r (confirmable signature r) db

unfoldable pub confirm_return :
    ReturnKind → String → String → ℕ → Database → Result (Option Bool × Database)
unfolding confirm_found
confirm_return k s signature now db =
    confirm_found k s signature now (get_returned s (returned k db))
      (has_event (obligation_id k s) reserved db.budget_events) db

-- `confirm_solana_sig_disposition`.
unfoldable pub confirm : String → String → String → ℕ → Database → Result (Option Bool × Database)
unfolding find_disposition confirm_return
confirm source_sig kind payout_signature now db = do
  (s, k) ← find_disposition source_sig kind
  signature ← require_text payout_signature 500
  confirm_return k s signature now db

-- The row that `get_solana_sig_disposition_evidence` may show.
abbrev read_evidence : String → ReturnedDeposit → Option (String × ℕ × String)
read_evidence signature r =
    if not (r.payout_sig == some signature) || not (r.status == some "awaiting confirmation")
    then none
    else elim r.destination_address [
      | none ↦ none
      | some destination ↦ elim (positive_units r.payout_units) [
        | err e ↦ none
        | ok units ↦ elim r.payout_memo [
          | none ↦ none
          | some memo ↦ if is_empty destination then none else some (destination, units, memo)
        ]
      ]
    ]

-- `get_solana_sig_disposition_evidence`.
unfoldable pub get_return_evidence :
    String → String → String → Database → Result (Option (String × ℕ × String))
unfolding find_disposition
get_return_evidence source_sig kind payout_signature db = do
  (s, k) ← find_disposition source_sig kind
  signature ← require_text payout_signature 500
  ok (elim (get_returned s (returned k db)) [ none ↦ none | some r ↦ read_evidence signature r ])
