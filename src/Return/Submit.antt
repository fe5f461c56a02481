-- ===== src/Return/Submit.antt =====
-- `record_solana_sig_disposition_submission` of src/state_db.py.
use swap_service.Base.{
  ℕ, ◌==◌, string_eq, ℕ_eq, option_eq, int_eq, not, ◌&&◌, ◌||◌, String, Bool, true, false, Option,
  none, some, is_some, Result, ok, err, runtime_error, ◌>>=◌, if◌then◌else◌,
}
use swap_service.Database.{
  PendingDeposit, ReturnedDeposit, BudgetEvent, Database, reserved, submitted,
}
use swap_service.Payout.{require_text, get_event, append_event}
use swap_service.Deposit.{get_deposit, put_deposit, delete_deposit}
use swap_service.Return.Kinds.{
  ReturnKind, find_kind, held_status, awaiting_status, budget_kind, obligation_id, returned,
  set_returned, get_returned, put_returned,
}

-- `_solana_sig_disposition`.
unfoldable pub find_disposition : String → String → Result (String × ReturnKind)
unfolding find_kind
find_disposition source_sig kind = do s ← require_text source_sig 500; k ← find_kind kind; ok (s, k)

-- The UPDATE of the source, which must stand in the given state.
unfoldable pub advance_found : String → String → Option PendingDeposit → Database → Result Database
advance_found before after_status none db = err runtime_error
advance_found before after_status (some u) db =
    if u.status == some before
    then ok (record db {
      unprocessed_sigs = put_deposit (record u { status = some after_status }) db.unprocessed_sigs;
    })
    else err runtime_error

unfoldable pub advance_source : String → String → String → Database → Result Database
unfolding advance_found
advance_source s before after_status db =
    advance_found before after_status (get_deposit s db.unprocessed_sigs) db

-- The DELETE of the source, which must stand in the given state.
unfoldable pub delete_found : String → String → Option PendingDeposit → Database → Result Database
delete_found s before none db = err runtime_error
delete_found s before (some u) db =
    if u.status == some before
    then ok (record db { unprocessed_sigs = delete_deposit s db.unprocessed_sigs })
    else err runtime_error

unfoldable pub delete_source : String → String → Database → Result Database
unfolding delete_found
delete_source s before db = delete_found s before (get_deposit s db.unprocessed_sigs) db

-- The row and the source of a return that was sent.
abbrev pub sent : ReturnKind → String → ReturnedDeposit → Database → Database
sent k signature r db =
    set_returned k
      (put_returned
        (record r { payout_sig = some signature; status = some "awaiting confirmation" })
        (returned k db))
      db

-- The recording of a signature for a row that has none, from its submitted event on.
unfoldable pub submit_row :
    ReturnKind
    → String
    → String
    → ℕ
    → ℕ
    → ReturnedDeposit
    → Option BudgetEvent
    → Database
    → Result (Bool × Database)
unfolding append_event advance_source
submit_row k s signature units now r (some e) db = ok (e.signature == some signature, db)
submit_row k s signature units now r none db = do
  (_, db₁) ←
      append_event
        (record {
          obligation_id = obligation_id k s;
          kind = budget_kind k;
          event = submitted;
          amount_usdc_units = units;
          signature = some signature;
          evidence = none;
          timestamp = now;
        })
        db
  db₂ ← advance_source s (held_status k) (awaiting_status k) (sent k signature r db₁)
  ok (true, db₂)

-- From the reservation and the row of the disposition on.
unfoldable pub submit_found :
    ReturnKind
    → String
    → String
    → ℕ
    → Option BudgetEvent
    → Option ReturnedDeposit
    → Database
    → Result (Bool × Database)
unfolding submit_row
submit_found k s signature now none r db = ok (false, db)
submit_found k s signature now (some e) none db = ok (false, db)
submit_found k s signature now (some e) (some r) db =
    if is_some r.payout_sig || not (r.status == some "submitting")
    then ok ((r.payout_sig == some signature) && (r.status == some "awaiting confirmation"), db)
    else submit_row k s signature e.amount_usdc_units now r
        (get_event (obligation_id k s) submitted db.budget_events) db

unfoldable pub submit_return :
    ReturnKind → String → String → ℕ → Database → Result (Bool × Database)
unfolding submit_found
submit_return k s signature now db =
    submit_found k s signature now (get_event (obligation_id k s) reserved db.budget_events)
      (get_returned s (returned k db)) db

-- `record_solana_sig_disposition_submission`.
unfoldable pub record_return_submission :
    String → String → String → ℕ → Database → Result (Bool × Database)
unfolding find_disposition submit_return
record_return_submission source_sig kind payout_signature now db = do
  (s, k) ← find_disposition source_sig kind
  signature ← require_text payout_signature 500
  submit_return k s signature now db
