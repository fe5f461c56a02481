-- ===== src/Return/Rebuilt.antt =====
-- The transaction of `reconstruct_confirmed_solana_sig_disposition` of src/state_db.py.
use swap_service.Base.{
  ℕ, ◌==◌, string_eq, ℕ_eq, int_eq, option_eq, not, ◌&&◌, ◌||◌, leb, String, Bool, true, false,
  Option, none, some, is_some, Value, Result, ok, value_error, ◌>>=◌, ◌>>◌, require,
  require_positive, if◌then◌else◌,
}
use swap_service.Database.{PendingDeposit, ReturnedDeposit, Database}
use swap_service.Payout.{require_text, reconstruct_in_transaction}
use swap_service.Deposit.{get_deposit, delete_deposit, has_processed, has_returned}
use swap_service.Return.Kinds.{
  opposing, terminal_status, budget_kind, fee_kind, obligation_id, returned, set_returned,
  get_returned, put_returned,
}
use swap_service.Return.Intent.{ReturnRequest, has_valid_provenance}
use swap_service.Return.Prepare.{ReturnArguments, make_request}
use swap_service.Return.Confirm.{fees_of}
use swap_service.Return.Rebuild.{
  may_rebuild, rebuild_evidence, matches_row, undo_terminal, rebuild_fees,
}

-- A row with its provenance: the return is settled as it was frozen.
unfoldable pub rebuild_terminal :
    ReturnRequest
    → String
    → ℕ
    → ℕ
    → Option PendingDeposit
    → ReturnedDeposit
    → Database
    → Bool × Database
unfolding reconstruct_in_transaction rebuild_fees
rebuild_terminal q signature t now pending r db =
    let (granted, db₁) =
      reconstruct_in_transaction (obligation_id q.kind q.source_sig) (budget_kind q.kind) signature
        q.payout_units t db in
    if not granted
    then (false, db)
    else elim (rebuild_fees q t now (fees_of q.source_sig (fee_kind q.kind) db₁.fee_entries)
        db₁.fee_entries) [
          | none ↦ (false, db)
          | some fees ↦ (
            true,
            record (set_returned q.kind
                (put_returned
                  (record r { payout_sig = some signature; status = some (terminal_status q.kind) })
                  (returned q.kind db₁))
                db₁) {
                  fee_entries = fees;
                  unprocessed_sigs =
                      if is_some pending
                      then delete_deposit q.source_sig db₁.unprocessed_sigs
                      else db₁.unprocessed_sigs;
                },
          )
        ]

-- From the row of the return on.
unfoldable pub rebuild_row :
    ReturnRequest
    → String
    → ℕ
    → ℕ
    → Option PendingDeposit
    → Option ReturnedDeposit
    → Database
    → Result (Bool × Database)
unfolding rebuild_evidence undo_terminal rebuild_terminal has_valid_provenance
rebuild_row q signature t now pending none db = ok (rebuild_evidence q signature t pending db)
rebuild_row q signature t now pending (some r) db =
    if not (matches_row q signature r pending)
    then ok (false, db)
    else if has_valid_provenance q.kind r
    then ok (rebuild_terminal q signature t now pending r db)
    else if not (r.payout_sig == some signature) || not (r.status == some (terminal_status q.kind))
    then ok (false, db)
    else undo_terminal q signature t pending r db

-- The transaction.
unfoldable pub rebuild_in_transaction :
    ReturnRequest → String → ℕ → ℕ → Database → Result (Bool × Database)
unfolding may_rebuild rebuild_row
rebuild_in_transaction q signature t now db =
    if has_processed q.source_sig db.processed_sigs
      || has_returned q.source_sig (returned (opposing q.kind) db)
      || not (may_rebuild q (get_deposit q.source_sig db.unprocessed_sigs))
    then ok (false, db)
    else rebuild_row q signature t now (get_deposit q.source_sig db.unprocessed_sigs)
        (get_returned q.source_sig (returned q.kind db)) db

-- `reconstruct_confirmed_solana_sig_disposition`.
unfoldable pub rebuild : ReturnArguments → String → Value → ℕ → Database → Result (Bool × Database)
unfolding make_request rebuild_in_transaction
rebuild a payout_signature chain_timestamp now db = do
  q ← make_request a
  signature ← require_text payout_signature 500
  t ← require_positive chain_timestamp
  require (leb t now && leb q.timestamp t) value_error
  rebuild_in_transaction q signature t now db
