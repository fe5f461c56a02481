-- ===== src/Debit/History.antt =====
-- Histories of the calls on the queue of deposits: those of Debit, and of Deposit those that write. The
-- calls of Return, which change a row's status or remove it, are not among them.
use swap_service.Base.{
  ℕ, ℤ, ◌==◌, string_eq, ◌≡◌, String, false, Option, List, [], ◌∷◌, Result, ok, err, ◌>>=◌, Value,
}
use swap_service.Database.{Json, Database}
use swap_service.Deposit.{add_unprocessed_sig, freeze_decision}
use swap_service.Debit.Intent.{
  set_unprocessed_sig_reference, set_unprocessed_sig_debit_intent, update_unprocessed_sig_memo,
  update_unprocessed_sig_status, update_unprocessed_sig_txid, DepositUpdate, update_unprocessed_sig,
  remove_unprocessed_sig,
}
use swap_service.Debit.Finalize.{DebitArguments, finalize_confirmed_solana_payout}

pub data DebitCall : Type 0 where
  set_reference_call : String → Value → DebitCall
  set_intent_call : String → Value → Value → DebitCall
  memo_call status_call txid_call : String → Option String → DebitCall
  update_call : String → DepositUpdate → DebitCall
  classify_call : String → Json → DebitCall
  add_call :
      String
      → Option ℤ
      → Option String
      → Option String
      → Option ℤ
      → Option String
      → Option String
      → DebitCall
  remove_call : String → DebitCall
  finalize_call : DebitArguments → ℕ → DebitCall

-- An exception leaves the database as it was.
abbrev pub or_unchanged : Database → Result Database → Database
or_unchanged db (err e) = db
or_unchanged db (ok db') = db'

unfoldable pub call : DebitCall → Database → Database
unfolding set_unprocessed_sig_reference set_unprocessed_sig_debit_intent update_unprocessed_sig_memo
    update_unprocessed_sig_status update_unprocessed_sig_txid update_unprocessed_sig freeze_decision
    add_unprocessed_sig remove_unprocessed_sig finalize_confirmed_solana_payout
call (set_reference_call s n) db = or_unchanged db (set_unprocessed_sig_reference s n db)
call (set_intent_call s n amount) db =
    or_unchanged db (set_unprocessed_sig_debit_intent s n amount db)
call (memo_call s memo) db = update_unprocessed_sig_memo s memo db
call (status_call s status) db = update_unprocessed_sig_status s status db
call (txid_call s txid) db = update_unprocessed_sig_txid s txid db
call (update_call s u) db = or_unchanged db (update_unprocessed_sig s u db)
call (classify_call s evidence) db =
    or_unchanged db (freeze_decision s evidence db >>= λ (p, db'). ok db')
call (add_call s timestamp memo from_address amount status txid) db =
    add_unprocessed_sig s timestamp memo from_address amount status txid db
call (remove_call s) db = remove_unprocessed_sig s db
call (finalize_call a now) db =
    or_unchanged db (finalize_confirmed_solana_payout a now db >>= λ (done, db'). ok db')

-- The calls of a history, the first one first.
unfoldable pub run : List DebitCall → Database → Database
unfolding call
run [] db = db
run (c ∷ cs) db = run cs (call c db)

-- A call that neither replaces nor removes the row of the deposit, as adding it again, removing it
-- and finalizing it do.
abbrev pub KeepsRow : String → DebitCall → Type 0
KeepsRow s (add_call t timestamp memo from_address amount status txid) = (t == s) ≡ false
KeepsRow s (remove_call t) = (t == s) ≡ false
KeepsRow s (finalize_call a now) = (a.sig == s) ≡ false
KeepsRow s (set_reference_call t n) = Unit
KeepsRow s (set_intent_call t n amount) = Unit
KeepsRow s (memo_call t memo) = Unit
KeepsRow s (status_call t status) = Unit
KeepsRow s (txid_call t txid) = Unit
KeepsRow s (update_call t u) = Unit
KeepsRow s (classify_call t evidence) = Unit

abbrev pub AllKeepRow : String → List DebitCall → Type 0
AllKeepRow s [] = Unit
AllKeepRow s (c ∷ cs) = KeepsRow s c × AllKeepRow s cs
