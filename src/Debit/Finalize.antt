-- ===== src/Debit/Finalize.antt =====
-- The archive of a confirmed Nexus payout: `finalize_confirmed_solana_payout`, for a call that asks
-- for no receipt (receipt_payload, receipt_evidence and receipt_error are None).
use swap_service.Base.{
  ℕ, ℤ, pos, negsuc, ◌==◌, string_eq, ℕ_eq, option_eq, int_eq, ◌&&◌, String, Bool, true, false,
  Option, none, some, List, [], ◌∷◌, if◌then◌else◌, not, Result, ok, err, integrity_error, ◌>>=◌,
  Value, require_int, require_positive, require_nonnegative,
}
use swap_service.Database.{PendingDeposit, ProcessedDeposit, FeeEntry, Database}
use swap_service.Deposit.{get_deposit, delete_deposit, has_processed}

-- The checked arguments, with None where a text is missing.
pub record DebitEvidence : Type 0 where
  pub sig : String
  pub timestamp : ℤ
  pub amount_solana_units : ℤ
  pub output_txid : Option String
  pub output_units : ℕ
  pub nexus_destination : Option String
  pub memo : Option String
  pub reference : ℤ
  pub output_contract_id : ℕ
  pub fee_solana_units : ℕ

abbrev pub get_processed_deposit : String → List ProcessedDeposit → Option ProcessedDeposit
get_processed_deposit s [] = none
get_processed_deposit s (r ∷ rs) = if r.sig == s then some r else get_processed_deposit s rs

-- `source == expected_source`; a comparison with None holds of a NULL, as in Python.
abbrev pub is_expected_source : DebitEvidence → PendingDeposit → Bool
is_expected_source e r =
    (r.timestamp == some e.timestamp)
    && (r.amount_usdc_units == some e.amount_solana_units)
    && (r.memo == e.memo)
    && (r.status == some "debited, awaiting confirmation")
    && (r.txid == e.output_txid)
    && (r.reference == some e.reference)
    && (r.amount_usdd_units == some (pos e.output_units))

-- `terminal == expected_terminal`.
abbrev pub is_expected_terminal : DebitEvidence → ProcessedDeposit → Bool
is_expected_terminal e r =
    (r.timestamp == some e.timestamp)
    && (r.amount_usdc_units == some e.amount_solana_units)
    && (r.txid == e.output_txid)
    && (r.amount_usdd_units == some (pos e.output_units))
    && (r.nexus_destination == e.nexus_destination)
    && (r.memo == e.memo)
    && (r.status == some "debit_confirmed")
    && (r.reference == some e.reference)
    && (r.contract_id == some (pos e.output_contract_id))

abbrev pub is_archived_as : DebitEvidence → Option ProcessedDeposit → Bool
is_archived_as e none = false
is_archived_as e (some r) = is_expected_terminal e r

abbrev pub is_swap_fee : String → FeeEntry → Bool
is_swap_fee s f = (f.sig == some s) && (f.kind == "swap_solana_to_nexus")

abbrev pub swap_fees_of : String → List FeeEntry → List FeeEntry
swap_fees_of s [] = []
swap_fees_of s (f ∷ fs) = if is_swap_fee s f then f ∷ swap_fees_of s fs else swap_fees_of s fs

-- The row of a fee.
abbrev pub swap_fee : DebitEvidence → ℕ → FeeEntry
swap_fee e now = record {
  sig = some e.sig;
  txid = e.output_txid;
  kind = "swap_solana_to_nexus";
  amount_usdc_units = some (pos e.fee_solana_units);
  amount_usdd_units = none;
  contract_id = negsuc 0;
  timestamp = now;
}

-- The fee against those recorded for the deposit; nothing where they differ.
unfoldable pub write_swap_fee : DebitEvidence → ℕ → List FeeEntry → Database → Option Database
write_swap_fee e now [] db = some (record db { fee_entries = swap_fee e now ∷ db.fee_entries })
write_swap_fee e now (f ∷ []) db =
    if f.amount_usdc_units == some (pos e.fee_solana_units) then some db else none
write_swap_fee e now _ db = none

unfoldable pub journal_swap_fee : DebitEvidence → ℕ → Database → Option Database
unfolding write_swap_fee
journal_swap_fee e now db =
    if e.fee_solana_units == 0
    then some db
    else write_swap_fee e now (swap_fees_of e.sig db.fee_entries) db

-- The row of processed_sigs.
abbrev pub confirmed_row : DebitEvidence → ProcessedDeposit
confirmed_row e = record {
  sig = e.sig;
  timestamp = some e.timestamp;
  amount_usdc_units = some e.amount_solana_units;
  txid = e.output_txid;
  amount_usdd_units = some (pos e.output_units);
  nexus_destination = e.nexus_destination;
  memo = e.memo;
  status = some "debit_confirmed";
  reference = some e.reference;
  contract_id = some (pos e.output_contract_id);
}

-- From the fee on. The INSERT raises where the deposit has a terminal row already.
unfoldable pub archive_deposit :
    DebitEvidence → Option Database → Database → Result (Bool × Database)
archive_deposit e none db = ok (false, db)
archive_deposit e (some db₁) db =
    if has_processed e.sig db₁.processed_sigs
    then err integrity_error
    else ok (
      true,
      record db₁ {
        processed_sigs = confirmed_row e ∷ db₁.processed_sigs;
        unprocessed_sigs = delete_deposit e.sig db₁.unprocessed_sigs;
      },
    )

-- From the source's row on.
unfoldable pub finalize_found :
    DebitEvidence → ℕ → Option PendingDeposit → Database → Result (Bool × Database)
unfolding journal_swap_fee archive_deposit
finalize_found e now none db =
    ok (is_archived_as e (get_processed_deposit e.sig db.processed_sigs), db)
finalize_found e now (some r) db =
    if not (is_expected_source e r)
    then ok (false, db)
    else archive_deposit e (journal_swap_fee e now db) db

-- The transaction.
unfoldable pub finalize_debit : DebitEvidence → ℕ → Database → Result (Bool × Database)
unfolding finalize_found
finalize_debit e now db = finalize_found e now (get_deposit e.sig db.unprocessed_sigs) db

-- The arguments before they are checked.
pub record DebitArguments : Type 0 where
  pub sig : String
  pub timestamp : Value
  pub amount_solana_units : Value
  pub output_txid : Option String
  pub output_units : Value
  pub nexus_destination : Option String
  pub memo : Option String
  pub reference : Value
  pub output_contract_id : Value
  pub fee_solana_units : Value
  pub nexus_decimals : Value

unfoldable pub check_debit : DebitArguments → Result DebitEvidence
check_debit a = do
  timestamp ← require_int a.timestamp
  amount_solana_units ← require_int a.amount_solana_units
  output_units ← require_positive a.output_units
  reference ← require_int a.reference
  output_contract_id ← require_nonnegative a.output_contract_id
  fee_solana_units ← require_nonnegative a.fee_solana_units
  nexus_decimals ← require_nonnegative a.nexus_decimals
  ok (record {
    sig = a.sig;
    timestamp = timestamp;
    amount_solana_units = amount_solana_units;
    output_txid = a.output_txid;
    output_units = output_units;
    nexus_destination = a.nexus_destination;
    memo = a.memo;
    reference = reference;
    output_contract_id = output_contract_id;
    fee_solana_units = fee_solana_units;
  })

-- `finalize_confirmed_solana_payout` without a receipt.
unfoldable pub finalize_confirmed_solana_payout :
    DebitArguments → ℕ → Database → Result (Bool × Database)
unfolding check_debit finalize_debit
finalize_confirmed_solana_payout a now db = do e ← check_debit a; finalize_debit e now db
