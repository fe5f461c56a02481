-- ===== src/Lib.antt =====
-- A model of the parts of swapService that decide what money moves: the payout budget, the
-- operator's Nexus transfers, the payout and the archive of Nexus credits, the policy for Solana
-- deposits, their payout and their return, the backing of the issued token, and the witness of
-- custody generations.
--
-- Base holds Boolean tests, integers, Python's text functions, SQL cells and the outcome of a
-- transaction. Database holds the tables of src/state_db.py as a record of lists of rows, the
-- newest row first, and the state that a raised error rolls back to. Every operation of
-- src/state_db.py is a function from its arguments, the time `now` (the code's `int(time.time())`)
-- and the database to a result: the value that the code returns with the database that it commits,
-- or the exception. The part of an operation inside BEGIN IMMEDIATE is a definition of its own
-- (X_in_transaction), and the operation checks its arguments and calls it. SQLite runs such
-- transactions one after another, so a history is a list of calls with their times.
--
-- Payout is the Solana payout budget of src/state_db.py (reserve_solana_payout_budget,
-- release_solana_payout_budget, record_solana_payout_submission, settle_solana_payout_budget,
-- reconstruct_confirmed_solana_payout_budget, payout_budget_used, record_payout).
-- Credit holds the queries on Nexus credits that the other parts share.
-- Transfer is the life of a row of nexus_transfer_intents in src/state_db.py: creation,
-- preparation, authorization, execution request, claim, recovery, advance and disposition of the
-- source.
-- Disbursement is prepare_nexus_payout, finalize_nexus_credit and get_processed_nexus_credit of
-- src/state_db.py; it reserves and settles through Payout and excludes Transfer.
-- Retry is the bookkeeping of src/state_db.py around retries: reservations, attempts, proposed
-- waterlines and next_reference, each on its own table.
-- Witness is Certificate and Store of src/custody_witness.py.
-- Deposit is src/solana_deposit_policy.py (the terms, the classification and its frozen evidence)
-- with the queue of Solana deposits in src/state_db.py: add_unprocessed_sig,
-- freeze_solana_deposit_policy_decision and get_unresolved_solana_liability_units.
-- Backing is the conversion of units of src/config.py with the surplus and the pause of
-- src/fees.py.
-- Memo is src/nexus_memo.py with the memo that src/swap_nexus.py writes.
-- Return is the refund or quarantine of a Solana deposit in src/state_db.py:
-- prepare_solana_sig_disposition, record_solana_sig_disposition_submission,
-- confirm_solana_sig_disposition, reconstruct_confirmed_solana_sig_disposition, their evidence and
-- the readings of holds. It takes the deposits from Deposit, reserves and settles through Payout
-- and records fees.
-- Debit is the Nexus debit that pays a Solana deposit out, in src/state_db.py:
-- set_unprocessed_sig_reference, set_unprocessed_sig_debit_intent, the updates of columns,
-- remove_unprocessed_sig, and finalize_confirmed_solana_payout for a call that asks for no receipt.
--
-- Parameters: the digest in a transfer intent's id (the first 32 hexadecimal digits of a SHA-256)
-- and the hash of the witness's event chain. Nothing is assumed of either. The vault's balance and
-- the circulating supply that Backing compares are arguments. Fuel occurs only in `decimal`, whose
-- fuel is the number plus one, at least its count of digits.
--
-- A column is a typed value where every writer gives it that type, and a cell of any type where the
-- code tests the type. JSON text is represented by the value it decodes to, with the keys in their
-- order and their repetitions, so that two texts are equal where the code compares what they hold.
-- A primary key is held by at most one row, so a DELETE or an UPDATE by key counts one row where
-- the row was just read: the code's errors for another count cannot occur and have no branch.
-- SQLite's conversion of an ill-typed value to a column's type is not modelled, which concerns the
-- unchecked timestamp and amount_usdd of finalize_nexus_credit, nor is Python's limit on the digits
-- that int() reads, beyond which the parser of memos would raise. Database files, connections,
-- locks, migrations, network calls, the HTTP transport of the witness and JSON's syntax are not
-- modelled. Neither are the deposit scan, the listing of disposition candidates, receipts, recovery
-- and reconciliation.
pub mod Backing
pub mod Base
pub mod Credit
pub mod Database
pub mod Debit
pub mod Deposit
pub mod Disbursement
pub mod Memo
pub mod Payout
pub mod Retry
pub mod Return
pub mod Transfer
pub mod Witness
