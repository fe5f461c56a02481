-- ===== src/Credit.antt =====
-- Queries on the tables of Nexus credits that the transfer and payout operations share.
use swap_service.Base.{
  ℤ, negsuc, String, Bool, false, ◌&&◌, ◌||◌, Option, none, some, List, [], ◌∷◌, ◌==◌, string_eq,
  int_eq, option_eq, is_some, if◌then◌else◌,
}
use swap_service.Database.{PendingCredit, ProcessedCredit, ReturnedCredit, FeeEntry, Database}

-- A row's primary key.
abbrev pub is_credit : String → ℤ → String → ℤ → Bool
is_credit txid contract_id t c = (t == txid) && (c == contract_id)

-- `SELECT … FROM unprocessed_txids WHERE txid = ? AND contract_id = ?`.
abbrev pub get_pending : String → ℤ → List PendingCredit → Option PendingCredit
get_pending t c [] = none
get_pending t c (p ∷ ps) = if is_credit t c p.txid p.contract_id then some p else get_pending t c ps

abbrev pub get_processed : String → ℤ → List ProcessedCredit → Option ProcessedCredit
get_processed t c [] = none
get_processed t c (p ∷ ps) =
    if is_credit t c p.txid p.contract_id then some p else get_processed t c ps

abbrev pub get_returned : String → ℤ → List ReturnedCredit → Option ReturnedCredit
get_returned t c [] = none
get_returned t c (p ∷ ps) =
    if is_credit t c p.txid p.contract_id then some p else get_returned t c ps

-- A row in processed_txids, refunded_txids or quarantined_txids.
abbrev pub has_terminal : String → ℤ → Database → Bool
has_terminal t c db =
    is_some (get_processed t c db.processed_txids)
    || is_some (get_returned t c db.refunded_txids)
    || is_some (get_returned t c db.quarantined_txids)

-- `DELETE FROM unprocessed_txids WHERE txid = ? AND contract_id = ?`.
abbrev pub delete_pending : String → ℤ → List PendingCredit → List PendingCredit
delete_pending t c [] = []
delete_pending t c (p ∷ ps) =
    if is_credit t c p.txid p.contract_id then delete_pending t c ps else p ∷ delete_pending t c ps

abbrev pub minus_one : ℤ
minus_one = negsuc 0

-- `_has_nexus_fee_evidence`.
abbrev pub has_fee_evidence : String → ℤ → List FeeEntry → Bool
has_fee_evidence t c [] = false
has_fee_evidence t c (f ∷ fs) =
    ((f.txid == some t)
      && is_some f.amount_usdd_units
      && ((f.contract_id == minus_one) || (f.contract_id == c)))
    || has_fee_evidence t c fs
