-- ===== src/Disbursement/Prepare.antt =====
-- `prepare_nexus_payout`: freezing, cap-reserving and claiming one exact Nexus credit.
use swap_service.Base.{
  ℕ, ℤ, pos, String, Bool, false, not, ◌&&◌, ◌||◌, Option, none, some, List, [], ◌∷◌, ◌==◌,
  string_eq, int_eq, option_eq, value_eq, is_some, if◌then◌else◌, leb, Result, ok, err, value_error,
  runtime_error, ◌>>=◌, ◌>>◌, require, Value, int, null, strip, is_empty, ◌++◌, decimal,
  require_positive, require_nonnegative,
}
use swap_service.Database.{PendingCredit, TransferIntent, Database}
use swap_service.Credit.{is_credit, get_pending, has_terminal, has_fee_evidence, minus_one}
use swap_service.Payout.{require_text, reserve_in_transaction}
use swap_service.Transfer.{find_source}

-- The checked arguments of `prepare_nexus_payout`. `hold` is the status and the reason that a
-- refused reservation leaves.
pub record PayoutRequest : Type 0 where
  pub txid : String
  pub contract_id : ℤ
  pub receival_account : String
  pub amount_usdd_units : ℕ
  pub payout_solana_units : ℕ
  pub payout_fee_nexus_units : ℕ
  pub cap : Option ℕ
  pub hold : Option (String × String)

-- `f"nexus:{txid}:{contract_id}"`.
abbrev pub nexus_obligation : String → ℤ → String
nexus_obligation txid contract_id = "nexus:" ++ txid ++ ":" ++ decimal contract_id

-- A transfer intent of the credit, or a legacy one of its txid.
abbrev pub has_intent : String → ℤ → List TransferIntent → Bool
has_intent t c is = is_some (find_source t minus_one is) || is_some (find_source t c is)

abbrev pub hold_status : PayoutRequest → Option String
hold_status r = elim r.hold [ none ↦ none | some h ↦ some h.0 ]

-- `status not in ("ready for processing", payout_cap_hold_status)` and the exact terms. Python's
-- `None` is in that tuple when no hold status is given.
abbrev pub is_ready : PayoutRequest → PendingCredit → Bool
is_ready r c =
    ((c.status == some "ready for processing") || (c.status == hold_status r))
    && (c.receival_account == some r.receival_account)
    && (c.amount_usdd_units == int (pos r.amount_usdd_units))
    && (c.payout_solana_units == null)
    && (c.payout_fee_nexus_units == null)

-- `status IN ('ready for processing', ?) AND … IS NULL`: SQL's NULL is in no list.
abbrev pub can_send : PayoutRequest → PendingCredit → Bool
can_send r c =
    is_some c.status
    && ((c.status == some "ready for processing") || (c.status == hold_status r))
    && (c.payout_solana_units == null)
    && (c.payout_fee_nexus_units == null)

-- `UPDATE unprocessed_txids SET … WHERE txid = ? AND contract_id = ? AND …`, and its row count.
abbrev pub update_pending :
    PayoutRequest → (PendingCredit → PendingCredit) → List PendingCredit → List PendingCredit
update_pending r f [] = []
update_pending r f (c ∷ cs) =
    (if is_credit r.txid r.contract_id c.txid c.contract_id && can_send r c then f c else c)
    ∷ update_pending r f cs

abbrev pub updates_row : PayoutRequest → Database → Bool
updates_row r db = elim (get_pending r.txid r.contract_id db.unprocessed_txids) [
  | none ↦ false
  | some c ↦ can_send r c
]

abbrev pub sending_row : PayoutRequest → PendingCredit → PendingCredit
sending_row r c = record c {
  payout_solana_units = int (pos r.payout_solana_units);
  payout_fee_nexus_units = int (pos r.payout_fee_nexus_units);
  status = some "sending";
  hold_reason = none;
}

abbrev pub mark_sending : PayoutRequest → Database → Result (Bool × Database)
mark_sending r db = ok (
  updates_row r db,
  record db { unprocessed_txids = update_pending r (sending_row r) db.unprocessed_txids },
)

abbrev pub held_row : String × String → PendingCredit → PendingCredit
held_row h c = record c { status = some h.0; hold_reason = some h.1 }

-- After a refused reservation.
abbrev pub hold_credit : PayoutRequest → Database → Result (Bool × Database)
hold_credit r db = elim r.hold [
  | none ↦ ok (false, db)
  | some h ↦
      if updates_row r db
      then ok (
        false,
        record db { unprocessed_txids = update_pending r (held_row h) db.unprocessed_txids },
      )
      else err runtime_error
]

unfoldable pub claim_credit : PayoutRequest → ℕ → Database → Result (Bool × Database)
claim_credit r now db = elim r.cap [
  | none ↦ mark_sending r db
  | some cap_units ↦
      reserve_in_transaction (nexus_obligation r.txid r.contract_id) "nexus_payout"
        r.payout_solana_units cap_units 86400 now db
      >>= λ (granted, db'). if granted then mark_sending r db' else hold_credit r db'
]

-- The transaction of `prepare_nexus_payout`.
unfoldable pub prepare_in_transaction : PayoutRequest → ℕ → Database → Result (Bool × Database)
unfolding claim_credit
prepare_in_transaction r now db =
    if has_fee_evidence r.txid r.contract_id db.fee_entries
    then ok (false, db)
    else if has_intent r.txid r.contract_id db.transfer_intents
    then ok (false, db)
    else if has_terminal r.txid r.contract_id db
    then ok (false, db)
    else elim (get_pending r.txid r.contract_id db.unprocessed_txids) [
      | none ↦ ok (false, db)
      | some c ↦ if is_ready r c then claim_credit r now db else ok (false, db)
    ]

-- `payout_cap_solana_units`, if it is given.
abbrev optional_cap : Value → Result (Option ℕ)
optional_cap null = ok none
optional_cap v = require_nonnegative v >>= λ n. ok (some n)

-- The hold status and reason come together or not at all.
abbrev optional_hold : Option String → Option String → Result (Option (String × String))
optional_hold none none = ok none
optional_hold (some status) (some reason) = do
  s ← require_text status 200
  r ← require_text reason 500
  ok (some (s, r))
optional_hold _ _ = err value_error

-- `prepare_nexus_payout`.
unfoldable pub prepare_nexus_payout :
    String
    → Value
    → String
    → Value
    → Value
    → Value
    → Value
    → Option String
    → Option String
    → ℕ
    → Database
    → Result (Bool × Database)
prepare_nexus_payout txid contract_id receival_account amount payout fee cap_units status reason now
      db =
    do
      require (not (is_empty (strip txid) || is_empty (strip receival_account))) value_error
      c ← require_nonnegative contract_id
      a ← require_positive amount
      p ← require_positive payout
      f ← require_nonnegative fee
      require (leb f a) value_error
      k ← optional_cap cap_units
      h ← optional_hold status reason
      prepare_in_transaction
          (record {
            txid = strip txid;
            contract_id = pos c;
            receival_account = strip receival_account;
            amount_usdd_units = a;
            payout_solana_units = p;
            payout_fee_nexus_units = f;
            cap = k;
            hold = h;
          })
          now db
