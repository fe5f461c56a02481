-- ===== src/Deposit/Pending.antt =====
-- The pending deposits of src/state_db.py: the queue's rows, the unresolved liability, and the
-- freezing of a policy decision.
use swap_service.Base.{
  ℕ, ℤ, pos, pos_part, ◌+ℤ◌, ltb_ℤ, ◌==◌, string_eq, option_eq, int_eq, not, ◌&&◌, ◌||◌, String,
  Bool, true, false, Option, none, some, List, [], ◌∷◌, is_some, if◌then◌else◌, Result, ok, err,
  value_error, runtime_error, ◌>>=◌, ◌>>◌, require,
}
use swap_service.Database.{
  Json, PendingDeposit, ProcessedDeposit, ReturnedDeposit, DepositHold, Database,
}
use swap_service.Deposit.Policy.{
  payable, hold_below_minimum, hold_nonpositive_output, refund_oversized, decision_text,
}
use swap_service.Deposit.Evidence.{FrozenDecision, parse_frozen_evidence}

abbrev pub get_deposit : String → List PendingDeposit → Option PendingDeposit
get_deposit s [] = none
get_deposit s (r ∷ rs) = if r.sig == s then some r else get_deposit s rs

-- `is_unprocessed_sig`.
abbrev pub is_unprocessed_sig : String → Database → Bool
is_unprocessed_sig s db = is_some (get_deposit s db.unprocessed_sigs)

abbrev pub delete_deposit : String → List PendingDeposit → List PendingDeposit
delete_deposit s [] = []
delete_deposit s (r ∷ rs) = if r.sig == s then delete_deposit s rs else r ∷ delete_deposit s rs

-- An UPDATE of the row with the primary key of `r`.
abbrev pub put_deposit : PendingDeposit → List PendingDeposit → List PendingDeposit
put_deposit r [] = []
put_deposit r (q ∷ qs) = if q.sig == r.sig then r ∷ qs else q ∷ put_deposit r qs

-- `add_unprocessed_sig`: INSERT OR REPLACE, which clears the columns it does not name.
unfoldable pub add_unprocessed_sig :
    String
    → Option ℤ
    → Option String
    → Option String
    → Option ℤ
    → Option String
    → Option String
    → Database
    → Database
add_unprocessed_sig sig timestamp memo from_address amount status txid db = record db {
  unprocessed_sigs =
      record {
        sig = sig;
        timestamp = timestamp;
        memo = memo;
        from_address = from_address;
        amount_usdc_units = amount;
        amount_usdd_units = none;
        status = status;
        txid = txid;
        reference = none;
        policy_decision = none;
        policy_evidence = none;
      }
      ∷ delete_deposit sig db.unprocessed_sigs;
}

-- `get_unprocessed_sig_status`.
unfoldable pub get_unprocessed_sig_status : String → Database → Option String
get_unprocessed_sig_status s db = elim (get_deposit s db.unprocessed_sigs) [
  | none ↦ none
  | some r ↦ r.status
]

-- SUM skips NULL.
abbrev pub units_of : Option ℤ → ℤ
units_of none = pos 0
units_of (some n) = n

unfoldable pub sum_pending : List PendingDeposit → ℤ
sum_pending [] = pos 0
sum_pending (r ∷ rs) = units_of r.amount_usdc_units +ℤ sum_pending rs

unfoldable pub sum_held : List DepositHold → ℤ
sum_held [] = pos 0
sum_held (h ∷ hs) = units_of h.amount_units +ℤ sum_held hs

-- `amount_units IS NULL OR amount_units <= 0`.
abbrev pub is_unquantified : DepositHold → Bool
is_unquantified h = elim h.amount_units [ none ↦ true | some n ↦ not (ltb_ℤ (pos 0) n) ]

abbrev pub has_unquantified : List DepositHold → Bool
has_unquantified [] = false
has_unquantified (h ∷ hs) = is_unquantified h || has_unquantified hs

abbrev pub has_processed : String → List ProcessedDeposit → Bool
has_processed s [] = false
has_processed s (r ∷ rs) = (r.sig == s) || has_processed s rs

abbrev pub has_returned : String → List ReturnedDeposit → Bool
has_returned s [] = false
has_returned s (r ∷ rs) = (r.sig == s) || has_returned s rs

abbrev pub has_overlap : List DepositHold → Database → Bool
has_overlap [] db = false
has_overlap (h ∷ hs) db =
    is_some (get_deposit h.signature db.unprocessed_sigs)
    || has_processed h.signature db.processed_sigs
    || has_returned h.signature db.refunded_sigs
    || has_returned h.signature db.quarantined_sigs
    || has_overlap hs db

-- `get_unresolved_solana_liability_units`.
unfoldable pub get_unresolved_solana_liability_units : Database → Result ℕ
unfolding sum_pending sum_held
get_unresolved_solana_liability_units db = do
  require (not (has_unquantified db.deposit_holds)) runtime_error
  require (not (has_overlap db.deposit_holds db)) runtime_error
  ok (pos_part (sum_pending db.unprocessed_sigs +ℤ sum_held db.deposit_holds))

-- `COALESCE(memo, '')`.
abbrev pub coalesce : Option String → String
coalesce none = ""
coalesce (some s) = s

-- The row's columns against the source that the evidence names.
abbrev pub has_source : PendingDeposit → FrozenDecision → Bool
has_source r p =
    (r.timestamp == some (pos p.timestamp))
    && (coalesce r.memo == p.memo)
    && (r.from_address == p.from_address)
    && (r.amount_usdc_units == some (pos p.input_units))

-- `target_status`, of which a missing key raises; parsed evidence has one of the four.
unfoldable pub target_status : String → Result String
target_status decision =
    if decision == decision_text payable
    then ok "ready for processing"
    else if decision == decision_text hold_below_minimum
    then ok "policy held, non-sendable"
    else if decision == decision_text hold_nonpositive_output
    then ok "policy held, non-sendable"
    else if decision == decision_text refund_oversized
    then ok "to be refunded"
    else err runtime_error

-- The row after its first classification.
unfoldable pub frozen_row : String → FrozenDecision → Json → PendingDeposit → PendingDeposit
frozen_row status p evidence r = record r {
  status = some status;
  policy_decision = some p.decision;
  policy_evidence = some evidence;
}

-- A row whose decision is frozen already.
unfoldable pub read_frozen :
    String → PendingDeposit → Json → Database → Result (FrozenDecision × Database)
read_frozen sig r stored_evidence db = do
  stored ← parse_frozen_evidence stored_evidence
  require
      ((stored.signature == sig)
        && has_source r stored
        && (r.policy_decision == some stored.decision))
      value_error
  ok (stored, db)

-- After the stored evidence has been looked at. The WHERE clause of the UPDATE repeats the tests
-- made on the row.
unfoldable pub freeze_row :
    String
    → FrozenDecision
    → Json
    → Option Json
    → PendingDeposit
    → Database
    → Result (FrozenDecision × Database)
unfolding read_frozen frozen_row target_status
freeze_row sig proposed evidence (some stored_evidence) r db = do
  require (is_some r.policy_decision) value_error
  read_frozen sig r stored_evidence db
freeze_row sig proposed evidence none r db = do
  require (not (is_some r.policy_decision)) value_error
  require
      ((r.status == some "ready for processing")
        && not (is_some r.txid)
        && not (is_some r.reference)
        && not (is_some r.amount_usdd_units))
      value_error
  status ← target_status proposed.decision
  ok (
    proposed,
    record db {
      unprocessed_sigs = put_deposit (frozen_row status proposed evidence r) db.unprocessed_sigs;
    },
  )

-- `freeze_solana_deposit_policy_decision`.
unfoldable pub freeze_decision : String → Json → Database → Result (FrozenDecision × Database)
unfolding freeze_row
freeze_decision sig proposed_evidence db = do
  proposed ← parse_frozen_evidence proposed_evidence
  require (proposed.signature == sig) value_error
  elim (get_deposit sig db.unprocessed_sigs) [
    | none ↦ err value_error
    | some r ↦
        require (has_source r proposed) value_error
        >> freeze_row sig proposed proposed_evidence r.policy_evidence r db
  ]
