-- ===== src/Return/Rebuild.antt =====
-- `reconstruct_confirmed_solana_sig_disposition` of src/state_db.py: a return found on the chain. A
-- refusal rolls back.
use swap_service.Base.{
  ℕ, pos, ℤ, negsuc, ◌+ℤ◌, ltb_ℤ, ◌-◌, ◌==◌, string_eq, ℕ_eq, int_eq, option_eq, not, ◌&&◌, ◌||◌,
  ltb, leb, String, Bool, true, false, Option, none, some, List, [], ◌∷◌, is_some, Result, ok, err,
  runtime_error, integrity_error, if◌then◌else◌,
}
use swap_service.Database.{PendingDeposit, ReturnedDeposit, FeeEntry, ProvenanceMigration, Database}
use swap_service.Payout.{reconstruct_in_transaction}
use swap_service.Deposit.{put_deposit, coalesce}
use swap_service.Return.Kinds.{
  ReturnKind, kind_text, is_ready, held_status, evidence_held_status, awaiting_status,
  terminal_status, budget_kind, fee_kind, obligation_id, returned, set_returned,
}
use swap_service.Return.Intent.{ReturnRequest, provenance_v1}
use swap_service.Return.Holds.{is_source_of}
use swap_service.Return.Confirm.{is_fee_of, fees_of}

-- A source in a state that a return can be found in, and with no Nexus credit under way.
abbrev pub is_open : ReturnKind → PendingDeposit → Bool
is_open k u =
    (is_ready k u.status
      || u.status == some (held_status k)
      || u.status == some (evidence_held_status k)
      || u.status == some (awaiting_status k))
    && not (is_some u.txid)
    && not (is_some u.reference)
    && not (is_some u.amount_usdd_units)

-- The pending source, if there is one, unchanged and open.
unfoldable pub may_rebuild : ReturnRequest → Option PendingDeposit → Bool
may_rebuild q none = true
may_rebuild q (some u) = is_source_of q u && is_open q.kind u

-- The row that holds the whole principal for an operator.
abbrev pub held_row : ReturnRequest → PendingDeposit
held_row q = record {
  sig = q.source_sig;
  timestamp = some (pos q.timestamp);
  memo = some q.memo;
  from_address = some q.from_address;
  amount_usdc_units = some (pos q.amount_usdc_units);
  amount_usdd_units = none;
  status = some (evidence_held_status q.kind);
  txid = none;
  reference = none;
  policy_decision = none;
  policy_evidence = none;
}

-- Its INSERT, or the UPDATE of the source.
unfoldable pub hold_source : ReturnRequest → Option PendingDeposit → Database → Database
hold_source q none db = record db { unprocessed_sigs = held_row q ∷ db.unprocessed_sigs }
hold_source q (some u) db =
    if u.status == some (evidence_held_status q.kind) then db else record db {
      unprocessed_sigs =
          put_deposit (record u { status = some (evidence_held_status q.kind) })
            db.unprocessed_sigs;
    }

-- A spend whose terms were never frozen here.
unfoldable pub rebuild_evidence :
    ReturnRequest → String → ℕ → Option PendingDeposit → Database → Bool × Database
unfolding reconstruct_in_transaction hold_source
rebuild_evidence q signature t pending db =
    let (granted, db₁) =
      reconstruct_in_transaction (obligation_id q.kind q.source_sig) (budget_kind q.kind) signature
        q.payout_units t db in
    if granted then (true, hold_source q pending db₁) else (false, db)

-- The columns of the row that a return freezes, against the request.
abbrev pub is_frozen_as : ReturnRequest → ReturnedDeposit → Bool
is_frozen_as q r =
    (r.timestamp == some (pos q.timestamp))
    && (r.from_address == some q.from_address)
    && (r.destination_address == some q.destination_address)
    && (r.amount_usdc_units == some (pos q.amount_usdc_units))
    && (coalesce r.memo == q.memo)
    && (r.payout_memo == some q.payout_memo)
    && (r.payout_units == some (pos q.payout_units))

-- `lifecycle_match`.
abbrev pub is_in_step : ReturnKind → ReturnedDeposit → Option PendingDeposit → Bool
is_in_step k r none = true
is_in_step k r (some u) =
    (r.status == some "submitting" && u.status == some (held_status k))
    || (r.status == some "awaiting confirmation" && u.status == some (awaiting_status k))

-- The tests on a row that was found.
abbrev pub matches_row : ReturnRequest → String → ReturnedDeposit → Option PendingDeposit → Bool
matches_row q signature r pending =
    is_frozen_as q r
    && (r.payout_sig == some signature || (r.payout_sig == none && r.status == some "submitting"))
    && is_in_step q.kind r pending
    && (r.status == some "submitting"
        || r.status == some "awaiting confirmation"
        || r.status == some (terminal_status q.kind))

unfoldable pub sum_fees : List FeeEntry → ℤ
sum_fees [] = pos 0
sum_fees (f ∷ fs) = elim f.amount_usdc_units [ none ↦ sum_fees fs | some n ↦ n +ℤ sum_fees fs ]

-- `any(type(row[0]) is not int or row[0] < 0 for row in fee_rows)`.
abbrev pub has_bad_fee : List FeeEntry → Bool
has_bad_fee [] = false
has_bad_fee (f ∷ fs) =
    elim f.amount_usdc_units [ none ↦ true | some n ↦ ltb_ℤ n (pos 0) ] || has_bad_fee fs

abbrev pub delete_fees : String → String → List FeeEntry → List FeeEntry
delete_fees s kind [] = []
delete_fees s kind (f ∷ fs) =
    if is_fee_of s kind f then delete_fees s kind fs else f ∷ delete_fees s kind fs

abbrev pub delete_returned : String → List ReturnedDeposit → List ReturnedDeposit
delete_returned s [] = []
delete_returned s (r ∷ rs) = if r.sig == s then delete_returned s rs else r ∷ delete_returned s rs

-- UNIQUE(kind, source_signature).
abbrev has_migration : String → String → List ProvenanceMigration → Bool
has_migration kind s [] = false
has_migration kind s (m ∷ ms) =
    ((m.kind == kind) && (m.source_signature == s)) || has_migration kind s ms

-- A terminal row without provenance: its fee and the row itself are undone, and the spend is kept.
unfoldable pub undo_terminal :
    ReturnRequest
    → String
    → ℕ
    → Option PendingDeposit
    → ReturnedDeposit
    → Database
    → Result (Bool × Database)
unfolding reconstruct_in_transaction hold_source sum_fees
undo_terminal q signature t pending r db =
    let (granted, db₁) =
      reconstruct_in_transaction (obligation_id q.kind q.source_sig) (budget_kind q.kind) signature
        q.payout_units t db in
    let fees = fees_of q.source_sig (fee_kind q.kind) db₁.fee_entries in
    if not granted || has_bad_fee fees
    then ok (false, db)
    else if has_migration (kind_text q.kind) q.source_sig db₁.provenance_migrations
    then err integrity_error
    else if r.intent_provenance == some provenance_v1
    then err runtime_error
    else ok (
      true,
      hold_source q pending
          (record (set_returned q.kind (delete_returned q.source_sig (returned q.kind db₁)) db₁) {
            fee_entries = delete_fees q.source_sig (fee_kind q.kind) db₁.fee_entries;
            provenance_migrations =
                record {
                  kind = kind_text q.kind;
                  source_signature = q.source_sig;
                  payout_signature = signature;
                  payout_units = q.payout_units;
                  reversed_fee_units = sum_fees fees;
                  timestamp = t;
                }
                ∷ db₁.provenance_migrations;
          }),
    )

-- The UPDATE of a fee's timestamp.
abbrev restamp_fee : String → String → ℕ → FeeEntry → FeeEntry
restamp_fee s kind t f = if is_fee_of s kind f then record f { timestamp = t } else f

abbrev pub restamp_fees : String → String → ℕ → List FeeEntry → List FeeEntry
restamp_fees s kind t [] = []
restamp_fees s kind t (f ∷ fs) = restamp_fee s kind t f ∷ restamp_fees s kind t fs

-- The fees of a rebuilt return, which may stand already; none where they conflict.
unfoldable pub rebuild_fees :
    ReturnRequest → ℕ → ℕ → List FeeEntry → List FeeEntry → Option (List FeeEntry)
rebuild_fees q t now [] all =
    if q.amount_usdc_units - q.payout_units == 0
    then some all
    else some (
        record {
          sig = some q.source_sig;
          txid = none;
          kind = fee_kind q.kind;
          amount_usdc_units = some (pos (q.amount_usdc_units - q.payout_units));
          amount_usdd_units = none;
          contract_id = negsuc 0;
          timestamp = t;
        }
        ∷ all)
rebuild_fees q t now (f ∷ []) all =
    if ltb 0 (q.amount_usdc_units - q.payout_units)
      && (f.amount_usdc_units == some (pos (q.amount_usdc_units - q.payout_units)))
      && ltb 0 f.timestamp
      && leb f.timestamp now
    then some (restamp_fees q.source_sig (fee_kind q.kind) t all)
    else none
rebuild_fees q t now _ all = none
