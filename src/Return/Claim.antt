-- ===== src/Return/Claim.antt =====
-- The transaction of `prepare_solana_sig_disposition`.

use swap_service.Base.{
  ℕ, pos, ◌+◌, ◌-◌, ◌==◌, string_eq, ℕ_eq, option_eq, int_eq, not, ◌&&◌, ◌||◌, ltb, Bool, Option,
  none, some, ◌∷◌, is_some, bool_beq, Result, ok, err, ◌>>=◌, if◌then◌else◌,
}
use swap_service.Database.{Json, PendingDeposit, ReturnedDeposit, CapacityHold, Database}
use swap_service.Payout.{budget_usage, reserve_in_transaction}
use swap_service.Deposit.{get_deposit, put_deposit, has_processed, has_returned}
use swap_service.Return.Kinds.{
  kind_text, opposing, held_status, capacity_status, budget_kind, obligation_id, returned,
  set_returned,
}
use swap_service.Return.Intent.{ReturnRequest, parse_intent, same_request, same_json, provenance_v1}
use swap_service.Return.Holds.{
  PrepareStatus, prepared, source_conflict, malformed_evidence, already_submitted, PrepareResult,
  is_source_of, is_submitted, is_preparable, get_hold, delete_hold, oldest_hold, waits_for_older,
  hold_capacity,
}

-- The row that freezes the disposition.
abbrev pub frozen_return : ReturnRequest → Json → ReturnedDeposit
frozen_return q evidence = record {
  sig = q.source_sig;
  timestamp = some (pos q.timestamp);
  from_address = some q.from_address;
  destination_address = some q.destination_address;
  amount_usdc_units = some (pos q.amount_usdc_units);
  memo = some q.memo;
  payout_memo = some q.payout_memo;
  payout_sig = none;
  payout_units = some (pos q.payout_units);
  status = some "submitting";
  intent_provenance = some provenance_v1;
  intent_evidence = some evidence;
}

abbrev pub refused : PrepareStatus → ReturnRequest → ℕ → ℕ → Database → PrepareResult × Database
refused s q used cap db =
    (record { status = s; needed_units = q.payout_units; used_units = used; cap_units = cap }, db)

-- The reservation, the frozen row and the source's held state.
unfoldable pub freeze_return :
    ReturnRequest → Json → ℕ → ℕ → ℕ → PendingDeposit → Database → Result (PrepareResult × Database)
unfolding reserve_in_transaction
freeze_return q evidence used cap now r db = do
  (granted, db₁) ←
      reserve_in_transaction (obligation_id q.kind q.source_sig) (budget_kind q.kind) q.payout_units
        cap 86400 now db
  if granted
      then ok (
          refused prepared q used cap
            (record (set_returned q.kind (frozen_return q evidence ∷ returned q.kind db₁) db₁) {
              unprocessed_sigs =
                  put_deposit (record r { status = some (held_status q.kind) })
                    db₁.unprocessed_sigs;
              capacity_holds = delete_hold q.source_sig db₁.capacity_holds;
            }))
      else ok (refused already_submitted q used cap db₁)

-- From the reading of the budget on.
unfoldable pub claim_capacity :
    ReturnRequest
    → Json
    → Option CapacityHold
    → ℕ
    → ℕ
    → PendingDeposit
    → Database
    → Result (PrepareResult × Database)
unfolding budget_usage hold_capacity freeze_return oldest_hold
claim_capacity q evidence hold cap now r db =
    let used = budget_usage db (now - 86400) in
    let waits = waits_for_older q.source_sig cap db.capacity_holds in
    let exhausted = ltb 0 cap && ltb cap (used + q.payout_units) in
    if waits || exhausted
    then hold_capacity q evidence hold used cap waits now r db
    else freeze_return q evidence used cap now r db

-- An existing hold against the request, and its evidence in place of the proposed one.
unfoldable pub with_hold :
    ReturnRequest
    → Bool
    → Json
    → Option CapacityHold
    → ℕ
    → ℕ
    → PendingDeposit
    → Database
    → Result (PrepareResult × Database)
unfolding parse_intent same_json claim_capacity
with_hold q supplied evidence none cap now r db =
    if supplied
    then ok (refused source_conflict q 0 cap db)
    else claim_capacity q evidence none cap now r db
with_hold q supplied evidence (some h) cap now r db = elim (parse_intent h.intent_evidence) [
  | err e ↦ ok (refused malformed_evidence q 0 cap db)
  | ok f ↦
      if (h.kind == kind_text q.kind)
        && (h.obligation_id == obligation_id q.kind q.source_sig)
        && (h.needed_units == q.payout_units)
        && same_request f.request q
        && (not supplied || same_json h.intent_evidence evidence)
      then claim_capacity q h.intent_evidence (some h) cap now r db
      else ok (refused source_conflict q 0 cap db)
]

-- The tests on a source row that was found.
unfoldable pub prepare_row :
    ReturnRequest
    → Bool
    → Json
    → ℕ
    → ℕ
    → PendingDeposit
    → Database
    → Result (PrepareResult × Database)
unfolding with_hold
prepare_row q supplied evidence cap now r db =
    let hold = get_hold q.source_sig db.capacity_holds in
    if not (is_source_of q r)
    then ok (refused source_conflict q 0 cap db)
    else if is_submitted q db
    then ok (refused already_submitted q 0 cap db)
    else if not (is_preparable q.kind r.status)
    then ok (refused source_conflict q 0 cap db)
    else if has_returned q.source_sig (returned (opposing q.kind) db)
        || has_processed q.source_sig db.processed_sigs
    then ok (refused source_conflict q 0 cap db)
    else if not (bool_beq (r.status == some (capacity_status q.kind)) (is_some hold))
    then ok (refused source_conflict q 0 cap db)
    else with_hold q supplied evidence hold cap now r db

-- The transaction.
unfoldable pub prepare_in_transaction :
    ReturnRequest → Bool → Json → ℕ → ℕ → Database → Result (PrepareResult × Database)
unfolding prepare_row
prepare_in_transaction q supplied evidence cap now db =
    elim (get_deposit q.source_sig db.unprocessed_sigs) [
      | none ↦ ok (refused source_conflict q 0 cap db)
      | some r ↦ prepare_row q supplied evidence cap now r db
    ]
