-- ===== src/Return/Holds.antt =====
-- The capacity holds of src/state_db.py as `prepare_solana_sig_disposition` reads and writes them,
-- and its result, which keeps the status and the numbers and not the reason's text.
use Prim.Native.Nat.{Ordering}
use Prim.Native.String.{compare}
use swap_service.Base.{
  ℕ, pos, ◌+◌, ◌==◌, string_eq, ℕ_eq, option_eq, int_eq, not, ◌&&◌, ◌||◌, ltb, nat_eq, String, Bool,
  true, false, Option, none, some, List, [], ◌∷◌, Result, ok, integrity_error, ◌>>=◌, ◌>>◌, require,
  if◌then◌else◌,
}
use swap_service.Database.{
  Json, PendingDeposit, CapacityHold, Database, reserved, submitted, confirmed,
}
use swap_service.Payout.{has_event}
use swap_service.Deposit.{put_deposit, has_returned, coalesce}
use swap_service.Return.Kinds.{
  ReturnKind, kind_text, is_ready, capacity_status, obligation_id, returned,
}
use swap_service.Return.Intent.{ReturnRequest}

-- `SolanaDispositionPrepareStatus`.
pub data PrepareStatus : Type 0 where
  prepared capacity_held current_cap_too_low source_conflict malformed_evidence db_failure
        already_submitted :
      PrepareStatus

-- `SolanaDispositionPrepareResult`.
pub record PrepareResult : Type 0 where
  pub status : PrepareStatus
  pub needed_units : ℕ
  pub used_units : ℕ
  pub cap_units : ℕ

-- The source row against the request.
abbrev pub is_source_of : ReturnRequest → PendingDeposit → Bool
is_source_of q r =
    (r.timestamp == some (pos q.timestamp))
    && (coalesce r.memo == q.memo)
    && (r.from_address == some q.from_address)
    && (r.amount_usdc_units == some (pos q.amount_usdc_units))

-- Whether the disposition has durable submission state.
abbrev pub is_submitted : ReturnRequest → Database → Bool
is_submitted q db =
    has_returned q.source_sig (returned q.kind db)
    || has_event (obligation_id q.kind q.source_sig) reserved db.budget_events
    || has_event (obligation_id q.kind q.source_sig) submitted db.budget_events
    || has_event (obligation_id q.kind q.source_sig) confirmed db.budget_events

-- `row[4] in (*ready_statuses, capacity_status)`.
abbrev pub is_preparable : ReturnKind → Option String → Bool
is_preparable k s = is_ready k s || s == some (capacity_status k)

abbrev pub get_hold : String → List CapacityHold → Option CapacityHold
get_hold s [] = none
get_hold s (h ∷ hs) = if h.source_signature == s then some h else get_hold s hs

abbrev pub delete_hold : String → List CapacityHold → List CapacityHold
delete_hold s [] = []
delete_hold s (h ∷ hs) = if h.source_signature == s then delete_hold s hs else h ∷ delete_hold s hs

abbrev pub put_hold : CapacityHold → List CapacityHold → List CapacityHold
put_hold h [] = []
put_hold h (g ∷ gs) = if g.source_signature == h.source_signature then h ∷ gs else g ∷ put_hold h gs

abbrev has_obligation : String → List CapacityHold → Bool
has_obligation o [] = false
has_obligation o (h ∷ hs) = (h.obligation_id == o) || has_obligation o hs

-- The comparison of SQLite's ORDER BY first_held_timestamp, source_signature.
abbrev pub held_before : CapacityHold → CapacityHold → Bool
held_before g h =
    ltb g.first_held_timestamp h.first_held_timestamp
    || (nat_eq g.first_held_timestamp h.first_held_timestamp
        && elim (compare g.source_signature h.source_signature) [ Ordering.lt ↦ true | _ ↦ false ])

-- The WHERE clause: a hold that the cap could admit at all.
abbrev pub is_feasible : ℕ → CapacityHold → Bool
is_feasible cap h = not (ltb 0 cap && ltb cap h.needed_units)

abbrev pub older : CapacityHold → Option CapacityHold → CapacityHold
older h none = h
older h (some g) = if held_before g h then g else h

unfoldable pub oldest_hold : ℕ → List CapacityHold → Option CapacityHold
oldest_hold cap [] = none
oldest_hold cap (h ∷ hs) =
    let rest = oldest_hold cap hs in if is_feasible cap h then some (older h rest) else rest

-- `oldest_hold is not None and oldest_hold[0] != source_sig`.
abbrev pub waits_at : String → Option CapacityHold → Bool
waits_at s none = false
waits_at s (some h) = not (h.source_signature == s)

-- `waits_for_older`.
abbrev pub waits_for_older : String → ℕ → List CapacityHold → Bool
waits_for_older s cap hs = waits_at s (oldest_hold cap hs)

-- The reason that a hold records.
abbrev pub hold_reason : Bool → Bool → String
hold_reason true waits = "frozen Solana payout exceeds current nonzero cap"
hold_reason false true = "waiting behind older Solana payout capacity hold"
hold_reason false false = "rolling Solana payout cap exhausted"

-- The INSERT or the UPDATE of the hold, under the table's constraints.
unfoldable pub write_hold :
    ReturnRequest
    → Json
    → Option CapacityHold
    → ℕ
    → ℕ
    → String
    → ℕ
    → List CapacityHold
    → Result (List CapacityHold)
write_hold q evidence none used cap reason now hs =
    require (ltb 0 cap && not (has_obligation (obligation_id q.kind q.source_sig) hs))
      integrity_error
    >> ok (
        record {
          source_signature = q.source_sig;
          kind = kind_text q.kind;
          obligation_id = obligation_id q.kind q.source_sig;
          needed_units = q.payout_units;
          used_units = used;
          cap_units = cap;
          first_held_timestamp = now;
          updated_timestamp = now;
          reason = reason;
          intent_evidence = evidence;
          attempt_count = 1;
        }
        ∷ hs)
write_hold q evidence (some h) used cap reason now hs =
    require (ltb 0 cap) integrity_error
    >> ok (
        put_hold
          (record h {
            used_units = used;
            cap_units = cap;
            updated_timestamp = now;
            reason = reason;
            attempt_count = h.attempt_count + 1;
          })
          hs)

-- A return that must wait for capacity.
unfoldable pub hold_capacity :
    ReturnRequest
    → Json
    → Option CapacityHold
    → ℕ
    → ℕ
    → Bool
    → ℕ
    → PendingDeposit
    → Database
    → Result (PrepareResult × Database)
unfolding write_hold
hold_capacity q evidence hold used cap waits now r db = do
  holds ←
      write_hold q evidence hold used cap (hold_reason (ltb 0 cap && ltb cap q.payout_units) waits)
        now db.capacity_holds
  ok (
    record {
      status = if ltb 0 cap && ltb cap q.payout_units then current_cap_too_low else capacity_held;
      needed_units = q.payout_units;
      used_units = used;
      cap_units = cap;
    },
    record db {
      capacity_holds = holds;
      unprocessed_sigs =
          put_deposit (record r { status = some (capacity_status q.kind) }) db.unprocessed_sigs;
    },
  )
