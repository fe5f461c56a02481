-- ===== src/Return/Held.antt =====
-- The readings of capacity holds in src/state_db.py: `get_solana_sig_disposition_capacity_hold_intent`
-- and `get_solana_payout_capacity_holds`. The columns have their types, so that their tests are those
-- of the bounds.
use swap_service.Base.{
  ℕ, pos, ltb, leb, ◌==◌, string_eq, ℕ_eq, option_eq, int_eq, not, ◌&&◌, String, Bool, Option, none,
  some, List, [], ◌∷◌, false, ◌-◌, ◌⊎◌, inl, inr, is_empty, if◌then◌else◌, Result, ok, err,
  value_error, runtime_error, ◌>>=◌, ◌>>◌, require,
}
use swap_service.Database.{Json, PendingDeposit, CapacityHold, Database}
use swap_service.Deposit.{get_deposit, coalesce}
use swap_service.Return.Kinds.{ReturnKind, kind_text, find_kind, capacity_status, obligation_id}
use swap_service.Return.Intent.{FrozenIntent, parse_intent}
use swap_service.Return.Holds.{
  PrepareStatus, source_conflict, malformed_evidence, PrepareResult, get_hold, held_before,
}
use swap_service.Return.Submit.{find_disposition}

-- `hold_is_valid`.
abbrev pub is_valid_hold : ReturnKind → String → CapacityHold → FrozenIntent → Bool
is_valid_hold k s h f =
    (h.kind == kind_text k)
    && (h.obligation_id == obligation_id k s)
    && (h.needed_units == f.request.payout_units)
    && ltb 0 h.cap_units
    && ltb 0 h.first_held_timestamp
    && leb h.first_held_timestamp h.updated_timestamp
    && not (is_empty h.reason)
    && ltb 0 h.attempt_count
    && (kind_text f.request.kind == kind_text k)
    && (f.request.source_sig == s)

-- `source_matches`, of a LEFT JOIN.
abbrev pub source_matches : ReturnKind → FrozenIntent → Option PendingDeposit → Bool
source_matches k f none = false
source_matches k f (some r) =
    (r.timestamp == some (pos f.request.timestamp))
    && (coalesce r.memo == f.request.memo)
    && (r.from_address == some f.request.from_address)
    && (r.amount_usdc_units == some (pos f.request.amount_usdc_units))
    && (r.status == some (capacity_status k))

-- The intent with its evidence, or why there is none.
abbrev pub HeldIntent : Type 0
HeldIntent = (FrozenIntent × Json) ⊎ PrepareResult

-- `result`, with the numbers of the hold.
abbrev pub no_intent : PrepareStatus → ℕ → ℕ → ℕ → HeldIntent
no_intent s needed used cap =
    inr (record { status = s; needed_units = needed; used_units = used; cap_units = cap })

-- From the frozen intent of the hold on.
unfoldable pub held_intent :
    ReturnKind → String → CapacityHold → Result FrozenIntent → Option PendingDeposit → HeldIntent
held_intent k s h (err e) o = no_intent malformed_evidence h.needed_units h.used_units h.cap_units
held_intent k s h (ok f) o =
    if not (is_valid_hold k s h f)
    then no_intent malformed_evidence h.needed_units h.used_units h.cap_units
    else if not (source_matches k f o)
    then no_intent source_conflict h.needed_units h.used_units h.cap_units
    else inl (f, h.intent_evidence)

-- From the hold on.
unfoldable pub found_hold : ReturnKind → String → Option CapacityHold → Database → HeldIntent
unfolding held_intent
found_hold k s none db = no_intent source_conflict 0 0 0
found_hold k s (some h) db =
    held_intent k s h (parse_intent h.intent_evidence) (get_deposit s db.unprocessed_sigs)

-- `get_solana_sig_disposition_capacity_hold_intent`.
unfoldable pub get_capacity_hold_intent : String → String → Database → HeldIntent
unfolding found_hold find_disposition
get_capacity_hold_intent source_sig kind db = elim (find_disposition source_sig kind) [
  | err e ↦ no_intent malformed_evidence 0 0 0
  | ok (s, k) ↦ found_hold k s (get_hold s db.capacity_holds) db
]

-- ORDER BY first_held_timestamp ASC, source_signature ASC.
abbrev pub insert_hold : CapacityHold → List CapacityHold → List CapacityHold
insert_hold h [] = h ∷ []
insert_hold h (g ∷ gs) = if held_before g h then g ∷ insert_hold h gs else h ∷ g ∷ gs

unfoldable pub oldest_first : List CapacityHold → List CapacityHold
oldest_first [] = []
oldest_first (h ∷ hs) = insert_hold h (oldest_first hs)

-- WHERE kind = ?, where a kind is given.
unfoldable pub of_kind : Option String → List CapacityHold → List CapacityHold
of_kind none hs = hs
of_kind (some k) [] = []
of_kind (some k) (h ∷ hs) = if h.kind == k then h ∷ of_kind (some k) hs else of_kind (some k) hs

abbrev pub first_rows : ℕ → List CapacityHold → List CapacityHold
first_rows limit [] = []
first_rows limit (h ∷ hs) = if ltb 0 limit then h ∷ first_rows (limit - 1) hs else []

-- A row that the listing shows; it raises on any other.
unfoldable pub check_hold : CapacityHold → Result CapacityHold
unfolding find_kind
check_hold h = elim (parse_intent h.intent_evidence) [
  | err e ↦ err runtime_error
  | ok f ↦ elim (find_kind h.kind) [
    | err e ↦ err runtime_error
    | ok k ↦
        require
          (not (is_empty h.source_signature)
            && ltb 0 h.needed_units
            && is_valid_hold k h.source_signature h f)
          runtime_error
        >> ok h
  ]
]

unfoldable pub check_holds : List CapacityHold → Result (List CapacityHold)
unfolding check_hold
check_holds [] = ok []
check_holds (h ∷ hs) = do g ← check_hold h; gs ← check_holds hs; ok (g ∷ gs)

-- `get_solana_payout_capacity_holds`.
unfoldable pub get_solana_payout_capacity_holds :
    Option String → ℕ → Database → Result (List CapacityHold)
unfolding check_holds oldest_first of_kind find_kind
get_solana_payout_capacity_holds none limit db = do
  require (ltb 0 limit) value_error
  check_holds (first_rows limit (oldest_first db.capacity_holds))
get_solana_payout_capacity_holds (some kind) limit db = do
  k ← find_kind kind
  require (ltb 0 limit) value_error
  check_holds (first_rows limit (oldest_first (of_kind (some kind) db.capacity_holds)))
