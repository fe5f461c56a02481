-- ===== src/Return/Steps.antt =====
-- The single steps of a return, where their tests succeed.
use swap_service.Base.{
  Bool-cases, inl, inr, negsuc, nat_eq_refl, ℕ_eq, if-true, option_beq_iff, ℕ, pos, ◌≡◌, refl, ap,
  ◌∙◌, ◌==◌, string_eq, str_eq_refl, str_eq_iff, option_eq, String, true, false, none, some, List,
  [], ◌∷◌, ok, if◌then◌else◌, arith,
}
use swap_service.Database.{
  BudgetState, reserved, submitted, confirmed, released, PendingDeposit, ReturnedDeposit,
  BudgetEvent, FeeEntry, Database,
}
use swap_service.Payout.{
  same_state, get_event, append_event, settle_in_transaction, submitted_otherwise,
}
use swap_service.Deposit.{get_deposit, put_deposit, delete_deposit}
use swap_service.Return.Kinds.{
  ReturnKind, refund, quarantine, by_kind, returned, set_returned, get_returned, put_returned,
}
use swap_service.Return.Submit.{advance_source, advance_found, delete_source, delete_found}
use swap_service.Return.Confirm.{record_return_fee, write_fee, fees_of}

same_state_refl : (s : BudgetState) → same_state s s ≡ true
same_state_refl reserved = refl
same_state_refl submitted = refl
same_state_refl confirmed = refl
same_state_refl released = refl

-- The newest row of an obligation and state is found.
pub first_event :
    (b : BudgetEvent) (es : List BudgetEvent) → get_event b.obligation_id b.event (b ∷ es) ≡ some b
first_event b es = rw (str_eq_refl b.obligation_id, same_state_refl b.event) refl

-- A row of another state is passed over.
pub other_event :
    (o : String) (s : BudgetState) (b : BudgetEvent) (es : List BudgetEvent)
    → same_state b.event s ≡ false
    → get_event o s (b ∷ es) ≡ get_event o s es
other_event o s b es h = ground (arith, h)

pub append_new :
    (b : BudgetEvent) (db : Database)
    → get_event b.obligation_id b.event db.budget_events ≡ none
    → append_event b db ≡ ok (true, record db { budget_events = b ∷ db.budget_events })
unfolding append_event
append_new b db h = rw h refl

pub first_returned :
    (r : ReturnedDeposit) (rs : List ReturnedDeposit) → get_returned r.sig (r ∷ rs) ≡ some r
first_returned r rs = rw (str_eq_refl r.sig) refl

pub put_first :
    (r q : ReturnedDeposit) (rs : List ReturnedDeposit)
    → q.sig ≡ r.sig
    → put_returned r (q ∷ rs) ≡ r ∷ rs
put_first r q rs h = rw ((str_eq_iff q.sig r.sig).1 h) refl

pub advance-found :
    (s before after_status : String) (u : PendingDeposit) (db : Database)
    → get_deposit s db.unprocessed_sigs ≡ some u
    → u.status ≡ some before
    → advance_source s before after_status db
      ≡ ok (record db {
        unprocessed_sigs =
            put_deposit (record u { status = some after_status }) db.unprocessed_sigs;
      })
unfolding advance_source advance_found
advance-found s before after_status u db g h =
    ap (λ x. advance_found before after_status x db) g ∙ found
  where
    found :
        advance_found before after_status (some u) db
        ≡ ok (record db {
          unprocessed_sigs =
              put_deposit (record u { status = some after_status }) db.unprocessed_sigs;
        })
    found = if-true _ _ _ ((option_beq_iff u.status (some before)).1 h)

pub delete-found :
    (s before : String) (u : PendingDeposit) (db : Database)
    → get_deposit s db.unprocessed_sigs ≡ some u
    → u.status ≡ some before
    → delete_source s before db
      ≡ ok (record db { unprocessed_sigs = delete_deposit s db.unprocessed_sigs })
unfolding delete_source delete_found
delete-found s before u db g h =
    ap (λ x. delete_found s before x db) g
    ∙ if-true _ _ _ ((option_beq_iff u.status (some before)).1 h)

-- A row replaced where it is the newest of its table.
module _ (k : ReturnKind) (r q : ReturnedDeposit) (rows : List ReturnedDeposit)
    (db : Database) where
  -- The tables with `x` the newest row of its own.
  abbrev pub tables : ReturnedDeposit → Database
  tables x = set_returned k (x ∷ rows) db

  pub put-refunded :
      q.sig ≡ r.sig
      → (set_returned k (put_returned r (returned k (tables q))) (tables q)).refunded_sigs
        ≡ (tables r).refunded_sigs
  put-refunded h = on_kind k
    where
      on_kind :
          (k : ReturnKind)
          → by_kind k
              (put_returned r (
                by_kind k
                  (by_kind k (q ∷ rows) db.refunded_sigs)
                  (by_kind k db.quarantined_sigs (q ∷ rows))))
              (by_kind k (q ∷ rows) db.refunded_sigs)
            ≡ by_kind k (r ∷ rows) db.refunded_sigs
      on_kind refund = put_first r q rows h
      on_kind quarantine = refl

  pub put-quarantined :
      q.sig ≡ r.sig
      → (set_returned k (put_returned r (returned k (tables q))) (tables q)).quarantined_sigs
        ≡ (tables r).quarantined_sigs
  put-quarantined h = on_kind k
    where
      on_kind :
          (k : ReturnKind)
          → by_kind k (by_kind k db.quarantined_sigs (q ∷ rows)) (
              put_returned r (
                by_kind k
                  (by_kind k (q ∷ rows) db.refunded_sigs)
                  (by_kind k db.quarantined_sigs (q ∷ rows))))
            ≡ by_kind k db.quarantined_sigs (r ∷ rows)
      on_kind refund = refl
      on_kind quarantine = put_first r q rows h

-- The row that a settlement adds.
abbrev pub confirmation : String → String → ℕ → ℕ → String → BudgetEvent
confirmation o s units now kind = record {
  obligation_id = o;
  kind = kind;
  event = confirmed;
  amount_usdc_units = units;
  signature = some s;
  evidence = none;
  timestamp = now;
}

-- A reserved obligation that was sent under the signature, and is neither confirmed nor released.
pub settle-eq :
    (o s : String) (now : ℕ) (r : BudgetEvent) (db : Database)
    → get_event o reserved db.budget_events ≡ some r
    → submitted_otherwise (get_event o submitted db.budget_events) s ≡ false
    → get_event o confirmed db.budget_events ≡ none
    → get_event o released db.budget_events ≡ none
    → settle_in_transaction o s r.amount_usdc_units now db
      ≡ ok (
        true,
        record db {
          budget_events = confirmation o s r.amount_usdc_units now r.kind ∷ db.budget_events;
        },
      )
unfolding settle_in_transaction append_event
settle-eq o s now r db a b c d = ground (arith, a, b, c, d, nat_eq_refl r.amount_usdc_units)

-- The entry that the fee of a return makes.
abbrev pub fee_entry : String → String → ℕ → ℕ → FeeEntry
fee_entry s kind fee now = record {
  sig = some s;
  txid = none;
  kind = kind;
  amount_usdc_units = some (pos fee);
  amount_usdd_units = none;
  contract_id = negsuc 0;
  timestamp = now;
}

abbrev pub with_fee : String → String → ℕ → ℕ → List FeeEntry → List FeeEntry
with_fee s kind fee now fs = if fee == 0 then fs else fee_entry s kind fee now ∷ fs

pub fee-eq :
    (s kind : String) (fee now : ℕ) (db : Database)
    → fees_of s kind db.fee_entries ≡ []
    → record_return_fee s kind fee now db
      ≡ ok (record db { fee_entries = with_fee s kind fee now db.fee_entries })
unfolding record_return_fee write_fee
fee-eq s kind fee now db h = elim (Bool-cases (fee == 0)) [
  | inl b ↦ rw b refl
  | inr b ↦ rw b (ap (λ fs. write_fee s kind fee now fs db) h)
]
