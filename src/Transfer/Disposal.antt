-- ===== src/Transfer/Disposal.antt =====
-- The disposition of a source: which credits it takes, and where it puts them.
use swap_service.Base.{
  ℕ, ℤ, String, ◌≡◌, refl, ◌∙◌, Bool, true, false, none, some, List, [], ◌∷◌, arith, Option-cases,
  inl, inr, ok, Value, >>=-eq-ok, if◌then◌else◌, ◌==◌, string_eq, str_eq_iff, int_beq_iff, int_eq,
}
use swap_service.Database.{
  Database, TransferIntent, TransferRequest, PendingCredit, IntentStatus, completed, AuditEvidence,
}
use swap_service.Credit.{is_credit, get_pending, has_terminal, delete_pending}
use swap_service.Transfer.{
  finalize_in_transaction, dispose_source, remove_source, get_intent, same_status,
  has_exact_held_source, returned_row, text_or_empty, record_audit_event, disposition_evidence,
  is_held_for,
}

pub get-delete_pending :
    (t : String) (c : ℤ) (ps : List PendingCredit) → get_pending t c (delete_pending t c ps) ≡ none
get-delete_pending t c [] = refl
get-delete_pending t c (p ∷ ps) = ground (arith, get-delete_pending t c ps)

pub get-delete_pending-other :
    (t u : String) (c d : ℤ) (ps : List PendingCredit)
    → is_credit u d t c ≡ false
    → get_pending u d (delete_pending t c ps) ≡ get_pending u d ps
get-delete_pending-other t u c d [] n = refl
get-delete_pending-other t u c d (p ∷ ps) n = ground (
  arith,
  get-delete_pending-other t u c d ps n,
  str_eq_iff p.txid t,
  str_eq_iff p.txid u,
  str_eq_iff t u,
  int_beq_iff p.contract_id c,
  int_beq_iff p.contract_id d,
  int_beq_iff c d,
)

pub get_pending-key :
    (t : String) (c : ℤ) (ps : List PendingCredit) {p : PendingCredit}
    → get_pending t c ps ≡ some p
    → (p.txid ≡ t) × (p.contract_id ≡ c)
get_pending-key t c [] h = cc
get_pending-key t c (q ∷ ps) {p} h =
    ground
      (arith, h, str_eq_iff q.txid t, int_beq_iff q.contract_id c, get_pending-key t c ps {p = p})

-- The one row that a disposition adds.
unfoldable pub DisposedAs : TransferIntent → PendingCredit → String → Database → Database → Type 0
DisposedAs i c remote_txid db db' =
    if i.request.kind == "refund"
    then (db'.refunded_txids
        ≡ returned_row c c.confirmations_credit "refund_confirmed_by_operator" remote_txid
          ∷ db.refunded_txids)
      × (db'.quarantined_txids ≡ db.quarantined_txids)
      × (text_or_empty c.from_address ≡ i.request.to_address)
    else (i.request.kind ≡ "quarantine")
      × (db'.quarantined_txids
          ≡ returned_row c Value.null "quarantine_confirmed_by_operator" remote_txid
            ∷ db.quarantined_txids)
      × (db'.refunded_txids ≡ db.refunded_txids)

record_audit_event-tables :
    (id action who why : String) (e : AuditEvidence) (now : ℕ) (db db' : Database)
    → record_audit_event id action who why e now db ≡ ok db'
    → (db'.unprocessed_txids ≡ db.unprocessed_txids)
      × (db'.processed_txids ≡ db.processed_txids)
      × (db'.refunded_txids ≡ db.refunded_txids)
      × (db'.quarantined_txids ≡ db.quarantined_txids)
unfolding record_audit_event
record_audit_event-tables id action who why e now db db' h = ground (arith, h)

remove_source-tables :
    (i : TransferIntent) (c : PendingCredit) (action who why r : String) (now : ℕ)
    (db db' : Database) (b : Bool)
    → remove_source i c action who why r now db ≡ ok (b, db')
    → (b ≡ true)
      × (db'.unprocessed_txids ≡ delete_pending c.txid c.contract_id db.unprocessed_txids)
      × (db'.processed_txids ≡ db.processed_txids)
      × (db'.refunded_txids ≡ db.refunded_txids)
      × (db'.quarantined_txids ≡ db.quarantined_txids)
remove_source-tables i c action who why r now db db' b h =
    let (left, recorded, e) =
      >>=-eq-ok (record_audit_event i.id action who why (disposition_evidence i r) now removed) _
        h in
    let tables =
      record_audit_event-tables i.id action who why (disposition_evidence i r) now removed left
        recorded in
    ground (arith, e, tables)
  where
    removed : Database
    removed = record db {
      unprocessed_txids = delete_pending c.txid c.contract_id db.unprocessed_txids;
    }

dispose_source-tables :
    (i : TransferIntent) (c : PendingCredit) (who why r : String) (now : ℕ) (db db' : Database)
    → dispose_source i c who why r now db ≡ ok (true, db')
    → (db'.unprocessed_txids ≡ delete_pending c.txid c.contract_id db.unprocessed_txids)
      × (db'.processed_txids ≡ db.processed_txids)
      × DisposedAs i c r db db'
unfolding dispose_source DisposedAs
dispose_source-tables i c who why r now db db' h = ground (
  arith,
  h,
  str_eq_iff (text_or_empty c.from_address) i.request.to_address,
  str_eq_iff i.request.kind "quarantine",
  remove_source-tables i c "finalized_refund" who why r now
      (record db {
        refunded_txids =
            returned_row c c.confirmations_credit "refund_confirmed_by_operator" r
            ∷ db.refunded_txids;
      })
      db' true,
  remove_source-tables i c "finalized_quarantine" who why r now
      (record db {
        quarantined_txids =
            returned_row c Value.null "quarantine_confirmed_by_operator" r ∷ db.quarantined_txids;
      })
      db' true,
)

dispose_source-refused :
    (i : TransferIntent) (c : PendingCredit) (who why r : String) (now : ℕ) (db db' : Database)
    → dispose_source i c who why r now db ≡ ok (false, db')
    → db' ≡ db
unfolding dispose_source
dispose_source-refused i c who why r now db db' h = ground (
  arith,
  h,
  remove_source-tables i c "finalized_refund" who why r now
      (record db {
        refunded_txids =
            returned_row c c.confirmations_credit "refund_confirmed_by_operator" r
            ∷ db.refunded_txids;
      })
      db' false,
  remove_source-tables i c "finalized_quarantine" who why r now
      (record db {
        quarantined_txids =
            returned_row c Value.null "quarantine_confirmed_by_operator" r ∷ db.quarantined_txids;
      })
      db' false,
)

exact_source-held :
    (db : Database) (r : TransferRequest) (c : PendingCredit)
    → has_exact_held_source db r ≡ true
    → get_pending r.source_txid r.source_contract_id db.unprocessed_txids ≡ some c
    → (is_held_for r c ≡ true) × (has_terminal r.source_txid r.source_contract_id db ≡ false)
unfolding has_exact_held_source
exact_source-held db r c h k = ground (arith, h, k)

completed_only : (s : IntentStatus) → same_status s completed ≡ true → s ≡ completed
completed_only s h = ground arith

-- A disposition that returns True had a completed intent with this remote txid, and its source still
-- pending on exactly its terms and in no terminal table. It removes that source from the pending
-- table, adds the one row of its kind, and leaves the processed credits.
pub finalize_moves :
    (id who why remote_txid : String) (now : ℕ) (db db' : Database)
    → finalize_in_transaction id who why remote_txid now db ≡ ok (true, db')
    → (i : TransferIntent) × (c : PendingCredit) × (get_intent id db.transfer_intents ≡ some i)
      × (i.status ≡ completed)
      × (text_or_empty i.remote_txid ≡ remote_txid)
      × (get_pending i.request.source_txid i.request.source_contract_id db.unprocessed_txids
          ≡ some c)
      × (is_held_for i.request c ≡ true)
      × (has_terminal i.request.source_txid i.request.source_contract_id db ≡ false)
      × (db'.unprocessed_txids
          ≡ delete_pending i.request.source_txid i.request.source_contract_id db.unprocessed_txids)
      × (db'.processed_txids ≡ db.processed_txids)
      × DisposedAs i c remote_txid db db'
unfolding finalize_in_transaction
finalize_moves id who why remote_txid now db db' h =
    elim (Option-cases (get_intent id db.transfer_intents)) [
      | inl g ↦ ground (arith, h, g)
      | inr (i, g) ↦
          elim (Option-cases
            (get_pending i.request.source_txid i.request.source_contract_id db.unprocessed_txids)) [
              | inl k ↦ ground (arith, h, g, k)
              | inr (c, k) ↦
                  let done : dispose_source i c who why remote_txid now db ≡ ok (true, db') =
                    ground (arith, h, g, k) in
                  let held : has_exact_held_source db i.request ≡ true = ground (arith, h, g, k) in
                  let key =
                    get_pending-key i.request.source_txid i.request.source_contract_id
                      db.unprocessed_txids {p = c} k in
                  let (gone, kept, placed) =
                    dispose_source-tables i c who why remote_txid now db db' done in
                  (
                    i,
                    c,
                    g,
                    ground (arith, h, g, k, completed_only i.status),
                    ground (arith, h, g, k, str_eq_iff (text_or_empty i.remote_txid) remote_txid),
                    k,
                    (exact_source-held db i.request c held k).0,
                    (exact_source-held db i.request c held k).1,
                    gone ∙ rw (key.0, key.1) refl,
                    kept,
                    placed,
                  )
            ]
    ]

-- A disposition that returns False leaves the database as it was.
pub finalize_refused :
    (id who why remote_txid : String) (now : ℕ) (db db' : Database)
    → finalize_in_transaction id who why remote_txid now db ≡ ok (false, db')
    → db' ≡ db
unfolding finalize_in_transaction
finalize_refused id who why remote_txid now db db' h =
    elim (Option-cases (get_intent id db.transfer_intents)) [
      | inl g ↦ ground (arith, h, g)
      | inr (i, g) ↦
          elim (Option-cases
            (get_pending i.request.source_txid i.request.source_contract_id db.unprocessed_txids)) [
              | inl k ↦ ground (arith, h, g, k)
              | inr (c, k) ↦
                  ground (arith, h, g, k, dispose_source-refused i c who why remote_txid now db db')
            ]
    ]
