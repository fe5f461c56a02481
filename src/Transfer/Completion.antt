-- ===== src/Transfer/Completion.antt =====
-- The relation `Progress` for the claim of an intent and for its disposition.
use swap_service.Base.{
  ℕ, String, ◌≡◌, refl, Bool, ◌∷◌, arith, string_eq, int_eq, inl, inr, Option-cases, Value,
  >>=-Ensures, Ensures-ok,
}
use swap_service.Database.{TransferIntent, PendingCredit, Database}
use swap_service.Credit.{get_pending, delete_pending}
use swap_service.Transfer.{
  get_intent, record_audit_event, claim, claim_row, finalize_in_transaction, dispose_source,
  remove_source, disposition_evidence, returned_row,
}
use swap_service.Transfer.Advance.{claim_row-Evolves}
use swap_service.Transfer.Progress.{
  Progress, Progress-same, Moves, update-Progress, audited-Progress,
}

pub claim-Progress : (id : String) (now : ℕ) (db : Database) → Moves db (claim id now db)
unfolding claim
claim-Progress id now db = elim (Option-cases (get_intent id db.transfer_intents)) [
  | inl h ↦ ground (arith, h, Progress-same db db refl)
  | inr (i, h) ↦ ground (
    arith,
    h,
    Progress-same db db refl,
    update-Progress id (claim_row now) db i (claim_row_id now) h (claim_row-Evolves now i),
  )
]
  where
    claim_row_id : (now : ℕ) (i : TransferIntent) → (claim_row now i).id ≡ i.id
    claim_row_id now i = (claim_row-Evolves now i).same_id

remove_source-Progress :
    (i : TransferIntent) (c : PendingCredit) (action who why remote_txid : String) (now : ℕ)
    (base db : Database)
    → db.transfer_intents ≡ base.transfer_intents
    → Moves base (remove_source i c action who why remote_txid now db)
remove_source-Progress i c action who why remote_txid now base db same =
    >>=-Ensures P
      (record_audit_event i.id action who why (disposition_evidence i remote_txid) now removed) _
      λ db' h.
        Ensures-ok (Progress base) _
          (audited-Progress i.id action who why (disposition_evidence i remote_txid) now base
            removed same)
          h
  where
    P : Bool × Database → Type 0
    P x = Progress base x.1

    removed : Database
    removed = record db {
      unprocessed_txids = delete_pending c.txid c.contract_id db.unprocessed_txids;
    }

dispose_source-Progress :
    (i : TransferIntent) (c : PendingCredit) (who why remote_txid : String) (now : ℕ)
    (db : Database)
    → Moves db (dispose_source i c who why remote_txid now db)
unfolding dispose_source
dispose_source-Progress i c who why remote_txid now db = ground (
  arith,
  Progress-same db db refl,
  remove_source-Progress i c "finalized_refund" who why remote_txid now db
      (record db {
        refunded_txids =
            returned_row c c.confirmations_credit "refund_confirmed_by_operator" remote_txid
            ∷ db.refunded_txids;
      })
      refl,
  remove_source-Progress i c "finalized_quarantine" who why remote_txid now db
      (record db {
        quarantined_txids =
            returned_row c Value.null "quarantine_confirmed_by_operator" remote_txid
            ∷ db.quarantined_txids;
      })
      refl,
)

pub finalize_in_transaction-Progress :
    (id who why remote_txid : String) (now : ℕ) (db : Database)
    → Moves db (finalize_in_transaction id who why remote_txid now db)
unfolding finalize_in_transaction
finalize_in_transaction-Progress id who why remote_txid now db =
    elim (Option-cases (get_intent id db.transfer_intents)) [
      | inl h ↦ ground (arith, h, Progress-same db db refl)
      | inr (i, h) ↦
          elim (Option-cases
            (get_pending i.request.source_txid i.request.source_contract_id db.unprocessed_txids)) [
              | inl k ↦ ground (arith, h, k, Progress-same db db refl)
              | inr (c, k) ↦ ground (
                arith,
                h,
                k,
                Progress-same db db refl,
                dispose_source-Progress i c who why remote_txid now db,
              )
            ]
    ]
