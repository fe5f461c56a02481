-- ===== src/Database.antt =====
-- The tables of src/state_db.py that the payout, transfer and credit operations read and write.
-- A table is the list of its rows, the newest first. A column is a `Value` where the code tests
-- the type of what it reads, and otherwise has the type that every writer gives it.
use swap_service.Base.{ℕ, ℤ, String, Option, List, [], Value, Result, ok, err}

-- `event IN ('reserved', 'submitted', 'confirmed', 'released')`.
pub data BudgetState : Type 0 where
  reserved submitted confirmed released : BudgetState

-- A row of solana_payout_budget_events.
pub record BudgetEvent : Type 0 where
  pub obligation_id : String
  pub kind : String
  pub event : BudgetState
  pub amount_usdc_units : ℕ
  pub signature : Option String
  pub evidence : Option String
  pub timestamp : ℕ

-- A row of payouts, the older payout log.
pub record Payout : Type 0 where
  pub kind : String
  pub amount_usdc_units : ℕ
  pub reference : Option String
  pub timestamp : ℕ

-- A row of unprocessed_txids: a Nexus credit that waits for its disposition.
pub record PendingCredit : Type 0 where
  pub txid : String
  pub contract_id : ℤ
  pub timestamp : Value
  pub amount_usdd : Value
  pub from_address : Option String
  pub to_address : Option String
  pub owner_from_address : Option String
  pub confirmations_credit : Value
  pub status : Option String
  pub receival_account : Option String
  pub sig : Option String
  pub amount_usdd_units : Value
  pub hold_reason : Option String
  pub payout_solana_units : Value
  pub payout_fee_nexus_units : Value

-- A row of processed_txids.
pub record ProcessedCredit : Type 0 where
  pub txid : String
  pub contract_id : ℤ
  pub timestamp : Value
  pub amount_usdd : Value
  pub amount_usdd_units : Value
  pub from_address : Option String
  pub to_address : Option String
  pub owner : Option String
  pub sig : Option String
  pub status : Option String
  pub payout_solana_units : Value
  pub payout_fee_nexus_units : Value
  pub payout_receival_account : Option String

-- A row of refunded_txids or of quarantined_txids, whose columns differ in one name.
pub record ReturnedCredit : Type 0 where
  pub txid : String
  pub contract_id : ℤ
  pub timestamp : Value
  pub amount_usdd : Value
  pub from_address : Option String
  pub to_address : Option String
  pub owner : Option String
  pub confirmations_credit : Value
  pub status : Option String
  pub sig : Option String

-- A row of fee_entries.
pub record FeeEntry : Type 0 where
  pub sig : Option String
  pub txid : Option String
  pub kind : String
  pub amount_usdc_units : Option ℤ
  pub amount_usdd_units : Option ℤ
  pub contract_id : ℤ
  pub timestamp : ℕ

-- The values of nexus_transfer_intents.status.
pub data IntentStatus : Type 0 where
  prepared authorized executing submitted outcome_unknown completed legacy_manual_hold :
      IntentStatus

-- The source and the terms of a Nexus transfer.
pub record TransferRequest : Type 0 where
  pub kind : String
  pub source_txid : String
  pub source_contract_id : ℤ
  pub from_address : String
  pub to_address : String
  pub amount_usdd_units : ℕ

-- A row of nexus_transfer_intents.
pub record TransferIntent : Type 0 where
  pub id : String
  pub request : TransferRequest
  pub reference : String
  pub status : IntentStatus
  pub remote_txid : Option String
  pub contract_id : Option ℤ
  pub created_timestamp : ℕ
  pub last_attempt_timestamp : Option ℕ
  pub resolved_timestamp : Option ℕ

-- A decoded JSON text: the pairs of an object in the order of the text.
mutual
  pub data Json : Type 0 where
    scalar : Value → Json
    array : Items → Json
    object : Fields → Json

  pub data Items : Type 0 where
    no_items : Items
    item : Json → Items → Items

  pub data Fields : Type 0 where
    no_fields : Fields
    field : String → Json → Fields → Fields

-- A row of unprocessed_sigs: a Solana deposit that waits for its disposition.
pub record PendingDeposit : Type 0 where
  pub sig : String
  pub timestamp : Option ℤ
  pub memo : Option String
  pub from_address : Option String
  pub amount_usdc_units : Option ℤ
  pub amount_usdd_units : Option ℤ
  pub status : Option String
  pub txid : Option String
  pub reference : Option ℤ
  pub policy_decision : Option String
  pub policy_evidence : Option Json

-- A row of processed_sigs.
pub record ProcessedDeposit : Type 0 where
  pub sig : String
  pub timestamp : Option ℤ
  pub amount_usdc_units : Option ℤ
  pub txid : Option String
  pub amount_usdd_units : Option ℤ
  pub nexus_destination : Option String
  pub memo : Option String
  pub status : Option String
  pub reference : Option ℤ
  pub contract_id : Option ℤ

-- A row of refunded_sigs or of quarantined_sigs, whose columns differ in two names.
pub record ReturnedDeposit : Type 0 where
  pub sig : String
  pub timestamp : Option ℤ
  pub from_address : Option String
  pub destination_address : Option String
  pub amount_usdc_units : Option ℤ
  pub memo : Option String
  pub payout_memo : Option String
  pub payout_sig : Option String
  pub payout_units : Option ℤ
  pub status : Option String
  pub intent_provenance : Option String
  pub intent_evidence : Option Json

-- A row of solana_deposit_holds: a deposit that the scan could not admit.
pub record DepositHold : Type 0 where
  pub signature : String
  pub block_timestamp : ℤ
  pub memo : Option String
  pub from_address : Option String
  pub amount_units : Option ℤ
  pub reason : String

-- A row of solana_payout_capacity_holds.
pub record CapacityHold : Type 0 where
  pub source_signature : String
  pub kind : String
  pub obligation_id : String
  pub needed_units : ℕ
  pub used_units : ℕ
  pub cap_units : ℕ
  pub first_held_timestamp : ℕ
  pub updated_timestamp : ℕ
  pub reason : String
  pub intent_evidence : Json
  pub attempt_count : ℕ

-- A row of solana_disposition_provenance_migrations.
pub record ProvenanceMigration : Type 0 where
  pub kind : String
  pub source_signature : String
  pub payout_signature : String
  pub payout_units : ℕ
  pub reversed_fee_units : ℤ
  pub timestamp : ℕ

-- What the JSON text in an audit row's evidence column holds.
pub record AuditEvidence : Type 0 where
  pub reference : String
  pub source_contract_id : ℤ
  pub source_txid : String
  pub remote_txid : Option String
  pub remote_contract_id : Option ℤ
  pub disposition : Option String

-- A row of nexus_transfer_audit_events.
pub record AuditEvent : Type 0 where
  pub intent_id : String
  pub action : String
  pub actor : String
  pub rationale : String
  pub evidence : AuditEvidence
  pub timestamp : ℕ

pub record Database : Type 0 where
  pub budget_events : List BudgetEvent
  pub payouts : List Payout
  pub unprocessed_sigs : List PendingDeposit
  pub processed_sigs : List ProcessedDeposit
  pub refunded_sigs : List ReturnedDeposit
  pub quarantined_sigs : List ReturnedDeposit
  pub deposit_holds : List DepositHold
  pub capacity_holds : List CapacityHold
  pub provenance_migrations : List ProvenanceMigration
  pub unprocessed_txids : List PendingCredit
  pub processed_txids : List ProcessedCredit
  pub refunded_txids : List ReturnedCredit
  pub quarantined_txids : List ReturnedCredit
  pub fee_entries : List FeeEntry
  pub transfer_intents : List TransferIntent
  pub audit_events : List AuditEvent

-- What a transaction leaves: a raised error rolls back.
abbrev pub after {ℓ} : {A : Type ℓ} → Database → Result (A × Database) → Database
after db (ok (a, db')) = db'
after db (err e) = db

-- The tables as they are created.
abbrev pub empty_database : Database
empty_database = record {
  budget_events = [];
  payouts = [];
  unprocessed_sigs = [];
  processed_sigs = [];
  refunded_sigs = [];
  quarantined_sigs = [];
  deposit_holds = [];
  capacity_holds = [];
  provenance_migrations = [];
  unprocessed_txids = [];
  processed_txids = [];
  refunded_txids = [];
  quarantined_txids = [];
  fee_entries = [];
  transfer_intents = [];
  audit_events = [];
}
