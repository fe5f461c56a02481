-- ===== src/Disbursement/Archive.antt =====
-- The tables that `finalize_nexus_credit` leaves when it archives a credit.
use swap_service.Base.{
  ℕ, ◌*◌, ℤ, pos, String, ◌≡◌, refl, ap, ◌∙◌, Bool, true, false, not, ◌||◌, none, some, List, [],
  ◌∷◌, arith, is_empty, Bool-cases, Option-cases, inl, inr, ok, Value, boolean, int, real, text,
  null, ◌>>=◌, >>=-eq-ok, ltb, ◌*ℤ◌, ◌^◌, pos_part, neg_part, if◌then◌else◌, is_some, string_eq,
  str_eq_iff, int_beq_iff, int_eq, nat_eq_iff, option_beq_iff, option_eq, value_eq,
}
use swap_service.Database.{Database, ProcessedCredit, FeeEntry, reserved}
use swap_service.Credit.{delete_pending}
use swap_service.Payout.{settle_in_transaction, has_event}
use swap_service.Disbursement.{
  CreditEvidence, PayoutEvidence, terminal_row, fee_rows, is_expected_fee, is_some_row, journal_fee,
  settle_and_archive, archive, same_terminal, positive_units, nexus_obligation, equals, same_number,
}

settle-tables :
    (o s : String) (u now : ℕ) (db db' : Database) (b : Bool)
    → settle_in_transaction o s u now db ≡ ok (b, db')
    → (db'.unprocessed_txids ≡ db.unprocessed_txids)
      × (db'.processed_txids ≡ db.processed_txids)
      × (db'.fee_entries ≡ db.fee_entries)
      × (db'.transfer_intents ≡ db.transfer_intents)
      × (db'.refunded_txids ≡ db.refunded_txids)
      × (db'.quarantined_txids ≡ db.quarantined_txids)
unfolding settle_in_transaction
settle-tables o s u now db db' b h = ground (arith, h)

pub settle-refused :
    (o s : String) (u now : ℕ) (db db' : Database)
    → settle_in_transaction o s u now db ≡ ok (false, db')
    → db' ≡ db
unfolding settle_in_transaction
settle-refused o s u now db db' h = ground (arith, h)

-- The tables after a credit is archived.
abbrev pub Archives : CreditEvidence → PayoutEvidence → Database → Database → Type 0
Archives e p db db' =
    (db'.processed_txids ≡ terminal_row e p ∷ db.processed_txids)
    × (db'.unprocessed_txids ≡ delete_pending e.txid e.contract_id db.unprocessed_txids)
    × (db'.fee_entries ≡ db.fee_entries)
    × (db'.transfer_intents ≡ db.transfer_intents)
    × (db'.refunded_txids ≡ db.refunded_txids)
    × (db'.quarantined_txids ≡ db.quarantined_txids)

pub settle_and_archive-true :
    (e : CreditEvidence) (p : PayoutEvidence) (now : ℕ) (db db' : Database)
    → settle_and_archive e p now db ≡ ok (true, db')
    → Archives e p db db'
unfolding settle_and_archive archive
settle_and_archive-true e p now db db' h =
    elim (Bool-cases (
      is_empty e.sig
      || not (has_event (nexus_obligation e.txid e.contract_id) reserved db.budget_events))) [
        | inl y ↦ ground (arith, h, y)
        | inr y ↦ elim (Option-cases (positive_units p.units)) [
          | inl n ↦ ground (arith, h, y, n)
          | inr (units, n) ↦
              let o = nexus_obligation e.txid e.contract_id in
              let answered : (settle_in_transaction o e.sig units now db >>= λ (settled, base).
              if settled then archive e p base else ok (false, base))
                  ≡ ok (true, db') =
                ground (arith, h, y, n) in
              let ((settled, base), e₁, e₂) =
                >>=-eq-ok (settle_in_transaction o e.sig units now db) _ answered in
              let tables = settle-tables o e.sig units now db base settled e₁ in
              ground (arith, e₂, tables)
        ]
      ]

same_number_refl : (m e : ℤ) → same_number m e m e ≡ true
unfolding same_number
same_number_refl m e = ground (
  arith,
  int_beq_iff (m *ℤ (2 ^ pos_part e * 2 ^ neg_part e)) (m *ℤ (2 ^ pos_part e * 2 ^ neg_part e)),
)

equals_refl : (v : Value) → equals v v ≡ true
equals_refl null = refl
equals_refl (boolean true) = same_number_refl (pos 1) (pos 0)
equals_refl (boolean false) = same_number_refl (pos 0) (pos 0)
equals_refl (int n) = same_number_refl n (pos 0)
equals_refl (real m e) = same_number_refl m e
equals_refl (text a) = (str_eq_iff a a).1 refl

pub same_terminal_refl : (t : ProcessedCredit) → same_terminal t t ≡ true
same_terminal_refl t = ground (
  arith,
  str_eq_iff t.txid t.txid,
  int_beq_iff t.contract_id t.contract_id,
  equals_refl t.timestamp,
  equals_refl t.amount_usdd,
  equals_refl t.amount_usdd_units,
  option_beq_iff t.from_address t.from_address,
  option_beq_iff t.to_address t.to_address,
  option_beq_iff t.owner t.owner,
  option_beq_iff t.sig t.sig,
  option_beq_iff t.status t.status,
  equals_refl t.payout_solana_units,
  equals_refl t.payout_fee_nexus_units,
  option_beq_iff t.payout_receival_account t.payout_receival_account,
)

new_fee : CreditEvidence → String → ℕ → FeeEntry
new_fee e kind now = record {
  sig = none;
  txid = some e.txid;
  kind = kind;
  amount_usdc_units = none;
  amount_usdd_units = some (pos e.fee_nexus_units);
  contract_id = e.contract_id;
  timestamp = now;
}

fee_rows-new_fee :
    (e : CreditEvidence) (kind : String) (now : ℕ) (fs : List FeeEntry)
    → fee_rows e.txid e.contract_id (new_fee e kind now ∷ fs)
      ≡ (kind, pos e.fee_nexus_units) ∷ fee_rows e.txid e.contract_id fs
unfolding new_fee
fee_rows-new_fee e kind now fs =
    ground (arith, str_eq_iff e.txid e.txid, int_beq_iff e.contract_id e.contract_id)

-- Journaling the fee leaves exactly the expected rows of it.
pub journaled :
    (e : CreditEvidence) (now : ℕ) (db : Database)
    → (is_expected_fee e (fee_rows e.txid e.contract_id db.fee_entries)
        || not (is_some_row (fee_rows e.txid e.contract_id db.fee_entries)))
      ≡ true
    → ltb 0 e.fee_nexus_units ≡ is_some e.fee_kind
    → is_expected_fee e (
        fee_rows e.txid e.contract_id
          (journal_fee e (fee_rows e.txid e.contract_id db.fee_entries) now db).fee_entries)
      ≡ true
unfolding journal_fee new_fee
journaled e now db h k = go (fee_rows e.txid e.contract_id db.fee_entries) refl h
  where
    go :
        (rows : List (String × ℤ))
        → fee_rows e.txid e.contract_id db.fee_entries ≡ rows
        → (is_expected_fee e rows || not (is_some_row rows)) ≡ true
        → is_expected_fee e (fee_rows e.txid e.contract_id (journal_fee e rows now db).fee_entries)
          ≡ true
    go (a ∷ rows) r x = rw r (ground (arith, x))
    go [] r x = elim (Option-cases e.fee_kind) [
      | inl n ↦ rw (k ∙ ap is_some n) (rw (r, k ∙ ap is_some n) refl)
      | inr (kind, n) ↦
          let some_fee : ltb 0 e.fee_nexus_units ≡ true = k ∙ ap is_some n in
          rw (some_fee, n, fee_rows-new_fee e kind now db.fee_entries, r)
            (ground (
              arith,
              some_fee,
              n,
              str_eq_iff kind kind,
              nat_eq_iff e.fee_nexus_units e.fee_nexus_units,
            ))
    ]
