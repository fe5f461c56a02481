-- ===== src/Disbursement/Repeat.antt =====
-- `finalize_nexus_credit` called again with the same arguments.
use swap_service.Base.{
  ℕ, ℤ, String, ◌≡◌, refl, ap, ◌∙◌, true, false, not, ◌&&◌, ◌||◌, Option, none, some, List, [], ◌∷◌,
  arith, is_empty, Option-cases, inl, inr, ok, Value, >>=-again, ltb, leb, is_some, ◌==◌, string_eq,
  str_eq_iff, int_beq, int_beq_iff, int_eq, ℕ_eq, option_beq_iff, option_eq, value_eq, value_error,
  require, require_positive, require_nonnegative, require-eq-ok, strip,
}
use swap_service.Database.{Database, PendingCredit, ProcessedCredit}
use swap_service.Credit.{get_pending, get_processed, get_returned, minus_one}
use swap_service.Transfer.Disposal.{get-delete_pending}
use swap_service.Disbursement.{
  CreditEvidence, PayoutEvidence, finalize_credit_in_transaction, finalize_nexus_credit,
  finalize_source, payout_evidence, terminal_row, fee_rows, is_expected_fee, is_some_row,
  journal_fee, settle_and_archive, has_legacy_fee, has_intent, mentions_fee, is_fee_kind,
}
use swap_service.Disbursement.Archive.{settle_and_archive-true, same_terminal_refl, journaled}

payout_evidence-archived :
    (e : CreditEvidence) (source : Option PendingCredit) (p : PayoutEvidence)
    → payout_evidence e source none ≡ some p
    → payout_evidence e none (some (terminal_row e p)) ≡ some p
unfolding payout_evidence
payout_evidence-archived e none p h = ground (arith, h)
payout_evidence-archived e (some c) p h =
    ground (arith, h, option_beq_iff c.sig (some e.sig), option_beq_iff (some e.sig) (some e.sig))

journal_fee-kept :
    (e : CreditEvidence) (rows : List (String × ℤ)) (now : ℕ) (db : Database)
    → ((journal_fee e rows now db).unprocessed_txids ≡ db.unprocessed_txids)
      × ((journal_fee e rows now db).processed_txids ≡ db.processed_txids)
      × ((journal_fee e rows now db).transfer_intents ≡ db.transfer_intents)
      × ((journal_fee e rows now db).refunded_txids ≡ db.refunded_txids)
      × ((journal_fee e rows now db).quarantined_txids ≡ db.quarantined_txids)
unfolding journal_fee
journal_fee-kept e [] now db = ground arith
journal_fee-kept e (a ∷ rows) now db = ground arith

journal_fee-legacy :
    (e : CreditEvidence) (rows : List (String × ℤ)) (now : ℕ) (db : Database)
    → int_beq e.contract_id minus_one ≡ false
    → has_legacy_fee e.txid (journal_fee e rows now db).fee_entries
      ≡ has_legacy_fee e.txid db.fee_entries
unfolding journal_fee
journal_fee-legacy e [] now db n = ground (arith, n)
journal_fee-legacy e (a ∷ rows) now db n = refl

first_processed :
    (e : CreditEvidence) (p : PayoutEvidence) (ts : List ProcessedCredit)
    → get_processed e.txid e.contract_id (terminal_row e p ∷ ts) ≡ some (terminal_row e p)
first_processed e p ts =
    ground (arith, str_eq_iff e.txid e.txid, int_beq_iff e.contract_id e.contract_id)

finalize_source-known :
    (e : CreditEvidence) (source : Option PendingCredit) (t : ProcessedCredit) (now later : ℕ)
    (db db' : Database)
    → finalize_source e source (some t) now db ≡ ok (true, db')
    → (db' ≡ db) × (finalize_source e source (some t) later db ≡ ok (true, db))
finalize_source-known e source t now later db db' h =
    elim (Option-cases (payout_evidence e source (some t))) [
      | inl n ↦ ground (arith, h, n)
      | inr (p, n) ↦ ground (arith, h, n)
    ]

-- What the first archiving of a credit has found and leaves.
abbrev pub Fresh : CreditEvidence → Option PendingCredit → ℕ → Database → Database → Type 0
Fresh e source now db db' =
    (p : PayoutEvidence) × (payout_evidence e source none ≡ some p)
    × (is_expected_fee e (fee_rows e.txid e.contract_id db'.fee_entries) ≡ true)
    × (get_processed e.txid e.contract_id db'.processed_txids ≡ some (terminal_row e p))
    × (get_pending e.txid e.contract_id db'.unprocessed_txids ≡ none)
    × (has_legacy_fee e.txid db'.fee_entries ≡ has_legacy_fee e.txid db.fee_entries)
    × (db'.transfer_intents ≡ db.transfer_intents)
    × (is_some (get_returned e.txid e.contract_id db'.refunded_txids) ≡ false)
    × (is_some (get_returned e.txid e.contract_id db'.quarantined_txids) ≡ false)

module _ (e : CreditEvidence) (contract : int_beq e.contract_id minus_one ≡ false)
    (kind : ltb 0 e.fee_nexus_units ≡ is_some e.fee_kind) where
  pub finalize_source-Fresh :
      (source : Option PendingCredit) (now : ℕ) (db db' : Database)
      → finalize_source e source none now db ≡ ok (true, db')
      → Fresh e source now db db'
  finalize_source-Fresh source now db db' h = elim (Option-cases (payout_evidence e source none)) [
    | inl n ↦ ground (arith, h, n)
    | inr (p, n) ↦
        let rows = fee_rows e.txid e.contract_id db.fee_entries in
        let journal = journal_fee e rows now db in
        let expected : (is_expected_fee e rows || not (is_some_row rows)) ≡ true =
          ground (arith, h, n) in
        let archived : settle_and_archive e p now journal ≡ ok (true, db') = ground (arith, h, n) in
        let unrefunded : is_some (get_returned e.txid e.contract_id db.refunded_txids) ≡ false =
          ground (arith, h, n) in
        let unquarantined : is_some (get_returned e.txid e.contract_id db.quarantined_txids)
            ≡ false =
          ground (arith, h, n) in
        let (processed, pending, fees, intents, refunded, quarantined) =
          settle_and_archive-true e p now journal db' archived in
        let (kept_pending, kept_processed, kept_intents, kept_refunded, kept_quarantined) =
          journal_fee-kept e rows now db in
        (
          p,
          n,
          rw fees (journaled e now db expected kind),
          rw processed (first_processed e p _),
          rw pending (get-delete_pending e.txid e.contract_id _),
          rw fees (journal_fee-legacy e rows now db contract),
          intents ∙ kept_intents,
          rw (refunded, kept_refunded) unrefunded,
          rw (quarantined, kept_quarantined) unquarantined,
        )
  ]

  finalize_source-archived :
      (source : Option PendingCredit) (now later : ℕ) (db db' : Database)
      → Fresh e source now db db'
      → has_legacy_fee e.txid db.fee_entries ≡ false
      → has_intent e.txid e.contract_id db.transfer_intents ≡ false
      → finalize_credit_in_transaction e later db' ≡ ok (true, db')
  unfolding finalize_credit_in_transaction
  finalize_source-archived source now later db db'
        (p, n, expected, stored, gone, legacy, intents, _, _) l i =
      let same_legacy : has_legacy_fee e.txid db'.fee_entries ≡ false = legacy ∙ l in
      let same_intents : has_intent e.txid e.contract_id db'.transfer_intents ≡ false =
        ap (has_intent e.txid e.contract_id) intents ∙ i in
      ground (
        arith,
        same_legacy,
        same_intents,
        gone,
        stored,
        expected,
        payout_evidence-archived e source p n,
        same_terminal_refl (terminal_row e p),
      )

  finalize_again_in_transaction :
      (now later : ℕ) (db db' : Database)
      → finalize_credit_in_transaction e now db ≡ ok (true, db')
      → finalize_credit_in_transaction e later db' ≡ ok (true, db')
  unfolding finalize_credit_in_transaction
  finalize_again_in_transaction now later db db' h =
      elim (Option-cases (get_processed e.txid e.contract_id db.processed_txids)) [
        | inr (t, k) ↦ elim (Option-cases (get_pending e.txid e.contract_id db.unprocessed_txids)) [
          | inl g ↦
              let (same, again) =
                finalize_source-known e none t now later db db' (ground (arith, h, k, g)) in
              rw same (ground (arith, h, k, g, again))
          | inr (c, g) ↦
              let (same, again) =
                finalize_source-known e (some c) t now later db db' (ground (arith, h, k, g)) in
              rw same (ground (arith, h, k, g, again))
        ]
        | inl k ↦
            let unjournaled : has_legacy_fee e.txid db.fee_entries ≡ false = ground (arith, h) in
            let unclaimed : has_intent e.txid e.contract_id db.transfer_intents ≡ false =
              ground (arith, h) in
            elim (Option-cases (get_pending e.txid e.contract_id db.unprocessed_txids)) [
              | inl g ↦
                  finalize_source-archived none now later db db'
                    (finalize_source-Fresh none now db db' (ground (arith, h, k, g))) unjournaled
                    unclaimed
              | inr (c, g) ↦
                  finalize_source-archived (some c) now later db db'
                    (finalize_source-Fresh (some c) now db db' (ground (arith, h, k, g)))
                    unjournaled unclaimed
            ]
      ]

fee_kind_matches :
    (fee : ℕ) (kind : Option String) → is_fee_kind fee kind ≡ true → ltb 0 fee ≡ is_some kind
fee_kind_matches fee none h = ground (arith, h)
fee_kind_matches fee (some kind) h = ground (arith, h)

-- Finalizing a credit again with the same evidence, at any later time, returns True again and
-- changes nothing: no second fee, no second archive row, no second settlement.
pub finalize_again :
    (txid : String) (contract timestamp amount_usdd amount : Value)
    (from_address to_address owner sig status : String) (fee_kind : Option String) (fee : Value)
    (now later : ℕ) (db db' : Database)
    → finalize_nexus_credit txid contract timestamp amount_usdd amount from_address to_address owner
        sig status fee_kind fee now db
      ≡ ok (true, db')
    → finalize_nexus_credit txid contract timestamp amount_usdd amount from_address to_address owner
        sig status fee_kind fee later db'
      ≡ ok (true, db')
unfolding finalize_nexus_credit
finalize_again txid contract timestamp amount_usdd amount from_address to_address owner sig status
      fee_kind fee now later db db' =
    >>=-again
      (require (not (is_empty (strip txid) || is_empty from_address || is_empty to_address))
        value_error)
      _ _
      λ _ _. >>=-again (require_nonnegative contract) _ _ λ c _.
        >>=-again (require_positive amount) _ _ λ a _.
          >>=-again (require_nonnegative fee) _ _ λ f _.
            >>=-again (require (leb f a) value_error) _ _ λ _ _.
              >>=-again (require (not (is_empty (strip status))) value_error) _ _ λ _ _.
                >>=-again (require (is_fee_kind f fee_kind) value_error) _ _ λ _ has_kind.
                  >>=-again
                    (require (not (is_empty sig) || ((f == a) && mentions_fee status)) value_error)
                    _ _
                    λ _ _.
                      finalize_again_in_transaction _ refl
                        (fee_kind_matches f fee_kind (require-eq-ok _ _ has_kind)) now later db db'
