-- ===== src/Disbursement/Exclusive.antt =====
-- `prepare_nexus_payout` and the creation of a transfer intent on the same Nexus credit.
use swap_service.Base.{
  ℕ, ℤ, String, ◌≡◌, refl, sym, ap, ◌∙◌, ◌≢◌, Bool, true, false, none, some, List, [], ◌∷◌, arith,
  Bool-cases, Option-cases, inl, inr, ok, ◌>>=◌, >>=-eq-ok, subst, if◌then◌else◌, string_eq, int_eq,
  option_eq, value_eq,
}
use swap_service.Database.{Database, PendingCredit, TransferIntent, TransferRequest}
use swap_service.Credit.{is_credit, get_pending, has_terminal, has_fee_evidence}
use swap_service.Payout.{reserve_in_transaction}
use swap_service.Transfer.{find_source, has_exact_held_source, is_held_for, create_in_transaction}
use swap_service.Transfer.Creation.{create-Stores}
use swap_service.Disbursement.{
  PayoutRequest, prepare_in_transaction, claim_credit, mark_sending, hold_credit, update_pending,
  sending_row, is_ready, can_send, has_intent, nexus_obligation,
}

get-update_pending :
    (r : PayoutRequest) (f : PendingCredit → PendingCredit) (cs : List PendingCredit)
    (c : PendingCredit)
    → ((d : PendingCredit) → ((f d).txid ≡ d.txid) × ((f d).contract_id ≡ d.contract_id))
    → get_pending r.txid r.contract_id cs ≡ some c
    → can_send r c ≡ true
    → get_pending r.txid r.contract_id (update_pending r f cs) ≡ some (f c)
get-update_pending r f [] c k h s = cc
get-update_pending r f (d ∷ cs) c k h s =
    elim (Bool-cases (is_credit r.txid r.contract_id d.txid d.contract_id)) [
      | inl e ↦
          let same : d ≡ c = ground (arith, h, e) in
          let sendable : can_send r d ≡ true = subst (λ z. can_send r z ≡ true) (sym same) s in
          let keyed : is_credit r.txid r.contract_id (f d).txid (f d).contract_id ≡ true =
            rw ((k d).0, (k d).1) e in
          rw (e, sendable, keyed) (ap (λ z. some (f z)) same)
      | inr e ↦ simp (e, get-update_pending r f cs c k (ground (arith, h, e)) s)
    ]

reserve-tables :
    (o k : String) (u c w now : ℕ) (db db' : Database) (b : Bool)
    → reserve_in_transaction o k u c w now db ≡ ok (b, db')
    → (db'.unprocessed_txids ≡ db.unprocessed_txids) × (db'.transfer_intents ≡ db.transfer_intents)
unfolding reserve_in_transaction
reserve-tables o k u c w now db db' b h = ground (arith, h)

mark_sending-stored :
    (r : PayoutRequest) (base db' : Database) (c : PendingCredit)
    → get_pending r.txid r.contract_id base.unprocessed_txids ≡ some c
    → mark_sending r base ≡ ok (true, db')
    → (get_pending r.txid r.contract_id db'.unprocessed_txids ≡ some (sending_row r c))
      × (db'.transfer_intents ≡ base.transfer_intents)
mark_sending-stored r base db' c k h =
    let sendable : can_send r c ≡ true = ground (arith, h, k) in
    let stored : db'.unprocessed_txids ≡ update_pending r (sending_row r) base.unprocessed_txids =
      ground (arith, h, k) in
    (
      rw stored (
          get-update_pending r (sending_row r) base.unprocessed_txids c (λ d. (refl, refl)) k
            sendable),
      ground (arith, h, k),
    )

hold_credit-true : (r : PayoutRequest) (base db' : Database) → hold_credit r base ≢ ok (true, db')
hold_credit-true r base db' h = elim (Option-cases r.hold) [
  | inl n ↦ ground (arith, h, n)
  | inr (q, e) ↦ ground (arith, h, e)
]

sending_stored :
    (r : PayoutRequest) (now : ℕ) (db db' : Database) (c : PendingCredit)
    → get_pending r.txid r.contract_id db.unprocessed_txids ≡ some c
    → claim_credit r now db ≡ ok (true, db')
    → (get_pending r.txid r.contract_id db'.unprocessed_txids ≡ some (sending_row r c))
      × (db'.transfer_intents ≡ db.transfer_intents)
unfolding claim_credit
sending_stored r now db db' c k h = elim (Option-cases r.cap) [
  | inl n ↦ mark_sending-stored r db db' c k (ground (arith, h, n))
  | inr (cap_units, e) ↦
      let o = nexus_obligation r.txid r.contract_id in
      let uncapped : (reserve_in_transaction o "nexus_payout" r.payout_solana_units cap_units 86400
              now db
            >>= λ (granted, base). if granted then mark_sending r base else hold_credit r base)
          ≡ ok (true, db') =
        ground (arith, h, e) in
      let ((granted, base), reserved_as, e') =
        >>=-eq-ok
          (reserve_in_transaction o "nexus_payout" r.payout_solana_units cap_units 86400 now db) _
          uncapped in
      elim (Bool-cases granted) [
        | inl y ↦
            let (pending, intents) = reserve-tables o _ _ _ _ now db base granted reserved_as in
            let (row, kept) =
              mark_sending-stored r base db' c (rw pending k) (ground (arith, e', y)) in
            (row, kept ∙ intents)
        | inr y ↦ absurd (hold_credit-true r base db' (ground (arith, e', y)))
      ]
]

-- What a payout that is claimed has found, and the row that it leaves.
pub prepare_claims :
    (r : PayoutRequest) (now : ℕ) (db db' : Database)
    → prepare_in_transaction r now db ≡ ok (true, db')
    → (c : PendingCredit) × (get_pending r.txid r.contract_id db.unprocessed_txids ≡ some c)
      × (is_ready r c ≡ true)
      × (has_fee_evidence r.txid r.contract_id db.fee_entries ≡ false)
      × (has_intent r.txid r.contract_id db.transfer_intents ≡ false)
      × (has_terminal r.txid r.contract_id db ≡ false)
      × (get_pending r.txid r.contract_id db'.unprocessed_txids ≡ some (sending_row r c))
      × (db'.transfer_intents ≡ db.transfer_intents)
unfolding prepare_in_transaction
prepare_claims r now db db' h =
    elim (Option-cases (get_pending r.txid r.contract_id db.unprocessed_txids)) [
      | inl k ↦ ground (arith, h, k)
      | inr (c, k) ↦
          let claimed : claim_credit r now db ≡ ok (true, db') = ground (arith, h, k) in
          (
            c,
            k,
            ground (arith, h, k),
            ground (arith, h, k),
            ground (arith, h, k),
            ground (arith, h, k),
            (sending_stored r now db db' c k claimed).0,
            (sending_stored r now db db' c k claimed).1,
          )
    ]

sending_is_not_held :
    (db : Database) (r : PayoutRequest) (t : TransferRequest) (c : PendingCredit)
    → get_pending t.source_txid t.source_contract_id db.unprocessed_txids ≡ some (sending_row r c)
    → has_exact_held_source db t ≡ false
unfolding has_exact_held_source is_held_for
sending_is_not_held db r t c k = ground (arith, k)

no_intent :
    (r : PayoutRequest) (is : List TransferIntent)
    → has_intent r.txid r.contract_id is ≡ false
    → find_source r.txid r.contract_id is ≡ none
no_intent r is h = ground (arith, h)

-- A credit that is claimed for a payout is refused to every transfer intent, new or old.
pub prepare_blocks_transfer :
    (digest : String → String) (r : PayoutRequest) (t : TransferRequest) (now later : ℕ)
    (db db₁ db₂ : Database) (i : TransferIntent)
    → prepare_in_transaction r now db ≡ ok (true, db₁)
    → t.source_txid ≡ r.txid
    → t.source_contract_id ≡ r.contract_id
    → create_in_transaction digest t later db₁ ≢ ok (i, db₂)
prepare_blocks_transfer digest r t now later db db₁ db₂ i claimed same_txid same_contract h =
    let (c, _, _, _, unclaimed, _, row, intents) = prepare_claims r now db db₁ claimed in
    let (_, stored, _, how) = create-Stores digest t later db₁ db₂ i h in
    let held : has_exact_held_source db₁ t ≡ false =
      sending_is_not_held db₁ r t c (rw (same_txid, same_contract) row) in
    let none_before : find_source t.source_txid t.source_contract_id db₁.transfer_intents ≡ none =
      rw (same_txid, same_contract, intents) (no_intent r db.transfer_intents unclaimed) in
    elim how [
      | inl kept ↦ ground (
        arith,
        sym stored
            ∙ ap (λ z. find_source t.source_txid t.source_contract_id z.transfer_intents) kept
            ∙ none_before,
      )
      | inr (_, exact, _, _, _) ↦ ground (arith, sym exact ∙ held)
    ]

intent_counts :
    (t : String) (c : ℤ) (is : List TransferIntent) {i : TransferIntent}
    → find_source t c is ≡ some i
    → has_intent t c is ≡ true
intent_counts t c is h = ground (arith, h)

-- A credit with a transfer intent is refused every payout, and the refusal changes nothing.
pub transfer_blocks_prepare :
    (digest : String → String) (r : PayoutRequest) (t : TransferRequest) (now later : ℕ)
    (db db₁ : Database) (i : TransferIntent)
    → create_in_transaction digest t now db ≡ ok (i, db₁)
    → t.source_txid ≡ r.txid
    → t.source_contract_id ≡ r.contract_id
    → prepare_in_transaction r later db₁ ≡ ok (false, db₁)
unfolding prepare_in_transaction
transfer_blocks_prepare digest r t now later db db₁ i h same_txid same_contract =
    let (_, stored, _, _) = create-Stores digest t now db db₁ i h in
    let taken : has_intent r.txid r.contract_id db₁.transfer_intents ≡ true =
      intent_counts r.txid r.contract_id db₁.transfer_intents {i = i}
        (rw (sym same_txid, sym same_contract) stored) in
    ground (arith, taken)
