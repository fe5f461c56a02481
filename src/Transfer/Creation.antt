-- ===== src/Transfer/Creation.antt =====
-- Properties of the creation of a transfer intent.
use swap_service.Base.{
  ℕ, ℤ, String, ◌≡◌, sym, ap, ◌∙◌, true, false, not, ◌||◌, none, some, List, [], ◌∷◌, arith, ◌⊎◌,
  Option-cases, inl, inr, ok, Value, >>=-again, string_eq, str_eq_iff, int_beq, int_beq_iff, int_eq,
  value_error, require, require_positive, require_nonnegative, strip, is_empty, ℕ_eq,
}
use swap_service.Database.{Database, TransferIntent, TransferRequest, prepared}
use swap_service.Credit.{minus_one}
use swap_service.Transfer.{
  find_source, has_exact_held_source, create_in_transaction, create_intent, same_terms, new_intent,
  get_intent,
}

find_source-key :
    (t : String) (c : ℤ) (is : List TransferIntent) {i : TransferIntent}
    → find_source t c is ≡ some i
    → (i.request.source_txid ≡ t) × (i.request.source_contract_id ≡ c)
find_source-key t c [] h = cc
find_source-key t c (j ∷ is) {i} h = ground (
  arith,
  h,
  str_eq_iff j.request.source_txid t,
  int_beq_iff j.request.source_contract_id c,
  find_source-key t c is {i = i},
)

same_terms-eq :
    (a b : TransferRequest)
    → a.source_txid ≡ b.source_txid
    → a.source_contract_id ≡ b.source_contract_id
    → same_terms a b ≡ true
    → a ≡ b
same_terms-eq a b t c h = ground (
  arith,
  t,
  c,
  h,
  str_eq_iff a.kind b.kind,
  str_eq_iff a.from_address b.from_address,
  str_eq_iff a.to_address b.to_address,
)

same_terms_refl : (r : TransferRequest) → same_terms r r ≡ true
same_terms_refl r = ground (
  arith,
  str_eq_iff r.kind r.kind,
  str_eq_iff r.from_address r.from_address,
  str_eq_iff r.to_address r.to_address,
)

-- A held source names a contract, which the legacy marker is not.
held_contract :
    (db : Database) (r : TransferRequest)
    → has_exact_held_source db r ≡ true
    → int_beq r.source_contract_id minus_one ≡ false
unfolding has_exact_held_source
held_contract db r h = ground (arith, h)

first_found :
    (i : TransferIntent) (is : List TransferIntent)
    → find_source i.request.source_txid i.request.source_contract_id (i ∷ is) ≡ some i
first_found i is = ground (
  arith,
  str_eq_iff i.request.source_txid i.request.source_txid,
  int_beq_iff i.request.source_contract_id i.request.source_contract_id,
)

first_skipped :
    (i : TransferIntent) (is : List TransferIntent)
    → int_beq i.request.source_contract_id minus_one ≡ false
    → find_source i.request.source_txid minus_one (i ∷ is)
      ≡ find_source i.request.source_txid minus_one is
first_skipped i is h = ground (arith, h)

-- What a creation that returns has stored.
abbrev pub Stores :
    (String → String) → TransferRequest → ℕ → Database → TransferIntent → Database → Type 0
Stores digest r now db i db' =
    (i.request ≡ r)
    × (find_source r.source_txid r.source_contract_id db'.transfer_intents ≡ some i)
    × (find_source r.source_txid minus_one db'.transfer_intents ≡ none)
    × ((db' ≡ db)
        ⊎ ((find_source r.source_txid r.source_contract_id db.transfer_intents ≡ none)
            × (has_exact_held_source db r ≡ true)
            × (i.status ≡ prepared)
            × (get_intent i.id db.transfer_intents ≡ none)
            × (db' ≡ record db { transfer_intents = i ∷ db.transfer_intents })))

-- A creation that returns gives an intent with exactly the requested terms, which is then the one
-- found for its source, with no legacy intent of the txid beside it. Either it was there and nothing
-- changed, or the source was exactly held and free and the intent is the one new row, prepared.
pub create-Stores :
    (digest : String → String) (r : TransferRequest) (now : ℕ) (db db' : Database)
    (i : TransferIntent)
    → create_in_transaction digest r now db ≡ ok (i, db')
    → Stores digest r now db i db'
unfolding create_in_transaction
create-Stores digest r now db db' i h =
    elim (Option-cases (find_source r.source_txid minus_one db.transfer_intents)) [
      | inr (j, l) ↦ ground (arith, h, l)
      | inl l ↦
          elim (Option-cases (find_source r.source_txid r.source_contract_id db.transfer_intents)) [
            | inr (old, k) ↦
                let key =
                  find_source-key r.source_txid r.source_contract_id db.transfer_intents {i = old}
                    k in
                let same : old ≡ i = ground (arith, h, l, k) in
                let kept : db' ≡ db = ground (arith, h, l, k) in
                let terms : same_terms old.request r ≡ true = ground (arith, h, l, k) in
                (
                  ap (λ z. z.request) (sym same) ∙ same_terms-eq old.request r key.0 key.1 terms,
                  rw kept (k ∙ ap some same),
                  rw kept l,
                  inl kept,
                )
            | inl k ↦
                let new = new_intent digest r now in
                let same : i ≡ new = ground (arith, h, l, k) in
                let grown : db' ≡ record db { transfer_intents = new ∷ db.transfer_intents } =
                  ground (arith, h, l, k) in
                let held : has_exact_held_source db r ≡ true = ground (arith, h, l, k) in
                let fresh : get_intent new.id db.transfer_intents ≡ none =
                  ground (arith, h, l, k) in
                (
                  ap (λ z. z.request) same,
                  ap (λ z. find_source r.source_txid r.source_contract_id z.transfer_intents) grown
                      ∙ first_found new db.transfer_intents
                      ∙ ap some (sym same),
                  ap (λ z. find_source r.source_txid minus_one z.transfer_intents) grown
                      ∙ first_skipped new db.transfer_intents (held_contract db r held)
                      ∙ l,
                  inr (
                    k,
                    held,
                    ap (λ z. z.status) same,
                    ap (λ z. get_intent z.id db.transfer_intents) same ∙ fresh,
                    grown
                        ∙ ap (λ z. record db { transfer_intents = z ∷ db.transfer_intents })
                            (sym same),
                  ),
                )
          ]
    ]

stored_again :
    (digest : String → String) (r : TransferRequest) (now later : ℕ) (db db' : Database)
    (i : TransferIntent)
    → Stores digest r now db i db'
    → create_in_transaction digest r later db' ≡ ok (i, db')
unfolding create_in_transaction
stored_again digest r now later db db' i (same, found, other, _) =
    ground (arith, found, other, ap (λ z. same_terms z r) same ∙ same_terms_refl r)

-- The same request again, at any later time, returns the intent and changes nothing.
pub create_again :
    (digest : String → String) (kind txid : String) (contract : Value) (source target : String)
    (amount : Value) (now later : ℕ) (db db' : Database) (i : TransferIntent)
    → create_intent digest kind txid contract source target amount now db ≡ ok (i, db')
    → create_intent digest kind txid contract source target amount later db' ≡ ok (i, db')
unfolding create_intent
create_again digest kind txid contract source target amount now later db db' i =
    >>=-again (require_positive amount) _ _ λ units _.
      >>=-again (require_nonnegative contract) _ _ λ n _.
        >>=-again
          (require
            (not (
              is_empty (strip kind)
              || is_empty (strip txid)
              || is_empty (strip source)
              || is_empty (strip target)))
            value_error)
          _ _
          λ _ _ h. stored_again digest _ now later db db' i (create-Stores digest _ now db db' i h)
