-- ===== src/Transfer/Progress.antt =====
-- The relation `Progress` between databases, for creation, authorization and updates of intents.
use swap_service.Base.{
  ℕ, pos, String, ◌≡◌, refl, sym, ap, ◌∙◌, Bool, false, not, ◌&&◌, ◌||◌, Option, none, some, List,
  ◌∷◌, arith, ◌==◌, string_eq, str_eq_iff, int_eq, inl, inr, ltb_ℤ, Bool-cases, is_some, is_empty,
  Result, ok, err, Value, require, Ensures, >>=-Ensures, Ensures-ok, Ensures-intro, require-eq-ok,
  subst, runtime_error, value_error,
}
use swap_service.Database.{
  IntentStatus, prepared, authorized, submitted, completed, TransferRequest, TransferIntent,
  AuditEvidence, Database,
}
use swap_service.Transfer.{
  get_intent, update_intent, same_status, may_advance, record_audit_event, create_in_transaction,
  preparation, has_exact_held_source, has_matching_audit, audit_evidence, require_operator_text,
  record_preparation, authorize_in_transaction, record_execution_request, authorize_row,
  update_in_transaction, advance_row, live_intent, optional_contract, nonempty, coalesce, agrees,
  insert_intent, new_intent, has_reference,
}
use swap_service.Transfer.Status.{
  remote, Evolves, Advances, Advances-refl, Advances-trans, update_intent-Advances,
}
use swap_service.Transfer.Advance.{authorize_row-Evolves, advance_row-Evolves}

-- From one database to the next, every intent is kept and moves forward.
unfoldable pub Progress : Database → Database → Type 0
Progress db db' =
    (p : String) → Advances (get_intent p db.transfer_intents) (get_intent p db'.transfer_intents)

pub Progress-same :
    (db db' : Database) → db'.transfer_intents ≡ db.transfer_intents → Progress db db'
unfolding Progress
Progress-same db db' e p = rw e (Advances-refl _)

pub Progress-trans : (a b c : Database) → Progress a b → Progress b c → Progress a c
unfolding Progress
Progress-trans a b c h k p = Advances-trans _ _ _ (h p) (k p)

pub record_audit_event-Progress :
    (id action who why : String) (e : AuditEvidence) (now : ℕ) (db : Database)
    → Ensures
        (λ db'. db'.transfer_intents ≡ db.transfer_intents)
        (record_audit_event id action who why e now db)
unfolding record_audit_event
record_audit_event-Progress id action who why e now db = ground arith

-- An operation that returns a value beside the database.
abbrev pub Moves {ℓ} : {A : Type ℓ} → Database → Result (A × Database) → Type 0
Moves db r = Ensures (λ x. Progress db x.1) r

pub audited-Progress :
    (id action who why : String) (e : AuditEvidence) (now : ℕ) (base db : Database)
    → db.transfer_intents ≡ base.transfer_intents
    → Ensures (Progress base) (record_audit_event id action who why e now db)
audited-Progress id action who why e now base db same = Ensures-intro (Progress base) _ λ db' h.
    Progress-same base db' (
      Ensures-ok _ (record_audit_event id action who why e now db)
        (record_audit_event-Progress id action who why e now db) h
      ∙ same)

pub live_intent-eq-ok :
    (id : String) (db : Database) {i : TransferIntent}
    → live_intent id db ≡ ok i
    → (get_intent id db.transfer_intents ≡ some i)
      × (ltb_ℤ i.request.source_contract_id (pos 0) ≡ false)
live_intent-eq-ok id db h = ground arith

only : {i j : TransferIntent} {o : Option TransferIntent} → o ≡ some i → o ≡ some j → j ≡ i
only {i} {j} {o} h k = cc

-- An UPDATE of an intent by a change that it allows.
pub update-Progress :
    (id : String) (f : TransferIntent → TransferIntent) (db : Database) (i : TransferIntent)
    → ((j : TransferIntent) → (f j).id ≡ j.id)
    → get_intent id db.transfer_intents ≡ some i
    → Evolves i (f i)
    → Progress db (record db { transfer_intents = update_intent id f db.transfer_intents })
unfolding Progress
update-Progress id f db i k g e p =
    update_intent-Advances id f k p db.transfer_intents
      λ j h. subst (λ z. Evolves z (f z)) (sym (only g h)) e

pub update_in_transaction-Progress :
    (id : String) (s : IntentStatus) (supplied : String) (contract : Value) (resolved : Bool)
    (now : ℕ) (db : Database)
    → Ensures (Progress db) (update_in_transaction id s supplied contract resolved now db)
unfolding update_in_transaction
update_in_transaction-Progress id s supplied contract resolved now db =
    >>=-Ensures (Progress db) (live_intent id db) _ λ i found.
      >>=-Ensures (Progress db) (require (may_advance i.status s) value_error) _ λ _ next.
        >>=-Ensures (Progress db)
          (require (is_empty (remote i) || is_empty supplied || (supplied == remote i)) value_error)
          _
          λ _ same. >>=-Ensures (Progress db) (optional_contract contract) _ λ c _.
            >>=-Ensures (Progress db) (require (agrees c i.contract_id) value_error) _ λ _ agree.
              >>=-Ensures (Progress db)
                (require
                  (not (
                    (same_status s submitted || same_status s completed)
                    && is_empty supplied
                    && is_empty (remote i)))
                  value_error)
                _
                λ _ _.
                  >>=-Ensures (Progress db)
                    (require (not (same_status s completed) || is_some (coalesce c i.contract_id))
                      value_error)
                    _
                    λ _ _.
                      >>=-Ensures (Progress db)
                        (require (not resolved || same_status s completed) value_error) _
                        λ _ _.
                          update-Progress id (advance_row s (nonempty supplied) c resolved now) db i
                            (λ _. refl) (live_intent-eq-ok id db found).0
                            (advance_row-Evolves s supplied c resolved now i
                              (require-eq-ok _ _ next) (require-eq-ok _ _ same)
                              (require-eq-ok _ _ agree))

find_none :
    (p : String) (i : TransferIntent) (is : List TransferIntent)
    → is_some (get_intent i.id is) ≡ false
    → Advances (get_intent p is) (get_intent p (i ∷ is))
find_none p i is h = elim (Bool-cases (i.id == p)) [
  | inl k ↦ rw k (
      gone (get_intent p is)
        (ap (λ z. is_some (get_intent z is)) (sym ((str_eq_iff i.id p).0 k)) ∙ h))
  | inr k ↦ rw k (Advances-refl _)
]
  where
    gone : (o : Option TransferIntent) → is_some o ≡ false → Advances o (some i)
    gone none e = tt
    gone (some j) e = cc

or_left : (a b : Bool) → (a || b) ≡ false → a ≡ false
or_left a b h = ground arith

insert_intent-Progress : (i : TransferIntent) (db : Database) → Moves db (insert_intent i db)
unfolding Progress
insert_intent-Progress i db =
    elim (Bool-cases (
      is_some (get_intent i.id db.transfer_intents)
      || has_reference i.reference db.transfer_intents)) [
        | inl h ↦ rw h tt
        | inr h ↦ rw h λ p. find_none p i db.transfer_intents (or_left _ _ h)
      ]

pub create_in_transaction-Progress :
    (digest : String → String) (r : TransferRequest) (now : ℕ) (db : Database)
    → Moves db (create_in_transaction digest r now db)
unfolding create_in_transaction
create_in_transaction-Progress digest r now db =
    ground (arith, Progress-same db db refl, insert_intent-Progress (new_intent digest r now) db)

-- The transactions of the other operations. Those that return a new intent read it back.
pub authorize_in_transaction-Progress :
    (id who why reference : String) (now : ℕ) (db : Database)
    → Moves db (authorize_in_transaction id who why reference now db)
unfolding authorize_in_transaction
authorize_in_transaction-Progress id who why reference now db =
    >>=-Ensures P (live_intent id db) _ λ i found.
      >>=-Ensures P (require (reference == i.reference) value_error) _ λ _ _.
        >>=-Ensures P (require (same_status i.status prepared) value_error) _ λ _ is_prepared.
          >>=-Ensures P (require (has_exact_held_source db i.request) value_error) _ λ _ _.
            >>=-Ensures P
              (require (has_matching_audit (preparation i) i db.audit_events) value_error) _
              λ _ _.
                let authorized_db = record db {
                  transfer_intents = update_intent id authorize_row db.transfer_intents;
                } in
                let e = audit_evidence i in
                >>=-Ensures P
                  (record_audit_event id "authorized_execution" who why e now authorized_db) _
                  λ db' recorded. read_back db' (
                    Progress-trans db authorized_db db'
                      (update-Progress id authorize_row db i (λ _. refl)
                        (live_intent-eq-ok id db found).0
                        (authorize_row-Evolves i (require-eq-ok _ _ is_prepared)))
                      (Progress-same authorized_db db' (
                        Ensures-ok _
                          (record_audit_event id "authorized_execution" who why e now authorized_db)
                          (record_audit_event-Progress id "authorized_execution" who why e now
                            authorized_db)
                          recorded)))
  where
    P : TransferIntent × Database → Type 0
    P x = Progress db x.1

    read_back :
        (db' : Database)
        → Progress db db'
        → Ensures P (elim (get_intent id db'.transfer_intents) [
          | none ↦ err runtime_error
          | some a ↦ ok (a, db')
        ])
    read_back db' h = go (get_intent id db'.transfer_intents)
      where
        go :
            (o : Option TransferIntent)
            → Ensures P (elim o [ none ↦ err runtime_error | some a ↦ ok (a, db') ])
        go none = tt
        go (some a) = h

pub record_preparation-Progress :
    (id who why : String) (now : ℕ) (db : Database)
    → Ensures (Progress db) (record_preparation id who why now db)
unfolding record_preparation
record_preparation-Progress id actor rationale now db =
    >>=-Ensures (Progress db) (require_operator_text actor) _ λ who _.
      >>=-Ensures (Progress db) (require_operator_text rationale) _ λ why _.
        >>=-Ensures (Progress db) (live_intent id db) _ λ i _.
          >>=-Ensures (Progress db) (require (same_status i.status prepared) value_error) _
            λ _ _. audited-Progress id (preparation i) who why (audit_evidence i) now db db refl

pub record_execution_request-Progress :
    (id who why : String) (now : ℕ) (db : Database)
    → Ensures (Progress db) (record_execution_request id who why now db)
unfolding record_execution_request
record_execution_request-Progress id actor rationale now db =
    >>=-Ensures (Progress db) (require_operator_text actor) _ λ who _.
      >>=-Ensures (Progress db) (require_operator_text rationale) _ λ why _.
        >>=-Ensures (Progress db) (live_intent id db) _ λ i _.
          >>=-Ensures (Progress db) (require (same_status i.status authorized) value_error) _ λ _ _.
            >>=-Ensures (Progress db) (require (has_exact_held_source db i.request) value_error) _
              λ _ _.
                audited-Progress id "execution_requested" who why (audit_evidence i) now db db refl
