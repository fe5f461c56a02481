-- ===== src/Transfer/History.antt =====
-- Histories: any sequence of operations on transfer intents, with restarts among them.
use swap_service.Base.{
  ℕ, String, refl, Bool, not, ◌||◌, Option, List, [], ◌∷◌, arith, Option-cases, inl, inr, Result,
  ok, err, value_error, Value, require, require_positive, require_nonnegative, strip, is_empty,
  Ensures, >>=-Ensures,
}
use swap_service.Database.{Database}
use swap_service.Transfer.{
  create_intent, record_preparation, authorize, record_execution_request, claim,
  recover_interrupted, update_transfer, finalize, require_operator_text, status_of_text,
  text_or_empty, get_intent,
}
use swap_service.Transfer.Status.{Advances}
use swap_service.Transfer.Advance.{recover_rows-Advances}
use swap_service.Transfer.Progress.{
  Progress, Progress-same, Progress-trans, Moves, create_in_transaction-Progress,
  record_preparation-Progress, authorize_in_transaction-Progress, record_execution_request-Progress,
  update_in_transaction-Progress,
}
use swap_service.Transfer.Completion.{claim-Progress, finalize_in_transaction-Progress}

-- The operations, with their arguments as the operator's command or the worker gives them.
pub data Call : Type 0 where
  creates : String → String → Value → String → String → Value → Call
  prepares : String → String → String → Call
  authorizes : String → String → String → String → Call
  requests : String → String → String → Call
  claims : String → Call
  recovers : Call
  updates : String → String → Option String → Value → Bool → Call
  finalizes : String → String → String → String → Call

-- The database that an operation leaves: a raised error rolls back.
abbrev pub kept : Database → Result Database → Database
kept db (ok db') = db'
kept db (err e) = db

abbrev pub kept_second : {A : Type 0} → Database → Result (A × Database) → Database
kept_second db (ok (a, db')) = db'
kept_second db (err e) = db

-- `digest` is the one that names the intents.
module _ (digest : String → String) where
  unfoldable pub call : Call → ℕ → Database → Database
  call (creates kind txid contract source target amount) now db =
      kept_second db (create_intent digest kind txid contract source target amount now db)
  call (prepares id actor rationale) now db = kept db (record_preparation id actor rationale now db)
  call (authorizes id actor rationale reference) now db =
      kept_second db (authorize id actor rationale reference now db)
  call (requests id actor rationale) now db =
      kept db (record_execution_request id actor rationale now db)
  call (claims id) now db = kept_second db (claim id now db)
  call recovers now db = (recover_interrupted db).1
  call (updates id status remote_txid contract resolved) now db =
      kept db (update_transfer id status remote_txid contract resolved now db)
  call (finalizes id actor rationale remote_txid) now db =
      kept_second db (finalize id actor rationale remote_txid now db)

  unfoldable pub run : List (ℕ × Call) → Database → Database
  run [] db = db
  run ((now, c) ∷ cs) db = run cs (call c now db)

kept-Progress :
    (db : Database) (r : Result Database) → Ensures (Progress db) r → Progress db (kept db r)
kept-Progress db (ok db') h = h
kept-Progress db (err e) h = Progress-same db db refl

kept_second-Progress :
    {A : Type 0} (db : Database) (r : Result (A × Database))
    → Moves db r
    → Progress db (kept_second db r)
kept_second-Progress db (ok (a, db')) h = h
kept_second-Progress db (err e) h = Progress-same db db refl

create_intent-Progress :
    (digest : String → String) (k t : String) (c : Value) (s d : String) (a : Value) (now : ℕ)
    (db : Database)
    → Moves db (create_intent digest k t c s d a now db)
unfolding create_intent
create_intent-Progress digest k t c s d a now db =
    >>=-Ensures (λ x. Progress db x.1) (require_positive a) _
      λ units _.
        >>=-Ensures (λ x. Progress db x.1) (require_nonnegative c) _
          λ n _.
            >>=-Ensures (λ x. Progress db x.1)
              (require
                (not (
                  is_empty (strip k)
                  || is_empty (strip t)
                  || is_empty (strip s)
                  || is_empty (strip d)))
                value_error)
              _ λ _ _. create_in_transaction-Progress digest _ now db

authorize-Progress :
    (id actor rationale reference : String) (now : ℕ) (db : Database)
    → Moves db (authorize id actor rationale reference now db)
unfolding authorize
authorize-Progress id actor rationale reference now db =
    >>=-Ensures (λ x. Progress db x.1) (require_operator_text actor) _
      λ who _.
        >>=-Ensures (λ x. Progress db x.1) (require_operator_text rationale) _
          λ why _.
            >>=-Ensures (λ x. Progress db x.1) (require_operator_text reference) _
              λ r _. authorize_in_transaction-Progress id who why r now db

finalize-Progress :
    (id actor rationale remote_txid : String) (now : ℕ) (db : Database)
    → Moves db (finalize id actor rationale remote_txid now db)
unfolding finalize
finalize-Progress id actor rationale remote_txid now db =
    >>=-Ensures (λ x. Progress db x.1) (require_operator_text actor) _
      λ who _.
        >>=-Ensures (λ x. Progress db x.1) (require_operator_text rationale) _
          λ why _.
            >>=-Ensures (λ x. Progress db x.1) (require_operator_text remote_txid) _
              λ r _. finalize_in_transaction-Progress id who why r now db

update_transfer-Progress :
    (id status : String) (remote_txid : Option String) (c : Value) (resolved : Bool) (now : ℕ)
    (db : Database)
    → Ensures (Progress db) (update_transfer id status remote_txid c resolved now db)
unfolding update_transfer
update_transfer-Progress id status remote_txid c resolved now db =
    elim (Option-cases (status_of_text (strip status))) [
      | inl h ↦ ground (arith, h)
      | inr (s, h) ↦ ground (
        arith,
        h,
        update_in_transaction-Progress id s (strip (text_or_empty remote_txid)) c resolved now db,
      )
    ]

recover_interrupted-Progress : (db : Database) → Progress db (recover_interrupted db).1
unfolding recover_interrupted Progress
recover_interrupted-Progress db p = recover_rows-Advances p db.transfer_intents

module _ (digest : String → String) where
  pub call-Progress : (c : Call) (now : ℕ) (db : Database) → Progress db (call digest c now db)
  unfolding call
  call-Progress (creates k t c s d a) now db =
      kept_second-Progress db _ (create_intent-Progress digest k t c s d a now db)
  call-Progress (prepares id a r) now db =
      kept-Progress db _ (record_preparation-Progress id a r now db)
  call-Progress (authorizes id a r x) now db =
      kept_second-Progress db _ (authorize-Progress id a r x now db)
  call-Progress (requests id a r) now db =
      kept-Progress db _ (record_execution_request-Progress id a r now db)
  call-Progress (claims id) now db = kept_second-Progress db _ (claim-Progress id now db)
  call-Progress recovers now db = recover_interrupted-Progress db
  call-Progress (updates id s x c r) now db =
      kept-Progress db _ (update_transfer-Progress id s x c r now db)
  call-Progress (finalizes id a r x) now db =
      kept_second-Progress db _ (finalize-Progress id a r x now db)

  history-Progress : (cs : List (ℕ × Call)) (db : Database) → Progress db (run digest cs db)
  unfolding run
  history-Progress [] db = Progress-same db db refl
  history-Progress ((now, c) ∷ cs) db =
      Progress-trans db _ _ (call-Progress c now db) (history-Progress cs _)

  -- Over any history of operations and restarts an intent is never lost. It keeps its terms and its
  -- reference, its status only moves forward, and once a remote txid or a remote contract id is
  -- stored, it stays.
  pub run-Progress :
      (cs : List (ℕ × Call)) (db : Database) (id : String)
      → Advances
          (get_intent id db.transfer_intents)
          (get_intent id (run digest cs db).transfer_intents)
  unfolding Progress
  run-Progress cs db id = history-Progress cs db id
