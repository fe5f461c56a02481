-- ===== src/Debit/Calls.antt =====
-- No call that keeps the deposit's row changes the intent of its debit.
use swap_service.Base.{
  ℕ, ℤ, pos, ◌==◌, string_eq, ℕ_eq, option_eq, int_eq, not, ◌≡◌, refl, ap, subst, ◌∙◌, sym, String,
  Bool, Option-cases, inl, inr, false, Option, none, some, List, [], ◌∷◌, Result, ok, err, ◌>>=◌,
  require_int, require_positive, if-Holds, Ensures-map, require_nonnegative, Ensures, Ensures-ok,
  Ensures-intro, >>=-Ensures, arith, require, integrity_error,
}
use swap_service.Database.{Json, PendingDeposit, FeeEntry, Database}
use swap_service.Deposit.{get_deposit, add_unprocessed_sig, freeze_decision, has_processed}
use swap_service.Deposit.Freezing.{get-delete_other}
use swap_service.Deposit.Decided.{Leaves, freeze_missing, freeze-Ensures}
use swap_service.Debit.{
  set_reference, set_unprocessed_sig_reference, set_intent, set_unprocessed_sig_debit_intent,
  update_unprocessed_sig_memo, update_unprocessed_sig_status, update_unprocessed_sig_txid,
  update_unprocessed_sig, updated_row, has_columns, edit_row, remove_unprocessed_sig,
  DebitArguments, DebitEvidence, check_debit, finalize_confirmed_solana_payout, finalize_debit,
  finalize_found, archive_deposit, journal_swap_fee, write_swap_fee, is_expected_source, DebitCall,
  set_reference_call, set_intent_call, memo_call, status_call, txid_call, update_call,
  classify_call, add_call, remove_call, finalize_call, or_unchanged, call, run, KeepsRow,
  AllKeepRow, swap_fees_of,
}
use swap_service.Debit.Fixed.{
  HasRow, HasIntent, with_row-HasIntent, set_reference-HasIntent, set_intent-HasIntent,
  edit_row-HasIntent, or_unchanged-HasIntent,
}
use swap_service.Debit.Archive.{IfSome}

-- A queue that holds the same row of the deposit.
same_row :
    (s : String) (n amount : ℤ) (rs qs : List PendingDeposit)
    → get_deposit s qs ≡ get_deposit s rs
    → HasRow s n amount rs
    → HasRow s n amount qs
same_row s n amount rs qs e (r, g, b, c) = (r, e ∙ g, b, c)

journal-queue :
    (e : DebitEvidence) (now : ℕ) (db : Database)
    → IfSome (λ d. d.unprocessed_sigs ≡ db.unprocessed_sigs) (journal_swap_fee e now db)
unfolding journal_swap_fee write_swap_fee
journal-queue e now db =
    let P : Database → Type 0 = λ d. d.unprocessed_sigs ≡ db.unprocessed_sigs in
    if-Holds (IfSome P) (e.fee_solana_units == 0) _ _ (λ b. refl)
      (λ b. go (swap_fees_of e.sig db.fee_entries))
  where
    go :
        (fs : List FeeEntry)
        → IfSome (λ d. d.unprocessed_sigs ≡ db.unprocessed_sigs) (write_swap_fee e now fs db)
    go [] = refl
    go (f ∷ []) =
        if-Holds (IfSome (λ d. d.unprocessed_sigs ≡ db.unprocessed_sigs))
          (f.amount_usdc_units == some (pos e.fee_solana_units)) _ _ (λ b. refl) (λ b. tt)
    go (f ∷ g ∷ fs) = tt

check_debit-sig : (a : DebitArguments) → Ensures (λ e. e.sig ≡ a.sig) (check_debit a)
unfolding check_debit
check_debit-sig a =
    let P : DebitEvidence → Type 0 = λ e. e.sig ≡ a.sig in
    >>=-Ensures P (require_int a.timestamp) _ λ _ _.
      >>=-Ensures P (require_int a.amount_solana_units) _ λ _ _.
        >>=-Ensures P (require_positive a.output_units) _ λ _ _.
          >>=-Ensures P (require_int a.reference) _ λ _ _.
            >>=-Ensures P (require_nonnegative a.output_contract_id) _ λ _ _.
              >>=-Ensures P (require_nonnegative a.fee_solana_units) _
                λ _ _. >>=-Ensures P (require_nonnegative a.nexus_decimals) _ λ _ _. refl

module _ (s : String) (n amount : ℤ) (db : Database) (h : HasIntent s n amount db) where
  abbrev Has : Bool × Database → Type 0
  Has (done, d) = HasIntent s n amount d

  archive_deposit-Has :
      (e : DebitEvidence) (m : Option Database)
      → (e.sig == s) ≡ false
      → IfSome (λ d. d.unprocessed_sigs ≡ db.unprocessed_sigs) m
      → Ensures Has (archive_deposit e m db)
  unfolding archive_deposit
  archive_deposit-Has e none other same = h
  archive_deposit-Has e (some d) other same =
      if-Holds (Ensures Has) (has_processed e.sig d.processed_sigs) _ _ (λ b. tt)
        (λ b.
          same_row s n amount db.unprocessed_sigs _
            (get-delete_other s e.sig d.unprocessed_sigs other ∙ ap (get_deposit s) same) h)

  finalize_found-Has :
      (e : DebitEvidence) (now : ℕ) (o : Option PendingDeposit)
      → (e.sig == s) ≡ false
      → Ensures Has (finalize_found e now o db)
  unfolding finalize_found
  finalize_found-Has e now none other = h
  finalize_found-Has e now (some r) other =
      if-Holds (Ensures Has) (not (is_expected_source e r)) _ _ (λ b. h)
        (λ b. archive_deposit-Has e (journal_swap_fee e now db) other (journal-queue e now db))

  finalize-Has :
      (a : DebitArguments) (now : ℕ)
      → (a.sig == s) ≡ false
      → Ensures Has (finalize_confirmed_solana_payout a now db)
  unfolding finalize_confirmed_solana_payout finalize_debit
  finalize-Has a now other = >>=-Ensures Has (check_debit a) _ λ e k.
      let same = Ensures-ok (λ e. e.sig ≡ a.sig) _ (check_debit-sig a) k in
      finalize_found-Has e now (get_deposit e.sig db.unprocessed_sigs)
        (ap (λ x. x == s) same ∙ other)

  freeze-Has :
      (t : String) (e : Json) → Ensures (λ out. HasIntent s n amount out.1) (freeze_decision t e db)
  freeze-Has t e = elim (Option-cases (get_deposit t db.unprocessed_sigs)) [
    | inl g ↦ Ensures-intro _ (freeze_decision t e db) (λ out k. absurd (freeze_missing t e db g k))
    | inr (r, g) ↦
        Ensures-map (Leaves t db r) _ (freeze_decision t e db)
          (λ (p, d) (r', _, (a, _, _, _, _, b, c), _, same).
            subst (HasIntent s n amount) (sym same)
              (with_row-HasIntent s t n amount r r' db g a (λ k. b ∙ k) (λ k. c ∙ k) h))
          (freeze-Ensures t e db r g)
  ]

-- The database of an answer, or the one before an exception.
kept-HasIntent {ℓ} :
    {A : Type ℓ} (s : String) (n amount : ℤ) (db : Database) (m : Result (A × Database))
    → HasIntent s n amount db
    → Ensures (λ out. HasIntent s n amount out.1) m
    → HasIntent s n amount (or_unchanged db (m >>= λ (a, db'). ok db'))
kept-HasIntent s n amount db (err e) h k = h
kept-HasIntent s n amount db (ok out) h k = k

call-HasIntent :
    (s : String) (n amount : ℤ) (c : DebitCall) (db : Database)
    → KeepsRow s c
    → HasIntent s n amount db
    → HasIntent s n amount (call c db)
unfolding call set_unprocessed_sig_reference set_unprocessed_sig_debit_intent
    update_unprocessed_sig_memo update_unprocessed_sig_status update_unprocessed_sig_txid
    update_unprocessed_sig add_unprocessed_sig remove_unprocessed_sig
call-HasIntent s n amount (set_reference_call t v) db k h =
    or_unchanged-HasIntent s n amount (require_int v)
      (λ m. set_reference m (get_deposit t db.unprocessed_sigs) db) db h
      (λ m. set_reference-HasIntent s t n amount m (get_deposit t db.unprocessed_sigs) db refl h)
call-HasIntent s n amount (set_intent_call t v w) db k h =
    or_unchanged-HasIntent s n amount (require_int v)
      (λ m. require_positive w >>= λ a. set_intent m (pos a) (get_deposit t db.unprocessed_sigs) db)
      db h
      (λ m.
        or_unchanged-HasIntent s n amount (require_positive w)
          (λ a. set_intent m (pos a) (get_deposit t db.unprocessed_sigs) db) db h
          (λ a.
            set_intent-HasIntent s t n amount m (pos a) (get_deposit t db.unprocessed_sigs) db refl
              h))
call-HasIntent s n amount (memo_call t x) db k h =
    edit_row-HasIntent s t n amount (λ r. record r { memo = x }) (get_deposit t db.unprocessed_sigs)
      db refl (λ q. refl) (λ q. refl) (λ q. refl) h
call-HasIntent s n amount (status_call t x) db k h =
    edit_row-HasIntent s t n amount (λ r. record r { status = x })
      (get_deposit t db.unprocessed_sigs) db refl (λ q. refl) (λ q. refl) (λ q. refl) h
call-HasIntent s n amount (txid_call t x) db k h =
    edit_row-HasIntent s t n amount (λ r. record r { txid = x }) (get_deposit t db.unprocessed_sigs)
      db refl (λ q. refl) (λ q. refl) (λ q. refl) h
call-HasIntent s n amount (update_call t u) db k h =
    or_unchanged-HasIntent s n amount (require (has_columns u) integrity_error)
      (λ _. ok (edit_row (updated_row u) (get_deposit t db.unprocessed_sigs) db)) db h
      (λ _.
        edit_row-HasIntent s t n amount (updated_row u) (get_deposit t db.unprocessed_sigs) db refl
          (λ q. refl) (λ q. refl) (λ q. refl) h)
call-HasIntent s n amount (classify_call t e) db k h =
    kept-HasIntent s n amount db (freeze_decision t e db) h (freeze-Has s n amount db h t e)
call-HasIntent s n amount (add_call t time memo from units status txid) db k h =
    same_row s n amount db.unprocessed_sigs
      (add_unprocessed_sig t time memo from units status txid db).unprocessed_sigs
      (ground (arith, k, get-delete_other s t db.unprocessed_sigs k)) h
call-HasIntent s n amount (remove_call t) db k h =
    same_row s n amount db.unprocessed_sigs _ (get-delete_other s t db.unprocessed_sigs k) h
call-HasIntent s n amount (finalize_call a now) db k h =
    kept-HasIntent s n amount db (finalize_confirmed_solana_payout a now db) h
      (finalize-Has s n amount db h a now k)

pub run-HasIntent :
    (s : String) (n amount : ℤ) (cs : List DebitCall) (db : Database)
    → AllKeepRow s cs
    → HasIntent s n amount db
    → HasIntent s n amount (run cs db)
unfolding run
run-HasIntent s n amount [] db k h = h
run-HasIntent s n amount (c ∷ cs) db (k, ks) h =
    run-HasIntent s n amount cs (call c db) ks (call-HasIntent s n amount c db k h)
