-- ===== src/Debit/Archive.antt =====
-- What finalize_confirmed_solana_payout leaves behind.
use swap_service.Base.{
  ℕ, pos, ◌==◌, string_eq, str_eq_refl, ℕ_eq, nat_eq_iff, int_eq, option_eq, option_beq_iff, ◌≡◌,
  ◌⊎◌, refl, ap, ◌∙◌, Bool, Bool-cases, inl, inr, true, false, Option, none, some, List, [], ◌∷◌,
  not, ok, Ensures, Ensures-ok, if-Holds, arith, int_beq_refl, text_beq_refl, nat_eq_refl,
}
use swap_service.Database.{PendingDeposit, ProcessedDeposit, FeeEntry, Database}
use swap_service.Deposit.{get_deposit, has_processed}
use swap_service.Deposit.Freezing.{get-delete}
use swap_service.Debit.Finalize.{
  DebitEvidence, get_processed_deposit, is_expected_source, is_expected_terminal, is_archived_as,
  swap_fees_of, swap_fee, write_swap_fee, journal_swap_fee, confirmed_row, archive_deposit,
  finalize_found, finalize_debit,
}

-- The fee of the evidence, where it has one, is the only one recorded for the deposit.
abbrev pub FeeOnce : DebitEvidence → Database → Type 0
FeeOnce e db =
    (e.fee_solana_units ≡ 0)
    ⊎ ((f : FeeEntry) × (swap_fees_of e.sig db.fee_entries ≡ f ∷ [])
        × (f.amount_usdc_units ≡ some (pos e.fee_solana_units)))

abbrev pub IfSome : (Database → Type 0) → Option Database → Type 0
IfSome P none = Unit
IfSome P (some db) = P db

write-FeeOnce :
    (e : DebitEvidence) (now : ℕ) (fs : List FeeEntry) (db : Database)
    → swap_fees_of e.sig db.fee_entries ≡ fs
    → IfSome (FeeOnce e) (write_swap_fee e now fs db)
unfolding write_swap_fee
write-FeeOnce e now [] db h =
    inr (swap_fee e now, rw (str_eq_refl e.sig) (ap (λ fs. swap_fee e now ∷ fs) h), refl)
write-FeeOnce e now (f ∷ []) db h =
    if-Holds (IfSome (FeeOnce e)) (f.amount_usdc_units == some (pos e.fee_solana_units)) _ _
      (λ b. inr (f, h, (option_beq_iff f.amount_usdc_units (some (pos e.fee_solana_units))).0 b))
      (λ b. tt)
write-FeeOnce e now (f ∷ g ∷ fs) db h = tt

journal-FeeOnce :
    (e : DebitEvidence) (now : ℕ) (db : Database) → IfSome (FeeOnce e) (journal_swap_fee e now db)
unfolding journal_swap_fee
journal-FeeOnce e now db =
    if-Holds (IfSome (FeeOnce e)) (e.fee_solana_units == 0) _ _
      (λ b. inl ((nat_eq_iff e.fee_solana_units 0).0 b))
      (λ b. write-FeeOnce e now (swap_fees_of e.sig db.fee_entries) db refl)

first_processed :
    (r : ProcessedDeposit) (rs : List ProcessedDeposit)
    → get_processed_deposit r.sig (r ∷ rs) ≡ some r
first_processed r rs = rw (str_eq_refl r.sig) refl

confirmed_row-expected : (e : DebitEvidence) → is_expected_terminal e (confirmed_row e) ≡ true
confirmed_row-expected e = simp (
  int_beq_refl e.timestamp,
  int_beq_refl e.amount_solana_units,
  text_beq_refl e.output_txid,
  nat_eq_refl e.output_units,
  text_beq_refl e.nexus_destination,
  text_beq_refl e.memo,
  int_beq_refl e.reference,
  nat_eq_refl e.output_contract_id,
)

-- The archive of a deposit: its terminal row has exactly the evidence and it has left the queue. When
-- it was archived just now, its source was the expected one and its fee is recorded once.
abbrev pub IsArchived : DebitEvidence → Database → Database → Type 0
IsArchived e db db' =
    (is_archived_as e (get_processed_deposit e.sig db'.processed_sigs) ≡ true)
    × (get_deposit e.sig db'.unprocessed_sigs ≡ none)
    × ((db' ≡ db)
        ⊎ ((r : PendingDeposit) × (get_deposit e.sig db.unprocessed_sigs ≡ some r)
            × (is_expected_source e r ≡ true)
            × FeeOnce e db'))

abbrev Ends : DebitEvidence → Database → Bool × Database → Type 0
Ends e db res = ((res.0 ≡ false) × (res.1 ≡ db)) ⊎ ((res.0 ≡ true) × IsArchived e db res.1)

archive-Ends :
    (e : DebitEvidence) (r : PendingDeposit) (m : Option Database) (db : Database)
    → get_deposit e.sig db.unprocessed_sigs ≡ some r
    → is_expected_source e r ≡ true
    → IfSome (FeeOnce e) m
    → Ensures (Ends e db) (archive_deposit e m db)
unfolding archive_deposit
archive-Ends e r none db g x f = inl (refl, refl)
archive-Ends e r (some db₁) db g x f =
    if-Holds (Ensures (Ends e db)) (has_processed e.sig db₁.processed_sigs) _ _ (λ b. tt)
      (λ b. inr (
        refl,
        (
          ap (is_archived_as e) (first_processed (confirmed_row e) db₁.processed_sigs)
              ∙ confirmed_row-expected e,
          get-delete e.sig db₁.unprocessed_sigs,
          inr (r, g, x, f),
        ),
      ))

found-Ends :
    (e : DebitEvidence) (now : ℕ) (o : Option PendingDeposit) (db : Database)
    → get_deposit e.sig db.unprocessed_sigs ≡ o
    → Ensures (Ends e db) (finalize_found e now o db)
unfolding finalize_found
found-Ends e now none db g =
    elim (Bool-cases (is_archived_as e (get_processed_deposit e.sig db.processed_sigs))) [
      | inl b ↦ inr (b, (b, g, inl refl))
      | inr b ↦ inl (b, refl)
    ]
found-Ends e now (some r) db g =
    if-Holds (Ensures (Ends e db)) (not (is_expected_source e r)) _ _ (λ b. inl (refl, refl))
      (λ b.
        archive-Ends e r (journal_swap_fee e now db) db g (ground (arith, b))
          (journal-FeeOnce e now db))

again :
    (e : DebitEvidence) (later : ℕ) (o : Option PendingDeposit) (db : Database)
    → o ≡ none
    → is_archived_as e (get_processed_deposit e.sig db.processed_sigs) ≡ true
    → finalize_found e later o db ≡ ok (true, db)
unfolding finalize_found
again e later none db g h = ap (λ b. ok (b, db)) h
again e later (some r) db g h = cc

-- A finalization that returns True leaves the deposit archived with exactly its evidence and out of
-- the queue, after either no change or the expected source with its fee recorded once; and
-- finalizing again at any time returns True and changes nothing.
pub finalize_debit_archives :
    (e : DebitEvidence) (now later : ℕ) (db db' : Database)
    → finalize_debit e now db ≡ ok (true, db')
    → IsArchived e db db' × (finalize_debit e later db' ≡ ok (true, db'))
unfolding finalize_debit
finalize_debit_archives e now later db db' h =
    elim (Ensures-ok (Ends e db) _
      (found-Ends e now (get_deposit e.sig db.unprocessed_sigs) db refl) h) [
        | inl (b, _) ↦ cc
        | inr (_, (there, gone, how)) ↦ (
          (there, gone, how),
          again e later (get_deposit e.sig db'.unprocessed_sigs) db' gone there,
        )
      ]
