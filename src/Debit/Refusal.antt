-- ===== src/Debit/Refusal.antt =====
-- A second intent of a debit is refused, whatever happens in between.
use swap_service.Base.{
  ℕ, ℤ, pos, ◌<◌, ◌==◌, string_eq, int_eq, int_beq_iff, ◌&&◌, ◌≡◌, refl, ap, subst, ◌∙◌, String,
  Bool-cases, inl, inr, false, Option, none, some, List, ok, err, value_error, ◌>>=◌, >>=-eq-ok,
  int, require_int, require_positive, require_positive-int, require_positive-eq-ok, sym, if-false,
  require_positive-pos, ℕ_eq, Ensures-ok, Ensures, if-Holds, arith,
}
use swap_service.Database.{PendingDeposit, Database}
use swap_service.Deposit.{get_deposit}
use swap_service.Deposit.Freezing.{get-put, get-sig}
use swap_service.Debit.Intent.{
  column_of, positive_amount, is_unset_or, is_debitable, intended_row, set_intent,
  set_unprocessed_sig_debit_intent, get_unprocessed_sig_reference, get_unprocessed_sig_nexus_amount,
}
use swap_service.Debit.History.{DebitCall, run, AllKeepRow}
use swap_service.Debit.Fixed.{HasIntent, agrees, both_right}
use swap_service.Debit.Calls.{run-HasIntent}

-- An intent that is set is in the row.
set_intent-Has :
    (s : String) (n amount : ℤ) (o : Option PendingDeposit) (db db' : Database)
    → get_deposit s db.unprocessed_sigs ≡ o
    → set_intent n amount o db ≡ ok db'
    → HasIntent s n amount db'
unfolding set_intent
set_intent-Has s n amount none db db' g h = cc
set_intent-Has s n amount (some r) db db' g h =
    Ensures-ok (λ d. HasIntent s n amount d) _
      (if-Holds (Ensures (λ d. HasIntent s n amount d))
        (is_debitable r.status
          && is_unset_or n r.reference
          && is_unset_or amount r.amount_usdd_units)
        _ _
        (λ e. (
          intended_row n amount r,
          get-put s r (intended_row n amount r) db.unprocessed_sigs
              (get-sig s r db.unprocessed_sigs g) g,
          refl,
          refl,
        ))
        (λ e. tt))
      h

refuses :
    (s : String) (n amount m other : ℤ) (o : Option PendingDeposit) (r : PendingDeposit)
    (db : Database)
    → o ≡ some r
    → r.reference ≡ some n
    → r.amount_usdd_units ≡ some amount
    → ((m == n) && (other == amount)) ≡ false
    → set_intent m other o db ≡ err value_error
unfolding set_intent
refuses s n amount m other o r db g b c h =
    let closed : (is_debitable r.status
          && is_unset_or m r.reference
          && is_unset_or other r.amount_usdd_units)
        ≡ false =
      elim (Bool-cases (
        is_debitable r.status
        && is_unset_or m r.reference
        && is_unset_or other r.amount_usdd_units)) [
          | inr e ↦ e
          | inl e ↦
              let unset =
                both_right (is_debitable r.status) (is_unset_or m r.reference)
                  (is_unset_or other r.amount_usdd_units) e in
              let same = agrees m n r.reference unset.0 b in
              let equal = agrees other amount r.amount_usdd_units unset.1 c in
              ground (arith, same, equal, h, int_beq_iff m n, int_beq_iff other amount)
        ] in
    ap (λ x. set_intent m other x db) g ∙ if-false _ _ _ closed

positive_amount-pos : (a : ℕ) → 0 < a → positive_amount (some (pos a)) ≡ ok (some (pos a))
positive_amount-pos a h = ground arith

-- Once the intent of a debit is set, its reference and its amount stay over any later history of the
-- queue's calls of `DebitCall` in which no call adds the deposit anew, removes it or finalizes it, and
-- an intent with another reference or another positive amount is refused with an error.
pub debit_intent_fixed :
    (s : String) (n m : ℤ) (amount other : ℕ) (cs : List DebitCall) (db db₁ : Database)
    → set_unprocessed_sig_debit_intent s (int n) (int (pos amount)) db ≡ ok db₁
    → AllKeepRow s cs
    → 0 < other
    → ((m == n) && (other == amount)) ≡ false
    → (get_unprocessed_sig_reference s (run cs db₁) ≡ some n)
      × (get_unprocessed_sig_nexus_amount s (run cs db₁) ≡ ok (some (pos amount)))
      × (set_unprocessed_sig_debit_intent s (int m) (int (pos other)) (run cs db₁)
          ≡ err value_error)
unfolding set_unprocessed_sig_debit_intent get_unprocessed_sig_reference
    get_unprocessed_sig_nexus_amount require_int
debit_intent_fixed s n m amount other cs db db₁ h keeps positive differs =
    let (a, e, k) = >>=-eq-ok (require_positive (int (pos amount))) _ h in
    let above : 0 < amount =
      require_positive-pos (int (pos amount)) (e ∙ ap ok (sym (require_positive-eq-ok amount e))) in
    let same : amount ≡ a = require_positive-eq-ok amount e in
    let has : HasIntent s n (pos amount) db₁ =
      subst (λ x. HasIntent s n (pos x) db₁) (sym same)
        (set_intent-Has s n (pos a) (get_deposit s db.unprocessed_sigs) db db₁ refl k) in
    let (r, g, b, c) = run-HasIntent s n (pos amount) cs db₁ keeps has in
    (
      ap (column_of (λ x. x.reference)) g ∙ b,
      ap positive_amount (ap (column_of (λ x. x.amount_usdd_units)) g ∙ c)
          ∙ positive_amount-pos amount above,
      ap
            (λ x. x >>= λ v.
              set_intent m (pos v) (get_deposit s (run cs db₁).unprocessed_sigs) (run cs db₁))
            (require_positive-int other positive)
          ∙ refuses s n (pos amount) m (pos other) (get_deposit s (run cs db₁).unprocessed_sigs) r
              (run cs db₁) g b c differs,
    )
