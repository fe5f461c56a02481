-- ===== src/Return/Prepared.antt =====
-- What `prepare_solana_sig_disposition` promises of its arguments and of the database.
use swap_service.Base.{
  pos, int, str_eq_iff, require_positive-eq-int, require_nonnegative-eq-int, ℕ, ◌≡◌, ◌≢◌, ◌⊎◌, refl,
  inl, inr, string_eq, ◌||◌, ltb, leb, String, true, false, Option, none, some, is_some, Value,
  Result, ok, err, value_error, runtime_error, integrity_error, witness_error, require,
  require-eq-ok, require_positive, require_positive-pos, require_nonnegative, Ensures, >>=-Ensures,
  Ensures-ok, Ensures-map, Result-Holds, Bool-cases, arith, is_empty, strip, text_length,
}
use swap_service.Database.{Json, PendingDeposit, Database}
use swap_service.Payout.{require_text}
use swap_service.Deposit.{get_deposit, coalesce}
use swap_service.Return.Kinds.{ReturnKind, kind_text, find_kind}
use swap_service.Return.Intent.{ReturnRequest, intent_matches, parse_intent, same_request}
use swap_service.Return.Evidence.{IsRequest, intent_matches-same, intent_evidence-matches}
use swap_service.Return.Holds.{
  PrepareStatus, prepared, malformed_evidence, db_failure, PrepareResult,
}
use swap_service.Return.Claim.{refused, prepare_in_transaction}
use swap_service.Return.Prepare.{
  ReturnArguments, make_request, choose_evidence, check_arguments, settle_errors, prepare,
}
use swap_service.Return.Outcome.{Prepared, Unchanged, prepare_in_transaction-Ends}

require_text-eq-ok :
    (s : String) (n : ℕ) {t : String}
    → require_text s n ≡ ok t
    → (is_empty t ≡ false) × (t ≡ strip s)
unfolding require_text
require_text-eq-ok s n h = elim (Bool-cases (is_empty (strip s) || ltb n (text_length (strip s)))) [
  | inl b ↦ absurd (bad (rw b at h))
  | inr b ↦ ground (arith, b, h)
]
  where
    bad : {t : String} → err value_error ≢ ok t
    bad h = cc

find_kind-text : (s : String) {k : ReturnKind} → find_kind s ≡ ok k → kind_text k ≡ s
unfolding find_kind
find_kind-text s h = ground (arith, h, str_eq_iff s "refund", str_eq_iff s "quarantine")

-- The request that the arguments state, their texts without the spaces around them.
abbrev pub IsStated : ReturnArguments → ReturnRequest → Type 0
IsStated a q =
    (q.source_sig ≡ strip a.source_sig)
    × (kind_text q.kind ≡ a.kind)
    × (a.timestamp ≡ int (pos q.timestamp))
    × (q.from_address ≡ strip a.from_address)
    × (q.destination_address ≡ strip a.destination_address)
    × (a.amount_usdc_units ≡ int (pos q.amount_usdc_units))
    × (q.memo ≡ coalesce a.memo)
    × (q.payout_memo ≡ strip a.payout_memo)
    × (a.payout_units ≡ int (pos q.payout_units))

make_request-IsRequest :
    (a : ReturnArguments) → Ensures (λ q. IsRequest q × IsStated a q) (make_request a)
unfolding make_request
make_request-IsRequest a =
    let P : ReturnRequest → Type 0 = λ q. IsRequest q × IsStated a q in
    >>=-Ensures P (require_text a.source_sig 500) _ λ s hs.
      >>=-Ensures P (find_kind a.kind) _ λ kind hk.
        >>=-Ensures P (require_positive a.timestamp) _ λ seconds ht.
          >>=-Ensures P (require_text a.from_address 500) _ λ source hf.
            >>=-Ensures P (require_text a.destination_address 500) _ λ destination hd.
              >>=-Ensures P (require_text a.payout_memo 1024) _ λ memo hm.
                >>=-Ensures P (require_positive a.amount_usdc_units) _ λ amount ha.
                  >>=-Ensures P (require_positive a.payout_units) _ λ payout hp.
                    >>=-Ensures P (require (leb payout amount) value_error) _ λ _ hl. (
                      (
                        (require_text-eq-ok a.source_sig 500 hs).0,
                        require_positive-pos a.timestamp ht,
                        (require_text-eq-ok a.from_address 500 hf).0,
                        (require_text-eq-ok a.destination_address 500 hd).0,
                        (require_text-eq-ok a.payout_memo 1024 hm).0,
                        require_positive-pos a.payout_units hp,
                        ground (arith, require-eq-ok (leb payout amount) value_error hl),
                      ),
                      (
                        (require_text-eq-ok a.source_sig 500 hs).1,
                        find_kind-text a.kind hk,
                        require_positive-eq-int a.timestamp ht,
                        (require_text-eq-ok a.from_address 500 hf).1,
                        (require_text-eq-ok a.destination_address 500 hd).1,
                        require_positive-eq-int a.amount_usdc_units ha,
                        refl,
                        (require_text-eq-ok a.payout_memo 1024 hm).1,
                        require_positive-eq-int a.payout_units hp,
                      ),
                    )

choose_evidence-matches :
    (q : ReturnRequest) (frozen : Option Json) (terms_version refund_fee : Value)
    → IsRequest q
    → Ensures (λ e. intent_matches q e ≡ true) (choose_evidence q frozen terms_version refund_fee)
unfolding choose_evidence
choose_evidence-matches q none terms_version refund_fee h =
    intent_evidence-matches q terms_version refund_fee h
choose_evidence-matches q (some frozen) terms_version refund_fee h =
    let P : Json → Type 0 = λ e. intent_matches q e ≡ true in
    >>=-Ensures P (parse_intent frozen) _ λ f parsed.
      >>=-Ensures P (require (same_request f.request q) value_error) _ λ _ same.
        intent_matches-same q frozen f parsed
          (require-eq-ok (same_request f.request q) value_error same)

-- Arguments that are let pass: the request that they state, the cap that they give, and evidence of
-- the request.
abbrev pub IsChecked : ReturnArguments → Value → ReturnRequest × ℕ × Json → Type 0
IsChecked a cap (q, units, e) =
    IsRequest q × IsStated a q × (cap ≡ int (pos units)) × (intent_matches q e ≡ true)

pub check_arguments-IsChecked :
    (a : ReturnArguments) (cap : Value) (frozen : Option Json) (terms_version refund_fee : Value)
    → Ensures (IsChecked a cap) (check_arguments a cap frozen terms_version refund_fee)
unfolding check_arguments
check_arguments-IsChecked a cap frozen terms_version refund_fee =
    let P : ReturnRequest × ℕ × Json → Type 0 = IsChecked a cap in
    >>=-Ensures P (make_request a) _ λ q hq. >>=-Ensures P (require_nonnegative cap) _ λ units hc.
      >>=-Ensures P (choose_evidence q frozen terms_version refund_fee) _ λ e he.
        let (valid, stated) =
          Ensures-ok (λ q. IsRequest q × IsStated a q) (make_request a) (make_request-IsRequest a)
            hq in
        (
          valid,
          stated,
          require_nonnegative-eq-int cap hc,
          Ensures-ok (λ e. intent_matches q e ≡ true) _
              (choose_evidence-matches q frozen terms_version refund_fee valid) he,
        )

-- The return that a preparation made: of the very request that the arguments state, under the very
-- cap that they give.
abbrev pub WasPrepared : ReturnArguments → Value → ℕ → Database → PrepareResult × Database → Type 0
WasPrepared a cap now db out =
    (q : ReturnRequest) × (cap_units : ℕ) × (r : PendingDeposit) × IsRequest q
    × IsStated a q
    × (cap ≡ int (pos cap_units))
    × (get_deposit q.source_sig db.unprocessed_sigs ≡ some r)
    × Prepared q cap_units now r db out

settle_errors-Ends :
    (q : ReturnRequest) (cap_units now : ℕ) (db : Database) (m : Result (PrepareResult × Database))
    (P : PrepareResult × Database → Type 0)
    → ((s : PrepareStatus) → s ≢ prepared → P (refused s q 0 cap_units db))
    → Ensures P m
    → Ensures P (settle_errors q cap_units db m)
unfolding settle_errors
settle_errors-Ends q cap_units now db (ok out) P f h = h
settle_errors-Ends q cap_units now db (err value_error) P f h = f malformed_evidence (λ h. cc)
settle_errors-Ends q cap_units now db (err integrity_error) P f h = f db_failure (λ h. cc)
settle_errors-Ends q cap_units now db (err runtime_error) P f h = tt
settle_errors-Ends q cap_units now db (err witness_error) P f h = tt

-- Preparing a return changes the budget, the refunds, the quarantines and the fees only where it
-- answers that the return is prepared. It then found the source deposit unchanged, free of any
-- other disposition and first among the holds, reserved the payout that the arguments state within
-- the cap that they give, and froze evidence of the very terms.
pub prepare_cases :
    (a : ReturnArguments) (cap : Value) (frozen : Option Json) (terms_version refund_fee : Value)
    (now : ℕ) (db : Database)
    → Ensures
        (λ out. Unchanged out db ⊎ WasPrepared a cap now db out)
        (prepare a cap frozen terms_version refund_fee now db)
unfolding prepare
prepare_cases a cap frozen terms_version refund_fee now db =
    let P : PrepareResult × Database → Type 0 =
      λ out. Unchanged out db ⊎ WasPrepared a cap now db out in
    Result-Holds (Ensures P) (check_arguments a cap frozen terms_version refund_fee) _ _
      (λ e _. inl ((λ h. cc), refl, refl, refl, refl))
      λ (q, units, e) h.
        let (r, stated, c, m) =
          Ensures-ok (IsChecked a cap) _
            (check_arguments-IsChecked a cap frozen terms_version refund_fee) h in
        settle_errors-Ends q units now db (prepare_in_transaction q (is_some frozen) e units now db)
          P (λ s ne. inl (ne, refl, refl, refl, refl))
          (Ensures-map _ P (prepare_in_transaction q (is_some frozen) e units now db)
            (λ out o. elim o [
              | inl u ↦ inl u
              | inr (d, g, p) ↦ inr (q, units, d, r, stated, c, g, p)
            ])
            (prepare_in_transaction-Ends q (is_some frozen) e units now db m))
