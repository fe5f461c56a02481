-- ===== src/Return/Evidence.antt =====
-- The frozen intent of a return against the parser of its evidence.
use swap_service.Base.{
  str_eq_refl, nat_eq_refl, and_true, pos, ◌+◌, ◌-◌, ◌≤◌, ◌<◌, ◌≡◌, refl, ◌==◌, string_eq, ℕ_eq,
  nat_eq_iff, value_eq, true, false, Value, int, ok, value_error, require, require-eq-ok,
  require_positive-int, require_nonnegative-int, is_empty, Ensures, >>=-Ensures, Ensures-ok, arith,
}
use swap_service.Database.{Json, object, Fields}
use swap_service.Deposit.{
  is_unambiguous, get_field, has_exact_keys, as_fields, as_value, positive_at,
}
use swap_service.Return.Kinds.{ReturnKind, refund, quarantine, kind_text, find_kind}
use swap_service.Return.Intent.{
  ReturnRequest, FrozenIntent, intent_fields, intent_evidence, intent_keys, text_at, required_at,
  nonnegative_at, parse_intent, read_intent, exact_terms, same_request, intent_matches,
}

-- A request whose fields the code lets pass.
abbrev pub IsRequest : ReturnRequest → Type 0
IsRequest q =
    (is_empty q.source_sig ≡ false)
    × (0 < q.timestamp)
    × (is_empty q.from_address ≡ false)
    × (is_empty q.destination_address ≡ false)
    × (is_empty q.payout_memo ≡ false)
    × (0 < q.payout_units)
    × (q.payout_units ≤ q.amount_usdc_units)

find_kind-kind_text : (k : ReturnKind) → find_kind (kind_text k) ≡ ok k
unfolding find_kind
find_kind-kind_text refund = refl
find_kind-kind_text quarantine = refl

-- The evidence of a request reads back as the request and the terms that it was made under.
pub parse-intent :
    (f : FrozenIntent)
    → IsRequest f.request
    → f.fee_units ≡ f.request.amount_usdc_units - f.request.payout_units
    → parse_intent (object (intent_fields f)) ≡ ok f
unfolding parse_intent read_intent intent_fields
parse-intent f (a, b, c, d, e, p, l) h =
    let whole : (f.request.payout_units + f.fee_units == f.request.amount_usdc_units) ≡ true =
      ground (
        arith,
        h,
        l,
        nat_eq_iff (f.request.payout_units + f.fee_units) f.request.amount_usdc_units,
      ) in
    simp (
      find_kind-kind_text f.request.kind,
      a,
      c,
      d,
      e,
      whole,
      require_positive-int f.request.timestamp b,
      require_positive-int f.request.payout_units p,
      require_positive-int f.request.amount_usdc_units (omega (arith, p, l)),
      require_nonnegative-int f.fee_units,
      require_nonnegative-int f.service_terms_version,
      require_nonnegative-int f.refund_solana_fee_units,
    )

-- What the parser's last test says.
abbrev Balanced : FrozenIntent → Type 0
Balanced f = f.request.payout_units + f.fee_units ≡ f.request.amount_usdc_units

read_fields-Balanced : (parsed : Fields) → Ensures Balanced (read_intent parsed)
unfolding read_intent
read_fields-Balanced parsed = >>=-Ensures Balanced (text_at "kind" parsed) _ λ kind_name _.
    >>=-Ensures Balanced (find_kind kind_name) _ λ _ _.
      >>=-Ensures Balanced (required_at "source_signature" parsed) _ λ _ _.
        >>=-Ensures Balanced (positive_at "source_timestamp" parsed) _ λ _ _.
          >>=-Ensures Balanced (required_at "source_token_account" parsed) _ λ _ _.
            >>=-Ensures Balanced (required_at "destination_token_account" parsed) _ λ _ _.
              >>=-Ensures Balanced (text_at "source_memo" parsed) _ λ _ _.
                >>=-Ensures Balanced (required_at "payout_memo" parsed) _ λ _ _.
                  >>=-Ensures Balanced (positive_at "source_amount_solana_units" parsed) _
                    λ amount _.
                      >>=-Ensures Balanced (positive_at "payout_amount_solana_units" parsed) _
                        λ payout _.
                          >>=-Ensures Balanced (nonnegative_at "fee_solana_units" parsed) _ λ fee _.
                            >>=-Ensures Balanced (nonnegative_at "service_terms_version" parsed) _
                              λ _ _.
                                >>=-Ensures Balanced
                                  (nonnegative_at "refund_solana_fee_units" parsed) _
                                  λ _ _.
                                    >>=-Ensures Balanced
                                      (require (payout + fee == amount) value_error) _
                                      λ _ t.
                                        (nat_eq_iff (payout + fee) amount).0
                                          (require-eq-ok _ value_error t)

parse_intent-Balanced : (e : Json) → Ensures Balanced (parse_intent e)
unfolding parse_intent
parse_intent-Balanced e = >>=-Ensures Balanced (require (is_unambiguous e) value_error) _ λ _ _.
    >>=-Ensures Balanced (as_fields e) _ λ parsed _.
      >>=-Ensures Balanced (require (has_exact_keys parsed intent_keys) value_error) _ λ _ _.
        >>=-Ensures Balanced (as_value (get_field "version" parsed)) _ λ version _.
          >>=-Ensures Balanced (require (version == int (pos 1)) value_error) _
            λ _ _. read_fields-Balanced parsed

pub same_request_refl : (q : ReturnRequest) → same_request q q ≡ true
same_request_refl q = simp (nat_eq_refl, str_eq_refl)

-- Parsed evidence of the same request matches it, fee included.
pub intent_matches-same :
    (q : ReturnRequest) (e : Json) (f : FrozenIntent)
    → parse_intent e ≡ ok f
    → same_request f.request q ≡ true
    → intent_matches q e ≡ true
intent_matches-same q e f h s =
    let b : Balanced f = Ensures-ok Balanced (parse_intent e) (parse_intent-Balanced e) h in
    let amounts : f.request.amount_usdc_units ≡ q.amount_usdc_units =
      ground (arith, s, nat_eq_iff f.request.amount_usdc_units q.amount_usdc_units) in
    let payouts : f.request.payout_units ≡ q.payout_units =
      ground (arith, s, nat_eq_iff f.request.payout_units q.payout_units) in
    let fee : (f.fee_units == q.amount_usdc_units - q.payout_units) ≡ true =
      (nat_eq_iff f.fee_units (q.amount_usdc_units - q.payout_units)).1
        (omega (arith, b, amounts, payouts)) in
    rw h (
      and_true (same_request f.request q) (f.fee_units == q.amount_usdc_units - q.payout_units) s
        fee)

pub intent_evidence-matches :
    (q : ReturnRequest) (terms_version refund_fee : Value)
    → IsRequest q
    → Ensures (λ e. intent_matches q e ≡ true) (intent_evidence q terms_version refund_fee)
unfolding intent_evidence
intent_evidence-matches q terms_version refund_fee h =
    let P : Json → Type 0 = λ e. intent_matches q e ≡ true in
    >>=-Ensures P (exact_terms terms_version) _ λ version _.
      >>=-Ensures P (exact_terms refund_fee) _ λ fee _.
        let f : FrozenIntent = record {
          request = q;
          fee_units = q.amount_usdc_units - q.payout_units;
          service_terms_version = version;
          refund_solana_fee_units = fee;
        } in
        intent_matches-same q (object (intent_fields f)) f (parse-intent f h refl)
          (same_request_refl q)
