-- ===== src/Deposit/Policy.antt =====
-- src/solana_deposit_policy.py: the terms of a Solana deposit and what they decide of it. The
-- numbers of accepted terms are those that `_exact_int` lets pass.
use swap_service.Base.{
  ℕ, ◌-◌, ◌*◌, ◌/◌, ◌^◌, ◌==◌, ℕ_eq, ltb, if◌then◌else◌, not, ◌&&◌, String, Bool, true, false,
  Value, Result, ok, ◌>>=◌, require_positive, require_nonnegative, int, pos,
}

pub record SolanaDepositTerms : Type 0 where
  pub minimum_input_units : ℕ
  pub maximum_input_units : ℕ
  pub input_decimals : ℕ
  pub output_decimals : ℕ
  pub flat_output_fee_units : ℕ
  pub fee_basis_points : ℕ

pub data DecisionKind : Type 0 where
  payable hold_below_minimum hold_nonpositive_output refund_oversized : DecisionKind

-- The texts of `_DECISIONS`.
abbrev pub decision_text : DecisionKind → String
decision_text payable = "payable"
decision_text hold_below_minimum = "hold_below_minimum"
decision_text hold_nonpositive_output = "hold_nonpositive_output"
decision_text refund_oversized = "refund_oversized"

pub record SolanaDepositDecision : Type 0 where
  pub decision : DecisionKind
  pub output_units : ℕ
  pub terms : SolanaDepositTerms

abbrev pub is_policy_hold : SolanaDepositDecision → Bool
is_policy_hold d = elim d.decision [
  | payable ↦ false
  | hold_below_minimum ↦ true
  | hold_nonpositive_output ↦ true
  | refund_oversized ↦ false
]

-- `SolanaDepositTerms(...)` with the checks of `__post_init__`.
unfoldable pub make_terms :
    Value → Value → Value → Value → Value → Value → Result SolanaDepositTerms
make_terms minimum maximum from_decimals to_decimals flat bps = do
  minimum_units ← require_positive minimum
  maximum_units ← require_nonnegative maximum
  in_decimals ← require_nonnegative from_decimals
  out_decimals ← require_nonnegative to_decimals
  flat_units ← require_nonnegative flat
  points ← require_nonnegative bps
  ok (record {
    minimum_input_units = minimum_units;
    maximum_input_units = maximum_units;
    input_decimals = in_decimals;
    output_decimals = out_decimals;
    flat_output_fee_units = flat_units;
    fee_basis_points = points;
  })

-- `_gross_output_units`.
unfoldable pub gross_output_units : ℕ → SolanaDepositTerms → ℕ
gross_output_units input_units t =
    if t.input_decimals == t.output_decimals
    then input_units
    else if ltb t.input_decimals t.output_decimals
    then input_units * 10 ^ (t.output_decimals - t.input_decimals)
    else input_units / 10 ^ (t.input_decimals - t.output_decimals)

-- `output_units` after its check of the input; both subtractions stop at 0, where `max` does.
unfoldable pub net_output_units : ℕ → SolanaDepositTerms → ℕ
net_output_units amount t =
    let gross = gross_output_units amount t in
    let dynamic_fee = gross * t.fee_basis_points / 10_000 in
    gross - t.flat_output_fee_units - dynamic_fee

-- `output_units`.
unfoldable pub output_units : Value → SolanaDepositTerms → Result ℕ
output_units input_units t = do
  amount ← require_positive input_units
  ok (net_output_units amount t)

-- The branches of `classify`.
unfoldable pub decide : ℕ → ℕ → SolanaDepositTerms → DecisionKind
decide amount calculated_output t =
    if ltb amount t.minimum_input_units
    then hold_below_minimum
    else if not (t.maximum_input_units == 0) && ltb t.maximum_input_units amount
    then refund_oversized
    else if not (ltb 0 calculated_output)
    then hold_nonpositive_output
    else payable

-- `classify`.
unfoldable pub classify : Value → SolanaDepositTerms → Result SolanaDepositDecision
classify input_units t = do
  amount ← require_positive input_units
  calculated_output ← output_units (int (pos amount)) t
  ok (record {
    decision = decide amount calculated_output t;
    output_units = calculated_output;
    terms = t;
  })
