-- ===== src/Deposit/Evidence.antt =====
-- The frozen evidence of a deposit decision in src/solana_deposit_policy.py. A JSON text is what
-- it decodes to, so `json.dumps` and `json.loads` are the identity here.
use swap_service.Base.{
  ℕ, pos, ◌==◌, string_eq, ℕ_eq, value_eq, not, ◌&&◌, ◌||◌, String, Bool, true, false, Option, none,
  some, List, [], ◌∷◌, Value, null, int, text, Result, ok, err, value_error, ◌>>=◌, ◌>>◌, require,
  require_positive, require_nonnegative, is_empty, if◌then◌else◌,
}
use swap_service.Database.{
  Json, scalar, array, object, Items, no_items, item, Fields, no_fields, field,
}
use swap_service.Deposit.Policy.{
  SolanaDepositTerms, decision_text, SolanaDepositDecision, make_terms, classify,
}

abbrev pub has_key : String → Fields → Bool
has_key k no_fields = false
has_key k (field name v rest) = (name == k) || has_key k rest

-- `parsed[key]`, with null where there is none.
abbrev pub get_field : String → Fields → Json
get_field k no_fields = scalar null
get_field k (field name v rest) = if name == k then v else get_field k rest

-- `reject_duplicates` on every object of the text.
unfoldable mutual
  pub is_unambiguous : Json → Bool
  is_unambiguous (scalar v) = true
  is_unambiguous (array items) = are_unambiguous items
  is_unambiguous (object entries) = has_distinct_keys entries

  pub are_unambiguous : Items → Bool
  are_unambiguous no_items = true
  are_unambiguous (item v rest) = is_unambiguous v && are_unambiguous rest

  pub has_distinct_keys : Fields → Bool
  has_distinct_keys no_fields = true
  has_distinct_keys (field name v rest) =
      not (has_key name rest) && is_unambiguous v && has_distinct_keys rest

abbrev is_one_of : String → List String → Bool
is_one_of k [] = false
is_one_of k (name ∷ names) = (name == k) || is_one_of k names

abbrev all_among : Fields → List String → Bool
all_among no_fields names = true
all_among (field name v rest) names = is_one_of name names && all_among rest names

abbrev all_present : List String → Fields → Bool
all_present [] entries = true
all_present (name ∷ names) entries = has_key name entries && all_present names entries

-- `set(parsed) == required`.
abbrev pub has_exact_keys : Fields → List String → Bool
has_exact_keys entries names = all_among entries names && all_present names entries

abbrev pub evidence_keys : List String
evidence_keys =
    "policy_version" ∷ "signature" ∷ "timestamp" ∷ "memo" ∷ "from_address" ∷ "input_units"
    ∷ "decision" ∷ "output_units" ∷ "terms" ∷ []

abbrev pub terms_keys : List String
terms_keys =
    "minimum_input_units" ∷ "maximum_input_units" ∷ "input_decimals" ∷ "output_decimals"
    ∷ "flat_output_fee_units" ∷ "fee_basis_points" ∷ []

abbrev pub nat_field : ℕ → Json
nat_field n = scalar (int (pos n))

abbrev pub optional_field : Option String → Json
optional_field none = scalar null
optional_field (some s) = scalar (text s)

-- `as_dict`, its keys sorted as `json.dumps` writes them.
unfoldable pub as_dict : SolanaDepositTerms → Fields
as_dict t = field "fee_basis_points" (nat_field t.fee_basis_points) (
    field "flat_output_fee_units" (nat_field t.flat_output_fee_units) (
      field "input_decimals" (nat_field t.input_decimals) (
        field "maximum_input_units" (nat_field t.maximum_input_units) (
          field "minimum_input_units" (nat_field t.minimum_input_units)
            (field "output_decimals" (nat_field t.output_decimals) no_fields)))))

-- The `evidence` of `freeze_evidence`, its keys sorted.
unfoldable pub evidence_fields :
    String → ℕ → String → Option String → Value → SolanaDepositDecision → Fields
evidence_fields signature timestamp memo from_address input_units d =
    field "decision" (scalar (text (decision_text d.decision))) (
      field "from_address" (optional_field from_address) (
        field "input_units" (scalar input_units) (
          field "memo" (scalar (text memo)) (
            field "output_units" (nat_field d.output_units) (
              field "policy_version" (nat_field 1) (
                field "signature" (scalar (text signature)) (
                  field "terms" (object (as_dict d.terms))
                    (field "timestamp" (nat_field timestamp) no_fields))))))))

-- `freeze_evidence`; the decision is one of the four by its type.
unfoldable pub freeze_evidence :
    String → Value → String → Option String → Value → SolanaDepositDecision → Result Json
freeze_evidence signature timestamp memo from_address input_units d = do
  require (not (is_empty signature)) value_error
  seconds ← require_positive timestamp
  ok (object (evidence_fields signature seconds memo from_address input_units d))

-- What `parse_frozen_evidence` returns.
pub record FrozenDecision : Type 0 where
  pub signature : String
  pub timestamp : ℕ
  pub memo : String
  pub from_address : Option String
  pub input_units : ℕ
  pub decision : String
  pub output_units : ℕ
  pub terms_object : SolanaDepositTerms

abbrev pub as_fields : Json → Result Fields
as_fields (object entries) = ok entries
as_fields _ = err value_error

abbrev pub as_value : Json → Result Value
as_value (scalar v) = ok v
as_value _ = err value_error

abbrev pub as_text : Json → Result String
as_text (scalar (text s)) = ok s
as_text _ = err value_error

abbrev pub as_optional_text : Json → Result (Option String)
as_optional_text (scalar null) = ok none
as_optional_text (scalar (text s)) = ok (some s)
as_optional_text _ = err value_error

abbrev pub positive_at : String → Fields → Result ℕ
positive_at k entries = as_value (get_field k entries) >>= require_positive

unfoldable pub parse_terms : Fields → Result SolanaDepositTerms
parse_terms entries = do
  require (has_exact_keys entries terms_keys) value_error
  minimum ← as_value (get_field "minimum_input_units" entries)
  maximum ← as_value (get_field "maximum_input_units" entries)
  from_decimals ← as_value (get_field "input_decimals" entries)
  to_decimals ← as_value (get_field "output_decimals" entries)
  flat ← as_value (get_field "flat_output_fee_units" entries)
  bps ← as_value (get_field "fee_basis_points" entries)
  make_terms minimum maximum from_decimals to_decimals flat bps

-- The source of the deposit and its decision, against the exact calculation.
unfoldable pub read_decision : Fields → SolanaDepositTerms → Result FrozenDecision
read_decision parsed terms = do
  signature ← as_text (get_field "signature" parsed)
  require (not (is_empty signature)) value_error
  timestamp ← positive_at "timestamp" parsed
  memo ← as_text (get_field "memo" parsed)
  from_address ← as_optional_text (get_field "from_address" parsed)
  input_units ← positive_at "input_units" parsed
  output ← as_value (get_field "output_units" parsed)
  output_units ← require_nonnegative output
  decision ← as_text (get_field "decision" parsed)
  expected ← classify (int (pos input_units)) terms
  require ((decision == decision_text expected.decision) && (output_units == expected.output_units))
      value_error
  ok (record {
    signature = signature;
    timestamp = timestamp;
    memo = memo;
    from_address = from_address;
    input_units = input_units;
    decision = decision;
    output_units = output_units;
    terms_object = terms;
  })

-- `parse_frozen_evidence`.
unfoldable pub parse_frozen_evidence : Json → Result FrozenDecision
unfolding is_unambiguous are_unambiguous has_distinct_keys parse_terms read_decision
parse_frozen_evidence evidence = do
  require (is_unambiguous evidence) value_error
  parsed ← as_fields evidence
  require (has_exact_keys parsed evidence_keys) value_error
  version ← as_value (get_field "policy_version" parsed)
  require (version == int (pos 1)) value_error
  terms_data ← as_fields (get_field "terms" parsed)
  terms ← parse_terms terms_data
  read_decision parsed terms
