-- ===== src/Deposit/Frozen.antt =====
-- What freezing and parsing the evidence of a deposit decision give each other.
use swap_service.Base.{
  str_eq_refl, nat_eq_refl, ℕ, pos, value_eq, ◌<◌, ◌≡◌, refl, string_eq, ℕ_eq, String, true, false,
  Option, none, some, int, ok, ◌>>=◌, require_positive-int, require_nonnegative-int, is_empty,
}
use swap_service.Database.{object}
use swap_service.Deposit.Policy.{
  SolanaDepositTerms, decision_text, SolanaDepositDecision, make_terms, classify, decide,
  net_output_units, output_units,
}
use swap_service.Deposit.Evidence.{
  freeze_evidence, parse_frozen_evidence, parse_terms, as_dict, read_decision, evidence_fields,
  is_unambiguous, FrozenDecision,
}

-- The decision that the frozen evidence of a deposit records.
abbrev pub frozen : String → ℕ → String → Option String → ℕ → SolanaDepositTerms → FrozenDecision
frozen signature timestamp memo from_address amount t = record {
  signature = signature;
  timestamp = timestamp;
  memo = memo;
  from_address = from_address;
  input_units = amount;
  decision = decision_text (decide amount (net_output_units amount t) t);
  output_units = net_output_units amount t;
  terms_object = t;
}

parse_terms-as_dict :
    (t : SolanaDepositTerms) → 0 < t.minimum_input_units → parse_terms (as_dict t) ≡ ok t
unfolding parse_terms as_dict make_terms
parse_terms-as_dict t h = simp (
  require_positive-int t.minimum_input_units h,
  require_nonnegative-int t.maximum_input_units,
  require_nonnegative-int t.input_decimals,
  require_nonnegative-int t.output_decimals,
  require_nonnegative-int t.flat_output_fee_units,
  require_nonnegative-int t.fee_basis_points,
)

module _ (signature memo : String) (timestamp amount : ℕ) (d : SolanaDepositDecision) where
  is_unambiguous-evidence :
      (from_address : Option String)
      → is_unambiguous
          (object (evidence_fields signature timestamp memo from_address (int (pos amount)) d))
        ≡ true
  unfolding evidence_fields is_unambiguous as_dict
  is_unambiguous-evidence none = refl
  is_unambiguous-evidence (some a) = refl

-- Evidence that was frozen for a positive deposit reads back as the decision that its terms give.
pub parse-freeze :
    (signature : String) (timestamp : ℕ) (memo : String) (from_address : Option String) (amount : ℕ)
    (t : SolanaDepositTerms)
    → is_empty signature ≡ false
    → 0 < timestamp
    → 0 < amount
    → 0 < t.minimum_input_units
    → (classify (int (pos amount)) t >>= λ d.
        freeze_evidence signature (int (pos timestamp)) memo from_address (int (pos amount)) d
        >>= parse_frozen_evidence)
      ≡ ok (frozen signature timestamp memo from_address amount t)
unfolding classify freeze_evidence parse_frozen_evidence output_units evidence_fields read_decision
parse-freeze signature timestamp memo none amount t h ht ha hm = simp (
  h,
  require_positive-int timestamp ht,
  require_positive-int amount ha,
  is_unambiguous-evidence,
  parse_terms-as_dict t hm,
  str_eq_refl,
  nat_eq_refl,
  require_nonnegative-int,
)
parse-freeze signature timestamp memo (some a) amount t h ht ha hm = simp (
  h,
  require_positive-int timestamp ht,
  require_positive-int amount ha,
  is_unambiguous-evidence,
  parse_terms-as_dict t hm,
  str_eq_refl,
  nat_eq_refl,
  require_nonnegative-int,
)
