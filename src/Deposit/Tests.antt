-- ===== src/Deposit/Tests.antt =====
-- Runs of the deposit policy, and its theorems at concrete deposits.
use swap_service.Base.{
  pos, ◌≡◌, refl, none, some, [], ◌∷◌, arith, int, ok, err, value_error, ◌>>=◌, require_positive,
  require_nonnegative,
}
use swap_service.Database.{empty_database, Database, PendingDeposit, Json, object}
use swap_service.Deposit.Policy.{
  SolanaDepositTerms, payable, refund_oversized, classify, output_units, net_output_units,
  gross_output_units, decide, make_terms,
}
use swap_service.Deposit.Evidence.{
  FrozenDecision, freeze_evidence, evidence_fields, as_dict, parse_frozen_evidence, parse_terms,
  read_decision, is_unambiguous,
}
use swap_service.Deposit.Pending.{
  freeze_decision, freeze_row, read_frozen, frozen_row, target_status,
  get_unresolved_solana_liability_units,
}
use swap_service.Deposit.Frozen.{parse-freeze, frozen}
use swap_service.Deposit.Decided.{freeze_again, liability-freeze}

-- Six decimals to eight, a flat fee of one token and one percent.
abbrev terms : SolanaDepositTerms
terms = record {
  minimum_input_units = 1_000_000;
  maximum_input_units = 500_000_000;
  input_decimals = 6;
  output_decimals = 8;
  flat_output_fee_units = 100_000_000;
  fee_basis_points = 100;
}

-- The same with no fee and no maximum.
abbrev free_terms : SolanaDepositTerms
free_terms = record terms {
  maximum_input_units = 0;
  flat_output_fee_units = 0;
  fee_basis_points = 0;
}

output_run : net_output_units 10_000_000 terms ≡ 890_000_000
unfolding net_output_units gross_output_units
output_run = refl

oversized_run : decide 600_000_000 (net_output_units 600_000_000 terms) terms ≡ refund_oversized
unfolding decide net_output_units gross_output_units
oversized_run = refl

abbrev deposit : PendingDeposit
deposit = record {
  sig = "s1";
  timestamp = some (pos 1000);
  memo = some "nexus:account";
  from_address = some "sender";
  amount_usdc_units = some (pos 10_000_000);
  amount_usdd_units = none;
  status = some "ready for processing";
  txid = none;
  reference = none;
  policy_decision = none;
  policy_evidence = none;
}

abbrev queue : Database
queue = record empty_database { unprocessed_sigs = deposit ∷ [] }

parse-freeze_example :
    (classify (int (pos 10_000_000)) terms >>= λ d.
    freeze_evidence "s1" (int (pos 1000)) "nexus:account" (some "sender") (int (pos 10_000_000)) d
    >>= parse_frozen_evidence)
    ≡ ok (frozen "s1" 1000 "nexus:account" (some "sender") 10_000_000 terms)
parse-freeze_example =
    parse-freeze "s1" 1000 "nexus:account" (some "sender") 10_000_000 terms refl (omega arith)
      (omega arith) (omega arith)

abbrev evidence_of : SolanaDepositTerms → Json
evidence_of t = object (
    evidence_fields "s1" 1000 "nexus:account" (some "sender") (int (pos 10_000_000)) (record {
      decision = decide 10_000_000 (net_output_units 10_000_000 t) t;
      output_units = net_output_units 10_000_000 t;
      terms = t;
    }))

parse_run :
    parse_frozen_evidence (evidence_of terms)
    ≡ ok (frozen "s1" 1000 "nexus:account" (some "sender") 10_000_000 terms)
unfolding parse_frozen_evidence evidence_fields as_dict is_unambiguous parse_terms read_decision
    make_terms classify output_units decide net_output_units gross_output_units require_positive
    require_nonnegative
parse_run = refl

-- Evidence with another output is refused.
forged_run :
    parse_frozen_evidence (
      object (
        evidence_fields "s1" 1000 "nexus:account"
          (some "sender")
          (int (pos 10_000_000))
          (record { decision = payable; output_units = 900_000_000; terms = terms })))
    ≡ err value_error
unfolding parse_frozen_evidence evidence_fields as_dict is_unambiguous parse_terms read_decision
    make_terms classify output_units decide net_output_units gross_output_units require_positive
    require_nonnegative
forged_run = refl

abbrev proposed : FrozenDecision
proposed = frozen "s1" 1000 "nexus:account" (some "sender") 10_000_000 terms

abbrev classified : Database
classified = record queue {
  unprocessed_sigs =
      record deposit {
        policy_decision = some "payable";
        policy_evidence = some (evidence_of terms);
      }
      ∷ [];
}

freeze_run : freeze_decision "s1" (evidence_of terms) queue ≡ ok (proposed, classified)
unfolding freeze_decision freeze_row read_frozen frozen_row target_status parse_frozen_evidence
    evidence_fields as_dict is_unambiguous parse_terms read_decision make_terms classify
    output_units decide net_output_units gross_output_units require_positive require_nonnegative
freeze_run = refl

-- After the configuration has changed.
drifted_run :
    parse_frozen_evidence (evidence_of free_terms)
    ≡ ok (frozen "s1" 1000 "nexus:account" (some "sender") 10_000_000 free_terms)
unfolding parse_frozen_evidence evidence_fields as_dict is_unambiguous parse_terms read_decision
    make_terms classify output_units decide net_output_units gross_output_units require_positive
    require_nonnegative
drifted_run = refl

freeze_again_example :
    freeze_decision "s1" (evidence_of free_terms) classified ≡ ok (proposed, classified)
freeze_again_example =
    freeze_again "s1" (evidence_of terms) (evidence_of free_terms) proposed
      (frozen "s1" 1000 "nexus:account" (some "sender") 10_000_000 free_terms) queue classified
      freeze_run drifted_run refl (refl, refl, refl, refl)

liability-freeze_example :
    get_unresolved_solana_liability_units classified ≡ get_unresolved_solana_liability_units queue
liability-freeze_example =
    liability-freeze "s1" (evidence_of terms) proposed queue classified freeze_run
