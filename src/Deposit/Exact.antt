-- ===== src/Deposit/Exact.antt =====
-- What `parse_frozen_evidence` of src/solana_deposit_policy.py demands of evidence.
use swap_service.Base.{text, pos, value_eq, ◌<◌, ◌≡◌, string_eq, ℕ_eq, int}
use swap_service.Database.{Json, Fields, scalar, object}
use swap_service.Deposit.Policy.{decision_text, decide, net_output_units, output_units}
use swap_service.Deposit.Evidence.{get_field, FrozenDecision}

-- What the evidence itself says of the amounts and the decision that are read from it.
abbrev pub Says : Fields → FrozenDecision → Type 0
Says parsed p =
    (get_field "input_units" parsed ≡ scalar (int (pos p.input_units)))
    × (get_field "output_units" parsed ≡ scalar (int (pos p.output_units)))
    × (get_field "decision" parsed ≡ scalar (text p.decision))

-- What evidence must satisfy to be accepted, and to be read as `p`.
abbrev pub IsExact : Json → FrozenDecision → Type 0
IsExact j p =
    ((parsed : Fields) × (j ≡ object parsed) × Says parsed p)
    × (0 < p.timestamp)
    × (0 < p.input_units)
    × (0 < p.terms_object.minimum_input_units)
    × (p.output_units ≡ net_output_units p.input_units p.terms_object)
    × (p.decision ≡ decision_text (decide p.input_units p.output_units p.terms_object))
