-- ===== src/Disbursement/Evidence.antt =====
-- The evidence of `finalize_nexus_credit`: its arguments, Python's `==` on cells, the journaled fees and
-- the payout.
use swap_service.Base.{
  ℕ, ◌*◌, ◌^◌, ℤ, pos, String, Bool, true, false, not, ◌&&◌, ◌||◌, Option, none, some, List, [],
  ◌∷◌, ◌==◌, string_eq, int_eq, ℕ_eq, option_eq, value_eq, is_some, if◌then◌else◌, leb, ltb, Value,
  boolean, int, real, text, null, is_empty, ◌*ℤ◌, pos_part, neg_part,
}
use swap_service.Database.{PendingCredit, ProcessedCredit, FeeEntry}
use swap_service.Credit.{minus_one}

-- Python's `==` on cells: numbers are compared by value, whatever their types.
unfoldable pub same_number : ℤ → ℤ → ℤ → ℤ → Bool
same_number m e n f =
    (m *ℤ (2 ^ pos_part e * 2 ^ neg_part f)) == (n *ℤ (2 ^ pos_part f * 2 ^ neg_part e))

abbrev bit : Bool → ℤ
bit true = pos 1
bit false = pos 0

abbrev pub number : Value → Option (ℤ × ℤ)
number (boolean b) = some (bit b, pos 0)
number (int n) = some (n, pos 0)
number (real m e) = some (m, e)
number _ = none

abbrev pub equals : Value → Value → Bool
equals null null = true
equals (text a) (text b) = a == b
equals v w = elim (number v) [
  | none ↦ false
  | some a ↦ elim (number w) [ none ↦ false | some b ↦ same_number a.0 a.1 b.0 b.1 ]
]

-- The checked arguments of `finalize_nexus_credit`. The timestamp and the float amount are not
-- checked.
pub record CreditEvidence : Type 0 where
  pub txid : String
  pub contract_id : ℤ
  pub timestamp : Value
  pub amount_usdd : Value
  pub amount_usdd_units : ℕ
  pub from_address : String
  pub to_address : String
  pub owner : String
  pub sig : String
  pub status : String
  pub fee_kind : Option String
  pub fee_nexus_units : ℕ

-- A fee row of the whole txid, written before contract ids were.
abbrev pub has_legacy_fee : String → List FeeEntry → Bool
has_legacy_fee t [] = false
has_legacy_fee t (f ∷ fs) =
    ((f.txid == some t) && (f.contract_id == minus_one) && is_some f.amount_usdd_units)
    || has_legacy_fee t fs

-- The fees journaled for the credit.
abbrev pub fee_of : String → ℤ → FeeEntry → Option (String × ℤ)
fee_of t c f = elim f.amount_usdd_units [
  | none ↦ none
  | some a ↦ if (f.txid == some t) && (f.contract_id == c) then some (f.kind, a) else none
]

abbrev pub fee_rows : String → ℤ → List FeeEntry → List (String × ℤ)
fee_rows t c [] = []
fee_rows t c (f ∷ fs) = elim (fee_of t c f) [
  | none ↦ fee_rows t c fs
  | some r ↦ r ∷ fee_rows t c fs
]

-- `tuple(fee_rows) == expected_fee`.
abbrev pub is_expected_fee : CreditEvidence → List (String × ℤ) → Bool
is_expected_fee e [] = not (ltb 0 e.fee_nexus_units)
is_expected_fee e (r ∷ []) =
    ltb 0 e.fee_nexus_units && (some r.0 == e.fee_kind) && (r.1 == pos e.fee_nexus_units)
is_expected_fee e (r ∷ _ ∷ _) = false

-- `source[:6] == expected_source`.
abbrev pub is_expected_source : CreditEvidence → PendingCredit → Bool
is_expected_source e c =
    equals c.timestamp e.timestamp
    && equals c.amount_usdd e.amount_usdd
    && equals c.amount_usdd_units (int (pos e.amount_usdd_units))
    && (c.from_address == some e.from_address)
    && (c.to_address == some e.to_address)
    && (c.owner_from_address == some e.owner)

-- The payout, its fee and its destination.
pub record PayoutEvidence : Type 0 where
  pub units : Value
  pub fee : Value
  pub destination : Option String

abbrev pub no_payout : PayoutEvidence
no_payout = record { units = null; fee = null; destination = none }

abbrev pub positive_units : Value → Option ℕ
positive_units (int (pos n)) = if ltb 0 n then some n else none
positive_units _ = none

-- The checks on the payout of a credit with a signature; `pending_sig` is the one of the source.
abbrev pub is_payout : CreditEvidence → Option String → PayoutEvidence → Bool
is_payout e pending_sig p =
    (pending_sig == some e.sig)
    && is_some (positive_units p.units)
    && (p.fee == int (pos e.fee_nexus_units))
    && leb e.fee_nexus_units e.amount_usdd_units
    && elim p.destination [ none ↦ false | some d ↦ not (is_empty d) ]

abbrev pub archived_payout : ProcessedCredit → PayoutEvidence
archived_payout t = record {
  units = t.payout_solana_units;
  fee = t.payout_fee_nexus_units;
  destination = t.payout_receival_account;
}

abbrev pub pending_payout : PendingCredit → PayoutEvidence
pending_payout c = record {
  units = c.payout_solana_units;
  fee = c.payout_fee_nexus_units;
  destination = c.receival_account;
}

-- The payout evidence, or none where the code returns False.
unfoldable pub payout_evidence :
    CreditEvidence → Option PendingCredit → Option ProcessedCredit → Option PayoutEvidence
payout_evidence e source terminal = if is_empty e.sig then some no_payout else elim source [
  | some c ↦ if is_payout e c.sig (pending_payout c) then some (pending_payout c) else none
  | none ↦ elim terminal [
    | none ↦ none
    | some t ↦
        if is_payout e (some e.sig) (archived_payout t) then some (archived_payout t) else none
  ]
]

-- The row of processed_txids.
abbrev pub terminal_row : CreditEvidence → PayoutEvidence → ProcessedCredit
terminal_row e p = record {
  txid = e.txid;
  contract_id = e.contract_id;
  timestamp = e.timestamp;
  amount_usdd = e.amount_usdd;
  amount_usdd_units = int (pos e.amount_usdd_units);
  from_address = some e.from_address;
  to_address = some e.to_address;
  owner = some e.owner;
  sig = some e.sig;
  status = some e.status;
  payout_solana_units = p.units;
  payout_fee_nexus_units = p.fee;
  payout_receival_account = p.destination;
}

-- `existing_terminal == terminal`.
abbrev pub same_terminal : ProcessedCredit → ProcessedCredit → Bool
same_terminal a b =
    (a.txid == b.txid)
    && (a.contract_id == b.contract_id)
    && equals a.timestamp b.timestamp
    && equals a.amount_usdd b.amount_usdd
    && equals a.amount_usdd_units b.amount_usdd_units
    && (a.from_address == b.from_address)
    && (a.to_address == b.to_address)
    && (a.owner == b.owner)
    && (a.sig == b.sig)
    && (a.status == b.status)
    && equals a.payout_solana_units b.payout_solana_units
    && equals a.payout_fee_nexus_units b.payout_fee_nexus_units
    && (a.payout_receival_account == b.payout_receival_account)
