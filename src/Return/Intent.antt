-- ===== src/Return/Intent.antt =====
-- The frozen intent of a refund or quarantine in src/state_db.py: its evidence, the parser of the
-- evidence, and the test of a stored row against it. A JSON text is what it decodes to.
use swap_service.Base.{
  ℕ, pos, ◌+◌, ◌-◌, ◌==◌, string_eq, ℕ_eq, value_eq, option_eq, int_eq, not, ◌&&◌, leb, String,
  Bool, true, false, Option, none, some, List, [], ◌∷◌, Value, int, text, Result, ok, err,
  value_error, runtime_error, ◌>>=◌, ◌>>◌, require, require_positive, require_nonnegative, is_empty,
  ℤ, if◌then◌else◌,
}
use swap_service.Database.{
  Json, scalar, array, object, Items, no_items, item, Fields, no_fields, field, ReturnedDeposit,
}
use swap_service.Deposit.{
  is_unambiguous, get_field, has_exact_keys, nat_field, as_fields, as_value, as_text, positive_at,
  coalesce,
}
use swap_service.Return.Kinds.{ReturnKind, kind_text, find_kind}

-- The terms that a refund or quarantine is asked for with.
pub record ReturnRequest : Type 0 where
  pub kind : ReturnKind
  pub source_sig : String
  pub timestamp : ℕ
  pub from_address : String
  pub destination_address : String
  pub amount_usdc_units : ℕ
  pub memo : String
  pub payout_memo : String
  pub payout_units : ℕ

-- The fields of the evidence: the request, and the terms of service under which it was made.
pub record FrozenIntent : Type 0 where
  pub request : ReturnRequest
  pub fee_units : ℕ
  pub service_terms_version : ℕ
  pub refund_solana_fee_units : ℕ

abbrev text_field : String → Json
text_field s = scalar (text s)

-- The `evidence` of `_solana_sig_disposition_intent_evidence`, its keys sorted.
unfoldable pub intent_fields : FrozenIntent → Fields
intent_fields f = field "destination_token_account" (text_field f.request.destination_address) (
    field "fee_solana_units" (nat_field f.fee_units) (
      field "kind" (text_field (kind_text f.request.kind)) (
        field "payout_amount_solana_units" (nat_field f.request.payout_units) (
          field "payout_memo" (text_field f.request.payout_memo) (
            field "refund_solana_fee_units" (nat_field f.refund_solana_fee_units) (
              field "service_terms_version" (nat_field f.service_terms_version) (
                field "source_amount_solana_units" (nat_field f.request.amount_usdc_units) (
                  field "source_memo" (text_field f.request.memo) (
                    field "source_signature" (text_field f.request.source_sig) (
                      field "source_timestamp" (nat_field f.request.timestamp) (
                        field "source_token_account" (text_field f.request.from_address)
                          (field "version" (nat_field 1) no_fields))))))))))))

-- The configured terms, when they are integers that are not negative.
abbrev pub exact_terms : Value → Result ℕ
exact_terms v = elim (require_nonnegative v) [ ok n ↦ ok n | err e ↦ err runtime_error ]

-- `_solana_sig_disposition_intent_evidence`.
unfoldable pub intent_evidence : ReturnRequest → Value → Value → Result Json
unfolding intent_fields
intent_evidence q terms_version refund_fee = do
  version ← exact_terms terms_version
  fee ← exact_terms refund_fee
  ok (
      object (
        intent_fields (record {
          request = q;
          fee_units = q.amount_usdc_units - q.payout_units;
          service_terms_version = version;
          refund_solana_fee_units = fee;
        })))

abbrev pub intent_keys : List String
intent_keys =
    "kind" ∷ "source_signature" ∷ "source_token_account" ∷ "destination_token_account"
    ∷ "source_memo" ∷ "payout_memo" ∷ "version" ∷ "source_timestamp" ∷ "source_amount_solana_units"
    ∷ "payout_amount_solana_units" ∷ "fee_solana_units" ∷ "service_terms_version"
    ∷ "refund_solana_fee_units" ∷ []

abbrev pub text_at : String → Fields → Result String
text_at k entries = as_text (get_field k entries)

abbrev pub required_at : String → Fields → Result String
required_at k entries = text_at k entries >>= λ s. require (not (is_empty s)) value_error >> ok s

abbrev pub nonnegative_at : String → Fields → Result ℕ
nonnegative_at k entries = as_value (get_field k entries) >>= require_nonnegative

-- The fields of the intent, and the balance of its amounts.
unfoldable pub read_intent : Fields → Result FrozenIntent
unfolding find_kind
read_intent parsed = do
  kind_name ← text_at "kind" parsed
  kind ← find_kind kind_name
  source_sig ← required_at "source_signature" parsed
  timestamp ← positive_at "source_timestamp" parsed
  from_address ← required_at "source_token_account" parsed
  destination_address ← required_at "destination_token_account" parsed
  memo ← text_at "source_memo" parsed
  payout_memo ← required_at "payout_memo" parsed
  amount ← positive_at "source_amount_solana_units" parsed
  payout_units ← positive_at "payout_amount_solana_units" parsed
  fee_units ← nonnegative_at "fee_solana_units" parsed
  terms_version ← nonnegative_at "service_terms_version" parsed
  refund_fee ← nonnegative_at "refund_solana_fee_units" parsed
  require (payout_units + fee_units == amount) value_error
  ok (record {
    request = record {
      kind = kind;
      source_sig = source_sig;
      timestamp = timestamp;
      from_address = from_address;
      destination_address = destination_address;
      amount_usdc_units = amount;
      memo = memo;
      payout_memo = payout_memo;
      payout_units = payout_units;
    };
    fee_units = fee_units;
    service_terms_version = terms_version;
    refund_solana_fee_units = refund_fee;
  })

-- `_parse_solana_sig_disposition_intent_evidence`; its `None` is an error here.
unfoldable pub parse_intent : Json → Result FrozenIntent
unfolding is_unambiguous read_intent
parse_intent evidence = do
  require (is_unambiguous evidence) value_error
  parsed ← as_fields evidence
  require (has_exact_keys parsed intent_keys) value_error
  version ← as_value (get_field "version" parsed)
  require (version == int (pos 1)) value_error
  read_intent parsed

abbrev pub same_kind : ReturnKind → ReturnKind → Bool
same_kind a b = kind_text a == kind_text b

-- `frozen_request == current_request`.
abbrev pub same_request : ReturnRequest → ReturnRequest → Bool
same_request p q =
    same_kind p.kind q.kind
    && (p.source_sig == q.source_sig)
    && (p.timestamp == q.timestamp)
    && (p.from_address == q.from_address)
    && (p.destination_address == q.destination_address)
    && (p.amount_usdc_units == q.amount_usdc_units)
    && (p.memo == q.memo)
    && (p.payout_memo == q.payout_memo)
    && (p.payout_units == q.payout_units)

-- The comparison of two evidence texts.
unfoldable mutual
  pub same_json : Json → Json → Bool
  same_json (scalar a) (scalar b) = a == b
  same_json (array a) (array b) = same_items a b
  same_json (object a) (object b) = same_fields a b
  same_json _ _ = false

  pub same_items : Items → Items → Bool
  same_items no_items no_items = true
  same_items (item a xs) (item b ys) = same_json a b && same_items xs ys
  same_items _ _ = false

  pub same_fields : Fields → Fields → Bool
  same_fields no_fields no_fields = true
  same_fields (field k a xs) (field l b ys) = (k == l) && same_json a b && same_fields xs ys
  same_fields _ _ = false

abbrev present : Option String → Result String
present none = err value_error
present (some s) = if is_empty s then err value_error else ok s

abbrev positive : Option ℤ → Result ℕ
positive none = err value_error
positive (some n) = require_positive (int n)

-- The request that a stored row was made for; an error where a field has no admissible value.
unfoldable pub row_request : ReturnKind → ReturnedDeposit → Result ReturnRequest
row_request kind r = do
  source_sig ← present (some r.sig)
  timestamp ← positive r.timestamp
  from_address ← present r.from_address
  destination_address ← present r.destination_address
  amount ← positive r.amount_usdc_units
  payout_memo ← present r.payout_memo
  payout_units ← positive r.payout_units
  require (leb payout_units amount) value_error
  ok (record {
    kind = kind;
    source_sig = source_sig;
    timestamp = timestamp;
    from_address = from_address;
    destination_address = destination_address;
    amount_usdc_units = amount;
    memo = coalesce r.memo;
    payout_memo = payout_memo;
    payout_units = payout_units;
  })

-- The frozen fields against those of the row.
abbrev pub fields_match : ReturnRequest → Result FrozenIntent → Bool
fields_match q (err e) = false
fields_match q (ok f) =
    same_request f.request q && (f.fee_units == q.amount_usdc_units - q.payout_units)

abbrev pub intent_matches : ReturnRequest → Json → Bool
intent_matches q evidence = fields_match q (parse_intent evidence)

abbrev pub provenance_v1 : String
provenance_v1 = "pre_submission_v1"

-- `_has_valid_solana_sig_disposition_provenance` of a stored row.
unfoldable pub has_valid_provenance : ReturnKind → ReturnedDeposit → Bool
unfolding row_request parse_intent
has_valid_provenance kind r = elim (row_request kind r) [
  | err e ↦ false
  | ok q ↦
      if r.intent_provenance == some "legacy_pre_submission_v0"
      then elim r.intent_evidence [ none ↦ true | some e ↦ false ]
      else (r.intent_provenance == some provenance_v1)
        && elim r.intent_evidence [ none ↦ false | some e ↦ intent_matches q e ]
]
