-- ===== src/Return/Prepare.antt =====
-- `prepare_solana_sig_disposition`: a ValueError that is raised and an error of SQLite are statuses
-- of the result, as in the code.

use swap_service.Base.{
  ℕ, string_eq, ℕ_eq, option_eq, int_eq, leb, String, Option, none, some, Value, is_some, Result,
  ok, err, value_error, runtime_error, integrity_error, witness_error, ◌>>=◌, ◌>>◌, require,
  require_positive, require_nonnegative,
}
use swap_service.Database.{Json, Database}
use swap_service.Payout.{require_text}
use swap_service.Deposit.{coalesce}
use swap_service.Return.Kinds.{find_kind}
use swap_service.Return.Intent.{ReturnRequest, intent_evidence, parse_intent, same_request}
use swap_service.Return.Holds.{malformed_evidence, db_failure, PrepareResult}
use swap_service.Return.Claim.{refused, prepare_in_transaction}

-- The arguments that state the request.
pub record ReturnArguments : Type 0 where
  pub source_sig : String
  pub kind : String
  pub timestamp : Value
  pub from_address : String
  pub destination_address : String
  pub amount_usdc_units : Value
  pub memo : Option String
  pub payout_memo : String
  pub payout_units : Value

-- The checks of the arguments.
unfoldable pub make_request : ReturnArguments → Result ReturnRequest
unfolding find_kind
make_request a = do
  s ← require_text a.source_sig 500
  kind ← find_kind a.kind
  seconds ← require_positive a.timestamp
  from ← require_text a.from_address 500
  destination ← require_text a.destination_address 500
  return_memo ← require_text a.payout_memo 1024
  amount_units ← require_positive a.amount_usdc_units
  payout_units ← require_positive a.payout_units
  require (leb payout_units amount_units) value_error
  ok (record {
    kind = kind;
    source_sig = s;
    timestamp = seconds;
    from_address = from;
    destination_address = destination;
    amount_usdc_units = amount_units;
    memo = coalesce a.memo;
    payout_memo = return_memo;
    payout_units = payout_units;
  })

-- The evidence to freeze: what a held retry supplies, or what the configuration gives.
unfoldable pub choose_evidence : ReturnRequest → Option Json → Value → Value → Result Json
unfolding parse_intent intent_evidence
choose_evidence q none terms_version refund_fee = intent_evidence q terms_version refund_fee
choose_evidence q (some frozen) terms_version refund_fee = do
  f ← parse_intent frozen
  require (same_request f.request q) value_error
  ok frozen

-- The `except` clauses around the transaction.
unfoldable pub settle_errors :
    ReturnRequest
    → ℕ
    → Database
    → Result (PrepareResult × Database)
    → Result (PrepareResult × Database)
settle_errors q cap db (ok out) = ok out
settle_errors q cap db (err value_error) = ok (refused malformed_evidence q 0 cap db)
settle_errors q cap db (err integrity_error) = ok (refused db_failure q 0 cap db)
settle_errors q cap db (err runtime_error) = err runtime_error
settle_errors q cap db (err witness_error) = err witness_error

-- The checks that come before the transaction.
unfoldable pub check_arguments :
    ReturnArguments → Value → Option Json → Value → Value → Result (ReturnRequest × ℕ × Json)
unfolding make_request choose_evidence
check_arguments a cap_value frozen terms_version refund_fee = do
  q ← make_request a
  cap_units ← require_nonnegative cap_value
  evidence ← choose_evidence q frozen terms_version refund_fee
  ok (q, cap_units, evidence)

-- `units if type(units) is int and units >= 0 else 0`.
abbrev units_or_zero : Value → ℕ
units_or_zero v = elim (require_nonnegative v) [ ok n ↦ n | err e ↦ 0 ]

-- `prepare_solana_sig_disposition`; the last arguments are the two configured terms and the clock.
unfoldable pub prepare :
    ReturnArguments
    → Value
    → Option Json
    → Value
    → Value
    → ℕ
    → Database
    → Result (PrepareResult × Database)
unfolding check_arguments prepare_in_transaction settle_errors
prepare a cap frozen terms_version refund_fee now db =
    elim (check_arguments a cap frozen terms_version refund_fee) [
      | err e ↦ ok (
        record {
          status = malformed_evidence;
          needed_units = units_or_zero a.payout_units;
          used_units = 0;
          cap_units = units_or_zero cap;
        },
        db,
      )
      | ok (q, cap_units, evidence) ↦
          settle_errors q cap_units db
            (prepare_in_transaction q (is_some frozen) evidence cap_units now db)
    ]
