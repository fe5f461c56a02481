-- ===== src/Disbursement/Terminal.antt =====
-- `finalize_nexus_credit` on the caller's arguments, and `get_processed_nexus_credit`.
use Prim.Native.Char.{Char, code}
use swap_service.Base.{
  ℕ, pos, String, Bool, false, not, ◌&&◌, ◌||◌, Option, none, some, ◌==◌, ℕ_eq, leb, ltb, nat_eq,
  Result, ok, value_error, ◌>>=◌, ◌>>◌, require, Value, strip, is_empty, require_positive,
  require_nonnegative,
}
use swap_service.Database.{ProcessedCredit, Database}
use swap_service.Credit.{get_processed}
use swap_service.Disbursement.Finalize.{finalize_credit_in_transaction}

-- A letter, in either case, by its codes. No other character has it in its `lower()`.
abbrev is_letter : ℕ → ℕ → Char → Bool
is_letter upper lower c = nat_eq (code c) upper || nat_eq (code c) lower

-- `"fee" in status.lower()`.
unfoldable pub mentions_fee : String → Bool
mentions_fee (String.◌∷◌ a (String.◌∷◌ b (String.◌∷◌ c s))) =
    (is_letter 70 102 a && is_letter 69 101 b && is_letter 69 101 c)
    || mentions_fee (String.◌∷◌ b (String.◌∷◌ c s))
mentions_fee _ = false

-- No fee has no kind, and a fee has one.
abbrev pub is_fee_kind : ℕ → Option String → Bool
is_fee_kind fee none = nat_eq fee 0
is_fee_kind fee (some kind) = ltb 0 fee && not (is_empty (strip kind))

-- `finalize_nexus_credit`.
unfoldable pub finalize_nexus_credit :
    String
    → Value
    → Value
    → Value
    → Value
    → String
    → String
    → String
    → String
    → String
    → Option String
    → Value
    → ℕ
    → Database
    → Result (Bool × Database)
unfolding mentions_fee
finalize_nexus_credit txid contract_id timestamp amount_usdd amount from_address to_address owner
      sig status fee_kind fee now db =
    do
      require (not (is_empty (strip txid) || is_empty from_address || is_empty to_address))
          value_error
      c ← require_nonnegative contract_id
      a ← require_positive amount
      f ← require_nonnegative fee
      require (leb f a) value_error
      require (not (is_empty (strip status))) value_error
      require (is_fee_kind f fee_kind) value_error
      require (not (is_empty sig) || ((f == a) && mentions_fee status)) value_error
      finalize_credit_in_transaction
          (record {
            txid = strip txid;
            contract_id = pos c;
            timestamp = timestamp;
            amount_usdd = amount_usdd;
            amount_usdd_units = a;
            from_address = from_address;
            to_address = to_address;
            owner = owner;
            sig = sig;
            status = status;
            fee_kind = fee_kind;
            fee_nexus_units = f;
          })
          now db

-- `get_processed_nexus_credit`.
unfoldable pub get_processed_nexus_credit :
    String → Value → Database → Result (Option ProcessedCredit)
get_processed_nexus_credit txid contract_id db = do
  c ← require_nonnegative contract_id
  ok (get_processed txid (pos c) db.processed_txids)
