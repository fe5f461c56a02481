-- ===== src/Memo/Tests.antt =====
-- The memo of a payout at a concrete credit.
use Prim.Native.String.{String, ◌++◌}
use swap_service.Base.{true, ◌^◌, ◌≡◌, refl, none, some, ltb→lt}
use swap_service.Memo.Parse.{
  is_canonical_nexus_txid, is_hex, is_digit, all_chars, parse_nexus_payout_memo, parse_payload,
  parse_parts, split_colon, strip_prefix, payout_memo, payout_prefix, is_contract_id_text,
  number_from,
}
use swap_service.Memo.RoundTrip.{parse-payout_memo}

abbrev txid : String
txid =
    "0123456789abcdef0123456789abcdef0123456789abcdef0123456789abcdef0123456789abcdef0123456789abcdef0123456789abcdef0123456789abcdef"

txid_canonical : is_canonical_nexus_txid txid ≡ true
unfolding is_canonical_nexus_txid is_hex is_digit all_chars
txid_canonical = refl

parse-payout_memo_example :
    parse_nexus_payout_memo (payout_memo txid 7)
    ≡ some (record { txid = txid; contract_id = some 7 })
parse-payout_memo_example = parse-payout_memo txid 7 txid_canonical (ltb→lt 7 (2 ^ 32) refl)

-- A number with a leading zero, and one of more than 32 bits, name no contract.
leading_zero : parse_nexus_payout_memo (payout_prefix ++ txid ++ ":07") ≡ none
unfolding parse_nexus_payout_memo parse_payload parse_parts split_colon strip_prefix
    is_canonical_nexus_txid is_hex is_digit all_chars is_contract_id_text number_from
leading_zero = refl

too_large : parse_nexus_payout_memo (payout_prefix ++ txid ++ ":4294967296") ≡ none
unfolding parse_nexus_payout_memo parse_payload parse_parts split_colon strip_prefix
    is_canonical_nexus_txid is_hex is_digit all_chars is_contract_id_text number_from
too_large = refl
