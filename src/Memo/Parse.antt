-- ===== src/Memo/Parse.antt =====
-- `parse_nexus_payout_memo`. A text is the list of its characters.
use Prim.Native.Char.{Char, code}
use Prim.Native.String.{String, ◌++◌}
use swap_service.Base.{
  ℕ, ◌+◌, ◌-◌, ◌*◌, pos, Bool, true, false, not, ◌&&◌, ◌||◌, Option, none, some, List, [], ◌∷◌,
  ◌==◌, ℕ_eq, ltb, leb, is_empty, text_length, decimal, if◌then◌else◌,
}

pub record NexusPayoutMemo : Type 0 where
  pub txid : String
  pub contract_id : Option ℕ

-- `is_legacy`.
abbrev pub is_legacy : NexusPayoutMemo → Bool
is_legacy m = elim m.contract_id [ none ↦ true | some c ↦ false ]

-- `[0-9]`.
unfoldable pub is_digit : Char → Bool
is_digit c = leb 48 (code c) && leb (code c) 57

-- `[0-9a-f]`.
unfoldable pub is_hex : Char → Bool
unfolding is_digit
is_hex c = is_digit c || (leb 97 (code c) && leb (code c) 102)

unfoldable pub all_chars : (Char → Bool) → String → Bool
all_chars test String.[] = true
all_chars test (String.◌∷◌ c s) = test c && all_chars test s

-- `is_canonical_nexus_txid`.
unfoldable pub is_canonical_nexus_txid : String → Bool
unfolding is_hex all_chars
is_canonical_nexus_txid value = all_chars is_hex value && (text_length value == 128)

-- `_CONTRACT_ID_RE.fullmatch`: a zero alone, or digits that begin with none.
unfoldable pub is_contract_id_text : String → Bool
unfolding is_digit all_chars
is_contract_id_text String.[] = false
is_contract_id_text (String.◌∷◌ c s) =
    (leb 48 (code c) && leb (code c) 48 && is_empty s)
    || (leb 49 (code c) && leb (code c) 57 && all_chars is_digit s)

-- `int(text)` of a text of digits.
unfoldable pub number_from : ℕ → String → ℕ
number_from acc String.[] = acc
number_from acc (String.◌∷◌ c s) = number_from (acc * 10 + (code c - 48)) s

-- `value.startswith(prefix)` and the rest.
unfoldable pub strip_prefix : String → String → Option String
strip_prefix String.[] s = some s
strip_prefix (String.◌∷◌ p ps) String.[] = none
strip_prefix (String.◌∷◌ p ps) (String.◌∷◌ c s) =
    let rest = strip_prefix ps s in if code p == code c then rest else none

abbrev colon : ℕ
colon = 58

abbrev onto_first : Char → List String → List String
onto_first c [] = (String.◌∷◌ c String.[]) ∷ []
onto_first c (part ∷ parts) = (String.◌∷◌ c part) ∷ parts

-- `payload.split(":")`.
unfoldable pub split_colon : String → List String
split_colon String.[] = String.[] ∷ []
split_colon (String.◌∷◌ c s) =
    let parts = split_colon s in if code c == colon then String.[] ∷ parts else onto_first c parts

abbrev pub payout_prefix : String
payout_prefix = "nexus_txid:"

unfoldable pub parse_parts : List String → Option NexusPayoutMemo
unfolding number_from
parse_parts (txid ∷ []) =
    if is_canonical_nexus_txid txid then some (record { txid = txid; contract_id = none }) else none
parse_parts (txid ∷ raw_contract_id ∷ []) =
    if not (is_canonical_nexus_txid txid) || not (is_contract_id_text raw_contract_id)
    then none
    else if ltb 0xffff_ffff (number_from 0 raw_contract_id)
    then none
    else some (record { txid = txid; contract_id = some (number_from 0 raw_contract_id) })
parse_parts _ = none

unfoldable pub parse_payload : Option String → Option NexusPayoutMemo
unfolding split_colon parse_parts
parse_payload none = none
parse_payload (some payload) = parse_parts (split_colon payload)

-- `parse_nexus_payout_memo` of a text.
unfoldable pub parse_nexus_payout_memo : String → Option NexusPayoutMemo
unfolding strip_prefix parse_payload
parse_nexus_payout_memo value = parse_payload (strip_prefix payout_prefix value)

-- The memo that the payout of a credit carries.
unfoldable pub payout_memo : String → ℕ → String
payout_memo txid contract_id = "nexus_txid:" ++ txid ++ ":" ++ decimal (pos contract_id)
