-- ===== src/Memo/RoundTrip.antt =====
-- The memo of a payout against the parser of memos.
use Prim.Native.Char.{Char, code}
use Prim.Native.String.{String, ◌++◌}
use text.Mathlib.TextLemmas.{nil-append, cons-append}
use swap_service.Base.{
  ℕ, ◌^◌, ◌<◌, ◌≡◌, refl, ap, sym, ◌∙◌, pos, Bool, true, false, not, none, some, [], ◌∷◌, ◌==◌,
  ℕ_eq, nat_eq_iff, ltb, decimal, arith,
}
use swap_service.Memo.Parse.{
  is_digit, is_hex, all_chars, is_canonical_nexus_txid, strip_prefix, split_colon, payout_prefix,
  parse_parts, parse_payload, parse_nexus_payout_memo, payout_memo,
}
use swap_service.Memo.Digits.{number-decimal, decimal-digits, is_contract_id_text-decimal}

strip_prefix-append : (p s : String) → strip_prefix p (p ++ s) ≡ some s
unfolding strip_prefix
strip_prefix-append String.[] s = rw (nil-append s) refl
strip_prefix-append (String.◌∷◌ c p) s =
    let e : (code c == code c) ≡ true = (nat_eq_iff (code c) (code c)).1 refl in
    rw (cons-append c p s) (rw e (strip_prefix-append p s))

abbrev no_colon : Char → Bool
no_colon c = not (code c == 58)

-- A text with no colon is one part.
split_colon-part : (s : String) → all_chars no_colon s ≡ true → split_colon s ≡ s ∷ []
unfolding split_colon all_chars
split_colon-part String.[] h = refl
split_colon-part (String.◌∷◌ c s) h =
    let a : (code c == 58) ≡ false = ground (arith, h) in
    let b : all_chars no_colon s ≡ true = ground (arith, h) in rw a (rw (split_colon-part s b) refl)

colon-append : (t : String) → ":" ++ t ≡ String.◌∷◌ ":" t
colon-append t = cons-append ":" "" t ∙ ap (λ x. String.◌∷◌ ":" x) (nil-append t)

split_colon-append :
    (s t : String) → all_chars no_colon s ≡ true → split_colon (s ++ ":" ++ t) ≡ s ∷ split_colon t
unfolding split_colon all_chars
split_colon-append String.[] t h = rw (nil-append (":" ++ t), colon-append t) refl
split_colon-append (String.◌∷◌ c s) t h =
    let a : (code c == 58) ≡ false = ground (arith, h) in
    let b : all_chars no_colon s ≡ true = ground (arith, h) in
    rw (cons-append c s (":" ++ t)) (rw a (rw (split_colon-append s t b) refl))

all_chars_mono :
    (f g : Char → Bool) (s : String)
    → ((c : Char) → f c ≡ true → g c ≡ true)
    → all_chars f s ≡ true
    → all_chars g s ≡ true
unfolding all_chars
all_chars_mono f g String.[] k h = refl
all_chars_mono f g (String.◌∷◌ c s) k h = ground (arith, h, k c, all_chars_mono f g s k)

hex_no_colon : (c : Char) → is_hex c ≡ true → no_colon c ≡ true
unfolding is_hex is_digit
hex_no_colon c h = ground (arith, h)

digit_no_colon : (c : Char) → is_digit c ≡ true → no_colon c ≡ true
unfolding is_digit
digit_no_colon c h = ground (arith, h)

txid_hex : (txid : String) → is_canonical_nexus_txid txid ≡ true → all_chars is_hex txid ≡ true
unfolding is_canonical_nexus_txid
txid_hex txid h = ground (arith, h)

parse-prefixed :
    (payload : String)
    → parse_nexus_payout_memo (payout_prefix ++ payload) ≡ parse_parts (split_colon payload)
unfolding parse_nexus_payout_memo parse_payload
parse-prefixed payload = ap parse_payload (strip_prefix-append payout_prefix payload)

memo_parts :
    (txid : String) (contract_id : ℕ)
    → is_canonical_nexus_txid txid ≡ true
    → split_colon (txid ++ ":" ++ decimal (pos contract_id)) ≡ txid ∷ decimal (pos contract_id) ∷ []
memo_parts txid contract_id h =
    split_colon-append txid (decimal (pos contract_id))
      (all_chars_mono is_hex no_colon txid hex_no_colon (txid_hex txid h))
    ∙ ap (λ parts. txid ∷ parts)
        (split_colon-part (decimal (pos contract_id)) (
          all_chars_mono is_digit no_colon (decimal (pos contract_id)) digit_no_colon
            (decimal-digits contract_id)))

-- The memo of a payout parses to the identity of its credit, for a canonical transaction and a
-- contract number of 32 bits.
pub parse-payout_memo :
    (txid : String) (contract_id : ℕ)
    → is_canonical_nexus_txid txid ≡ true
    → contract_id < 2 ^ 32
    → parse_nexus_payout_memo (payout_memo txid contract_id)
      ≡ some (record { txid = txid; contract_id = some contract_id })
unfolding payout_memo parse_parts
parse-payout_memo txid contract_id h k =
    let small : ltb 0xffff_ffff contract_id ≡ false = ground arith in
    parse-prefixed (txid ++ ":" ++ decimal (pos contract_id))
    ∙ (ap parse_parts (memo_parts txid contract_id h)
        ∙ rw (h, is_contract_id_text-decimal contract_id, number-decimal contract_id, small) refl)

-- An older memo, which names no contract, parses as one.
pub parse_legacy :
    (txid : String)
    → is_canonical_nexus_txid txid ≡ true
    → parse_nexus_payout_memo (payout_prefix ++ txid)
      ≡ some (record { txid = txid; contract_id = none })
unfolding parse_parts
parse_legacy txid h =
    parse-prefixed txid
    ∙ (ap parse_parts (
          split_colon-part txid
            (all_chars_mono is_hex no_colon txid hex_no_colon (txid_hex txid h)))
        ∙ rw h refl)

-- Two credits whose payouts carry one memo are one credit.
pub payout_memo-injective :
    (txid txid' : String) (contract_id contract_id' : ℕ)
    → is_canonical_nexus_txid txid ≡ true
    → is_canonical_nexus_txid txid' ≡ true
    → contract_id < 2 ^ 32
    → contract_id' < 2 ^ 32
    → payout_memo txid contract_id ≡ payout_memo txid' contract_id'
    → (txid ≡ txid') × (contract_id ≡ contract_id')
payout_memo-injective txid txid' c c' h h' k k' e =
    let p =
      sym (parse-payout_memo txid c h k)
      ∙ (ap parse_nexus_payout_memo e ∙ parse-payout_memo txid' c' h' k') in
    ground (arith, p)
