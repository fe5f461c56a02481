-- ===== src/Witness/Certificates.antt =====
-- `Certificate` and `Certificate.from_dict`.
use Prim.Native.Char.{Char, code}
use swap_service.Base.{
  ℕ, pos, String, Bool, true, not, ◌&&◌, ◌||◌, Option, none, some, List, [], ◌∷◌, ◌==◌, string_eq,
  nat_eq, leb, ltb, if◌then◌else◌, Result, ok, err, witness_error, ◌>>=◌, ◌>>◌, require, Value, int,
  text, strip, is_empty, text_length,
}

-- `_is_hex`.
abbrev is_hex_digit : Char → Bool
is_hex_digit c = (leb 48 (code c) && leb (code c) 57) || (leb 97 (code c) && leb (code c) 102)

abbrev all_hex : String → Bool
all_hex String.[] = true
all_hex (String.◌∷◌ c s) = is_hex_digit c && all_hex s

unfoldable pub is_hex : String → Bool
is_hex s = nat_eq (text_length s) 64 && all_hex s

-- `Certificate`.
pub record Certificate : Type 0 where
  pub deployment_id : String
  pub generation : ℕ
  pub permit_nonce : String
  pub image_sha256 : String
  pub image_size : ℕ
  pub config_sha256 : String
  pub build_sha256 : String
  pub schema_sha256 : String
  pub issued_at : ℕ
  pub approval_rationale : String

-- A decoded JSON object. A nested value is null here: each field's check refuses both.
abbrev pub Mapping : Type 0
Mapping = List (String × Value)

abbrev pub lookup : String → Mapping → Option Value
lookup k [] = none
lookup k (e ∷ es) = if e.0 == k then some e.1 else lookup k es

abbrev is_field : String → Bool
is_field k =
    (k == "deployment_id")
    || (k == "generation")
    || (k == "permit_nonce")
    || (k == "image_sha256")
    || (k == "image_size")
    || (k == "config_sha256")
    || (k == "build_sha256")
    || (k == "schema_sha256")
    || (k == "issued_at")
    || (k == "approval_rationale")

abbrev only_fields : Mapping → Bool
only_fields [] = true
only_fields (e ∷ es) = is_field e.0 && only_fields es

-- A missing field, a value of another type or a text that a check refuses.
abbrev text_field : String → (String → Bool) → Mapping → Result String
text_field k test m = elim (lookup k m) [
  | some (text t) ↦ if test t then ok t else err witness_error
  | _ ↦ err witness_error
]

-- `isinstance(t, str) and t.strip() and len(t) <= limit and t == t.strip()`.
abbrev is_plain : ℕ → String → Bool
is_plain limit t = not (is_empty (strip t)) && leb (text_length t) limit && (t == strip t)

abbrev count_field : String → Mapping → Result ℕ
count_field k m = elim (lookup k m) [ some (int (pos n)) ↦ ok n | _ ↦ err witness_error ]

-- `Certificate.from_dict`: the set of the keys, and then each field. Every refusal is the same error.
unfoldable pub from_dict : Mapping → Result Certificate
unfolding is_hex
from_dict m = do
  require (only_fields m) witness_error
  d ← text_field "deployment_id" (is_plain 128) m
  rationale ← text_field "approval_rationale" (is_plain 1000) m
  generation ← count_field "generation" m
  size ← count_field "image_size" m
  require (ltb 0 size) witness_error
  issued ← count_field "issued_at" m
  permit ← text_field "permit_nonce" is_hex m
  image ← text_field "image_sha256" is_hex m
  config ← text_field "config_sha256" is_hex m
  build ← text_field "build_sha256" is_hex m
  schema ← text_field "schema_sha256" is_hex m
  ok (record {
    deployment_id = d;
    generation = generation;
    permit_nonce = permit;
    image_sha256 = image;
    image_size = size;
    config_sha256 = config;
    build_sha256 = build;
    schema_sha256 = schema;
    issued_at = issued;
    approval_rationale = rationale;
  })
