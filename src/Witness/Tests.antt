-- ===== src/Witness/Tests.antt =====
-- Runs of the witness, and its theorems at concrete stores.
use swap_service.Base.{ℕ, pos, String, ◌≡◌, refl, none, some, [], ◌∷◌, ok, int}
use swap_service.Witness.{
  Certificate, is_hex, ready, claimed, held, Head, Store, Action, claim_permit, find_head,
  append_event, claim,
}
use swap_service.Witness.Permit.{completes, run, permit_once, held_forever}

abbrev nonce : String
nonce = "aaaaaaaaaaaaaaaaaaaaaaaaaaaaaaaaaaaaaaaaaaaaaaaaaaaaaaaaaaaaaaaa"

abbrev permit : String
permit = "0000000000000000000000000000000000000000000000000000000000000001"

abbrev zeros : String
zeros = "0000000000000000000000000000000000000000000000000000000000000000"

abbrev token : String
token = "runtime-token-runtime-token-runtime"

abbrev hash : String → String → Action → ℕ → String
hash prev d action now = permit

abbrev certificate : Certificate
certificate = record {
  deployment_id = "d1";
  generation = 4;
  permit_nonce = permit;
  image_sha256 = permit;
  image_size = 100;
  config_sha256 = permit;
  build_sha256 = permit;
  schema_sha256 = permit;
  issued_at = 10;
  approval_rationale = "first";
}

abbrev ready_head : Head
ready_head = record {
  deployment_id = "d1";
  status = ready;
  generation = 4;
  permit_nonce = permit;
  claim_nonce = none;
  certificate = certificate;
  hold_reason = none;
  event_hash = zeros;
}

abbrev claimed_head : Head
claimed_head = record ready_head { status = claimed; claim_nonce = some nonce; event_hash = permit }

abbrev before : Store
before = record { runtime_token = token; admin_token = none; heads = ready_head ∷ []; events = [] }

abbrev after : Store
after = record before {
  heads = claimed_head ∷ [];
  events =
      record {
        deployment_id = "d1";
        prev_hash = zeros;
        event_hash = permit;
        action = claim_permit 4 nonce permit;
        recorded_at = 20;
      }
      ∷ [];
}

claim_run : claim hash "d1" (int (pos 4)) permit nonce token 20 before ≡ ok (claimed_head, after)
unfolding claim is_hex append_event
claim_run = refl

replay_run :
    claim hash "d1" (int (pos 4)) permit nonce token 30 (run hash [] after)
    ≡ ok (claimed_head, after)
unfolding claim is_hex run
replay_run = refl

permit_once_example : nonce ≡ nonce
permit_once_example =
    permit_once hash "d1" 4 permit permit nonce nonce token token 20 30 before after after
      claimed_head claimed_head [] claim_run replay_run

abbrev held_head : Head
held_head = record claimed_head { status = held; hold_reason = some "stopped" }

abbrev stopped : Store
stopped = record after { heads = held_head ∷ [] }

held_forever_example :
    find_head "d1" (run hash ((40, completes "d1" (int (pos 4)) nonce token) ∷ []) stopped).heads
    ≡ some held_head
held_forever_example =
    held_forever hash "d1" stopped held_head ((40, completes "d1" (int (pos 4)) nonce token) ∷ [])
      refl refl
