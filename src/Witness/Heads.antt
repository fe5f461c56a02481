-- ===== src/Witness/Heads.antt =====
-- `Store`: the operations on the heads, each of which appends to the event chain.
use swap_service.Base.{
  ℕ, ◌+◌, pos, String, Bool, true, false, not, ◌&&◌, ◌||◌, Option, none, some, List, [], ◌∷◌, ◌==◌,
  string_eq, ℕ_eq, option_eq, leb, is_some, if◌then◌else◌, Result, ok, err, witness_error,
  integrity_error, runtime_error, ◌>>=◌, ◌>>◌, require, Value, int, strip, is_empty, text_length,
}
use swap_service.Witness.Certificates.{Certificate, Mapping, from_dict, is_hex}

-- `status IN ('ready','claimed','running','held')`.
pub data Status : Type 0 where
  ready claimed running held : Status

-- A row of heads.
pub record Head : Type 0 where
  pub deployment_id : String
  pub status : Status
  pub generation : ℕ
  pub permit_nonce : String
  pub claim_nonce : Option String
  pub certificate : Certificate
  pub hold_reason : Option String
  pub event_hash : String

-- The actions of the event chain with their details.
pub data Action : Type 0 where
  issue : String → String → ℕ → String → Action
  claim_permit : ℕ → String → String → Action
  complete_claim : ℕ → String → Action
  seal_image : ℕ → ℕ → String → String → String → Action
  hold_claim : ℕ → String → String → Action

-- A row of events, with the body that its JSON text renders.
pub record Event : Type 0 where
  pub deployment_id : String
  pub prev_hash : String
  pub event_hash : String
  pub action : Action
  pub recorded_at : ℕ

pub record Store : Type 0 where
  pub runtime_token : String
  pub admin_token : Option String
  pub heads : List Head
  pub events : List Event

abbrev pub same_status : Status → Status → Bool
same_status ready ready = true
same_status claimed claimed = true
same_status running running = true
same_status held held = true
same_status _ _ = false

abbrev pub find_head : String → List Head → Option Head
find_head d [] = none
find_head d (h ∷ hs) = if h.deployment_id == d then some h else find_head d hs

abbrev pub update_head : String → (Head → Head) → List Head → List Head
update_head d f [] = []
update_head d f (h ∷ hs) = (if h.deployment_id == d then f h else h) ∷ update_head d f hs

-- `_authorized`.
abbrev pub authorized : String → Option String → Bool
authorized supplied none = false
authorized supplied (some expected) = supplied == expected

-- `_is_exact_int(generation) and generation >= 0`.
abbrev pub require_generation : Value → Result ℕ
require_generation (int (pos n)) = ok n
require_generation _ = err witness_error

abbrev last_hash : List Event → String
last_hash [] = "0000000000000000000000000000000000000000000000000000000000000000"
last_hash (e ∷ es) = e.event_hash

abbrev has_hash : String → List Event → Bool
has_hash s [] = false
has_hash s (e ∷ es) = (e.event_hash == s) || has_hash s es

abbrev pub find_or_fail : String → Store → Result Head
find_or_fail d w = elim (find_head d w.heads) [ none ↦ err witness_error | some h ↦ ok h ]

-- The row that an operation has written, read back.
abbrev pub read_back : String → Store → Result (Head × Store)
read_back d w = elim (find_head d w.heads) [ none ↦ err runtime_error | some h ↦ ok (h, w) ]

abbrev owns : Head → ℕ → String → Bool
owns h g nonce = (h.generation == g) && (h.claim_nonce == some nonce)

-- The heads that the operations write.
abbrev pub claimed_head : String → String → Head → Head
claimed_head nonce digest h = record h {
  status = claimed;
  claim_nonce = some nonce;
  event_hash = digest;
}

abbrev pub running_head : String → Head → Head
running_head digest h = record h { status = running; event_hash = digest }

abbrev pub sealed_head : Certificate → String → Head → Head
sealed_head cert digest h = record h {
  status = ready;
  generation = cert.generation;
  permit_nonce = cert.permit_nonce;
  claim_nonce = none;
  certificate = cert;
  hold_reason = none;
  event_hash = digest;
}

abbrev pub held_head : String → String → Head → Head
held_head reason digest h = record h {
  status = held;
  hold_reason = some reason;
  event_hash = digest;
}

-- `hash` is the SHA-256 of a hash and of an event's canonical JSON text.
module _ (hash : String → String → Action → ℕ → String) where
  -- `_append_event`; `event_hash` is UNIQUE.
  unfoldable pub append_event : String → Action → ℕ → Store → Result (String × Store)
  append_event d action now w =
      let prev = last_hash w.events in
      let digest = hash prev d action now in
      if has_hash digest w.events
      then err integrity_error
      else ok (
        digest,
        record w {
          events =
              record {
                deployment_id = d;
                prev_hash = prev;
                event_hash = digest;
                action = action;
                recorded_at = now;
              }
              ∷ w.events;
        },
      )

  -- An event and the UPDATE of the head that goes with it.
  abbrev pub advance : String → Action → (String → Head → Head) → ℕ → Store → Result (Head × Store)
  advance d action f now w = append_event d action now w >>= λ (digest, w').
      read_back d (record w' { heads = update_head d (f digest) w'.heads })

  -- `issue_initial`, on a certificate that is given as a mapping.
  unfoldable pub issue_initial :
      Mapping → String → String → String → ℕ → Store → Result (Head × Store)
  unfolding append_event
  issue_initial m actor rationale token now w = do
    require (authorized token w.admin_token) witness_error
    cert ← from_dict m
    require
        (not (is_empty (strip actor))
          && leb (text_length actor) 128
          && not (is_empty (strip rationale))
          && leb (text_length rationale) 1000)
        witness_error
    require (not (is_some (find_head cert.deployment_id w.heads))) witness_error
    append_event cert.deployment_id
          (issue (strip actor) (strip rationale) cert.generation cert.permit_nonce) now w
        >>= λ (digest, w').
            let h : Head = record {
              deployment_id = cert.deployment_id;
              status = ready;
              generation = cert.generation;
              permit_nonce = cert.permit_nonce;
              claim_nonce = none;
              certificate = cert;
              hold_reason = none;
              event_hash = digest;
            } in
            ok (h, record w' { heads = h ∷ w'.heads })

  -- `get_head`.
  unfoldable pub get_head : String → String → Store → Result Head
  get_head d token w = do
    require (authorized token (some w.runtime_token)) witness_error
    require (not (is_empty d)) witness_error
    find_or_fail d w

  -- `claim`.
  unfoldable pub claim :
      String → Value → String → String → String → ℕ → Store → Result (Head × Store)
  unfolding append_event
  claim d generation permit nonce token now w = do
    require (authorized token (some w.runtime_token)) witness_error
    require (is_hex nonce) witness_error
    g ← require_generation generation
    require (is_hex permit) witness_error
    h ← find_or_fail d w
    if same_status h.status claimed
          && (h.generation == g)
          && (h.permit_nonce == permit)
          && (h.claim_nonce == some nonce)
        then ok (h, w)
        else if not (same_status h.status ready)
            || not (h.generation == g)
            || not (h.permit_nonce == permit)
        then err witness_error
        else advance d (claim_permit g nonce permit) (claimed_head nonce) now w

  -- `complete`.
  unfoldable pub complete : String → Value → String → String → ℕ → Store → Result (Head × Store)
  unfolding append_event
  complete d generation nonce token now w = do
    require (authorized token (some w.runtime_token)) witness_error
    require (is_hex nonce) witness_error
    g ← require_generation generation
    h ← find_or_fail d w
    if same_status h.status held
        then err witness_error
        else if not (owns h g nonce)
        then err witness_error
        else if same_status h.status running
        then ok (h, w)
        else if not (same_status h.status claimed)
        then err witness_error
        else advance d (complete_claim g nonce) running_head now w

  -- `seal`.
  unfoldable pub seal :
      String → Value → String → Mapping → String → ℕ → Store → Result (Head × Store)
  unfolding append_event
  seal d generation nonce next token now w = do
    require (authorized token (some w.runtime_token)) witness_error
    require (is_hex nonce) witness_error
    g ← require_generation generation
    cert ← from_dict next
    require ((cert.deployment_id == d) && (cert.generation == g + 1)) witness_error
    h ← find_or_fail d w
    if same_status h.status held
        then err witness_error
        else if not (owns h g nonce)
        then err witness_error
        else if not (same_status h.status running)
        then err witness_error
        else advance d (seal_image g cert.generation nonce cert.permit_nonce cert.image_sha256)
            (sealed_head cert) now w

  -- `hold`.
  unfoldable pub hold :
      String → Value → String → String → String → ℕ → Store → Result (Head × Store)
  unfolding append_event
  hold d generation nonce reason token now w = do
    require (authorized token (some w.runtime_token)) witness_error
    require (is_hex nonce) witness_error
    g ← require_generation generation
    require
        (not (is_empty (strip reason)) && leb (text_length reason) 500 && (reason == strip reason))
        witness_error
    h ← find_or_fail d w
    if not (owns h g nonce)
        then err witness_error
        else if same_status h.status held
        then if h.hold_reason == some reason then ok (h, w) else err witness_error
        else if not (same_status h.status claimed) && not (same_status h.status running)
        then err witness_error
        else advance d (hold_claim g nonce reason) (held_head reason) now w
