-- ===== src/Retry/Actions.antt =====
-- The tables `reservations` and `attempts`.
use swap_service.Base.{
  ℕ, ◌+◌, String, Bool, true, false, not, ◌&&◌, ◌||◌, Option, none, some, List, [], ◌∷◌, ◌==◌,
  string_eq, ltb, leb, nat_eq, if◌then◌else◌,
}

-- A row of reservations, whose key is the kind with the key.
pub record Reservation : Type 0 where
  pub kind : String
  pub key : String
  pub timestamp : ℕ

-- A row of attempts.
pub record Attempt : Type 0 where
  pub action_key : String
  pub count : ℕ
  pub last_timestamp : ℕ

-- `timestamp < now - ttl_sec`, where Python's difference may be negative.
abbrev pub is_expired : ℕ → ℕ → Reservation → Bool
is_expired now ttl r = ltb (r.timestamp + ttl) now

abbrev pub drop_expired : ℕ → ℕ → List Reservation → List Reservation
drop_expired now ttl [] = []
drop_expired now ttl (r ∷ rs) =
    let rest = drop_expired now ttl rs in if is_expired now ttl r then rest else r ∷ rest

abbrev pub is_for : String → String → Reservation → Bool
is_for kind key r = (r.kind == kind) && (r.key == key)

abbrev pub has_reservation : String → String → List Reservation → Bool
has_reservation kind key [] = false
has_reservation kind key (r ∷ rs) = is_for kind key r || has_reservation kind key rs

-- `reserve_action`. A reservation that stands fails the INSERT, and the connection is closed without a
-- commit, so the expired rows stay too.
unfoldable pub reserve_action : String → String → ℕ → ℕ → List Reservation → Bool × List Reservation
reserve_action kind key ttl now rs =
    if has_reservation kind key (drop_expired now ttl rs)
    then (false, rs)
    else (true, record { kind = kind; key = key; timestamp = now } ∷ drop_expired now ttl rs)

-- `release_reservation`.
unfoldable pub release_reservation : String → String → List Reservation → List Reservation
release_reservation kind key [] = []
release_reservation kind key (r ∷ rs) =
    let rest = release_reservation kind key rs in if is_for kind key r then rest else r ∷ rest

-- `is_reserved`.
unfoldable pub is_reserved : String → String → ℕ → ℕ → List Reservation → Bool
is_reserved kind key ttl now [] = false
is_reserved kind key ttl now (r ∷ rs) =
    (is_for kind key r && not (is_expired now ttl r)) || is_reserved kind key ttl now rs

abbrev pub count_expired : ℕ → ℕ → List Reservation → ℕ
count_expired now ttl [] = 0
count_expired now ttl (r ∷ rs) = (if is_expired now ttl r then 1 else 0) + count_expired now ttl rs

-- `cleanup_expired_reservations`.
unfoldable pub cleanup_expired_reservations : ℕ → ℕ → List Reservation → ℕ × List Reservation
cleanup_expired_reservations ttl now rs = (count_expired now ttl rs, drop_expired now ttl rs)

-- `_attempt_row`.
abbrev pub attempt_row : String → List Attempt → Option Attempt
attempt_row k [] = none
attempt_row k (a ∷ as_) = if a.action_key == k then some a else attempt_row k as_

-- `attempts_exhausted`, with the limit that the configuration gives.
unfoldable pub attempts_exhausted : String → ℕ → List Attempt → Bool
attempts_exhausted k max_attempts rows = elim (attempt_row k rows) [
  | none ↦ false
  | some a ↦ leb max_attempts a.count
]

-- `should_attempt`, with the limit and the cooldown that the configuration gives.
unfoldable pub should_attempt : String → ℕ → ℕ → ℕ → List Attempt → Bool
should_attempt k max_attempts cooldown now rows = elim (attempt_row k rows) [
  | none ↦ true
  | some a ↦
      if leb max_attempts a.count
      then false
      else not (not (nat_eq a.last_timestamp 0) && ltb now (a.last_timestamp + cooldown))
]

abbrev pub count_attempt : String → ℕ → List Attempt → List Attempt
count_attempt k now [] = []
count_attempt k now (a ∷ as_) =
    (if a.action_key == k then record a { count = a.count + 1; last_timestamp = now } else a)
    ∷ count_attempt k now as_

-- `record_attempt`.
unfoldable pub record_attempt : String → ℕ → List Attempt → List Attempt
record_attempt k now rows = elim (attempt_row k rows) [
  | none ↦ record { action_key = k; count = 1; last_timestamp = now } ∷ rows
  | some a ↦ count_attempt k now rows
]

-- `get_attempt_count` and `get_attempt_last_timestamp`.
unfoldable pub get_attempt_count : String → List Attempt → ℕ
get_attempt_count k rows = elim (attempt_row k rows) [ none ↦ 0 | some a ↦ a.count ]

unfoldable pub get_attempt_last_timestamp : String → List Attempt → ℕ
get_attempt_last_timestamp k rows = elim (attempt_row k rows) [
  | none ↦ 0
  | some a ↦ a.last_timestamp
]

-- `reset_attempts`.
unfoldable pub reset_attempts : String → List Attempt → List Attempt
reset_attempts k [] = []
reset_attempts k (a ∷ as_) =
    let rest = reset_attempts k as_ in if a.action_key == k then rest else a ∷ rest
