-- ===== src/Retry/Exclusion.antt =====
-- Properties of the reservations, and of `record_attempt` with `should_attempt`.
use swap_service.Base.{
  ℕ, ◌+◌, ◌≤◌, ◌<◌, String, ◌≡◌, refl, ap, ◌∙◌, Bool, nat_eq, ◌&&◌, ◌||◌, true, false, some, List,
  [], ◌∷◌, arith, ◌==◌, string_eq, str_eq_iff, Bool-cases, Option-cases, inl, inr,
}
use swap_service.Retry.{
  Reservation, Attempt, drop_expired, has_reservation, reserve_action, is_reserved, is_for,
  release_reservation, cleanup_expired_reservations, attempt_row, count_attempt, should_attempt,
  record_attempt, get_attempt_count,
}

-- The rows of an action that a clean-up keeps are those that still reserve it.
has_reservation-drop_expired :
    (kind key : String) (ttl now : ℕ) (rs : List Reservation)
    → has_reservation kind key (drop_expired now ttl rs) ≡ is_reserved kind key ttl now rs
unfolding is_reserved
has_reservation-drop_expired kind key ttl now [] = refl
has_reservation-drop_expired kind key ttl now (r ∷ rs) =
    ground (arith, has_reservation-drop_expired kind key ttl now rs)

-- The row that was reserved at this time.
unfoldable is_held_since : String → String → ℕ → List Reservation → Bool
is_held_since kind key since [] = false
is_held_since kind key since (r ∷ rs) =
    (is_for kind key r && nat_eq r.timestamp since) || is_held_since kind key since rs

is_held_since-drop_expired :
    (kind key : String) (since ttl t : ℕ) (rs : List Reservation)
    → t ≤ since + ttl
    → is_held_since kind key since rs ≡ true
    → is_held_since kind key since (drop_expired t ttl rs) ≡ true
unfolding is_held_since
is_held_since-drop_expired kind key since ttl t [] h k = cc
is_held_since-drop_expired kind key since ttl t (r ∷ rs) h k =
    ground (arith, h, k, is_held_since-drop_expired kind key since ttl t rs h)

is_held_since-release :
    (kind key k l : String) (since : ℕ) (rs : List Reservation)
    → ((k == kind) && (l == key)) ≡ false
    → is_held_since kind key since rs ≡ true
    → is_held_since kind key since (release_reservation k l rs) ≡ true
unfolding is_held_since release_reservation
is_held_since-release kind key k l since [] h p = cc
is_held_since-release kind key k l since (r ∷ rs) h p = ground (
  arith,
  h,
  p,
  is_held_since-release kind key k l since rs h,
  str_eq_iff r.kind k,
  str_eq_iff r.key l,
  str_eq_iff r.kind kind,
  str_eq_iff r.key key,
  str_eq_iff k kind,
  str_eq_iff l key,
)

is_held_since-is_reserved :
    (kind key : String) (since ttl t : ℕ) (rs : List Reservation)
    → t ≤ since + ttl
    → is_held_since kind key since rs ≡ true
    → is_reserved kind key ttl t rs ≡ true
unfolding is_held_since is_reserved
is_held_since-is_reserved kind key since ttl t [] h k = cc
is_held_since-is_reserved kind key since ttl t (r ∷ rs) h k =
    ground (arith, h, k, is_held_since-is_reserved kind key since ttl t rs h)

-- A call on the table of reservations.
pub data ReservationCall : Type 0 where
  reserve_call : String → String → ℕ → ReservationCall
  cleanup_call : ℕ → ReservationCall
  release_call : String → String → ReservationCall

abbrev pub call : ℕ → ReservationCall → List Reservation → List Reservation
call t (reserve_call kind key ttl) rs = (reserve_action kind key ttl t rs).1
call t (cleanup_call ttl) rs = (cleanup_expired_reservations ttl t rs).1
call t (release_call kind key) rs = release_reservation kind key rs

-- The calls of a history with their times, the first one first.
abbrev pub run : List (ℕ × ReservationCall) → List Reservation → List Reservation
run [] rs = rs
run ((t, c) ∷ cs) rs = run cs (call t c rs)

-- A call that leaves a reservation made at `since` in place: its own time to live has not run out for
-- it, and it does not release it.
abbrev pub Spares : String → String → ℕ → ℕ → ReservationCall → Type 0
Spares kind key since t (reserve_call k l ttl) = t ≤ since + ttl
Spares kind key since t (cleanup_call ttl) = t ≤ since + ttl
Spares kind key since t (release_call k l) = ((k == kind) && (l == key)) ≡ false

abbrev pub AllSpare : String → String → ℕ → List (ℕ × ReservationCall) → Type 0
AllSpare kind key since [] = Unit
AllSpare kind key since ((t, c) ∷ cs) = Spares kind key since t c × AllSpare kind key since cs

is_held_since-call :
    (kind key : String) (since t : ℕ) (c : ReservationCall) (rs : List Reservation)
    → Spares kind key since t c
    → is_held_since kind key since rs ≡ true
    → is_held_since kind key since (call t c rs) ≡ true
unfolding reserve_action cleanup_expired_reservations is_held_since
is_held_since-call kind key since t (reserve_call k l ttl) rs h p =
    let kept = is_held_since-drop_expired kind key since ttl t rs h p in
    elim (Bool-cases (has_reservation k l (drop_expired t ttl rs))) [
      | inl b ↦ ground (arith, b, p)
      | inr b ↦ ground (arith, b, kept)
    ]
is_held_since-call kind key since t (cleanup_call ttl) rs h p =
    is_held_since-drop_expired kind key since ttl t rs h p
is_held_since-call kind key since t (release_call k l) rs h p =
    is_held_since-release kind key k l since rs h p

is_held_since-run :
    (kind key : String) (since : ℕ) (cs : List (ℕ × ReservationCall)) (rs : List Reservation)
    → AllSpare kind key since cs
    → is_held_since kind key since rs ≡ true
    → is_held_since kind key since (run cs rs) ≡ true
is_held_since-run kind key since [] rs h p = p
is_held_since-run kind key since ((t, c) ∷ cs) rs (h, hs) p =
    is_held_since-run kind key since cs (call t c rs) hs
      (is_held_since-call kind key since t c rs h p)

reserved_now :
    (kind key : String) (ttl now : ℕ) (rs rs' : List Reservation)
    → reserve_action kind key ttl now rs ≡ (true, rs')
    → (is_reserved kind key ttl now rs ≡ false) × (is_held_since kind key now rs' ≡ true)
unfolding reserve_action is_held_since
reserved_now kind key ttl now rs rs' g = ground (
  arith,
  g,
  has_reservation-drop_expired kind key ttl now rs,
  str_eq_iff kind kind,
  str_eq_iff key key,
)

-- A granted reservation was over no standing one. After any history of calls that spare it (no
-- reservation or clean-up by whose own time to live it has expired, and no release of it), it stands
-- for every caller by whose time to live it has not expired, and a second reservation by such a
-- caller is refused and changes nothing.
pub reserve_excludes :
    (kind key : String) (ttl ttl' now later : ℕ) (cs : List (ℕ × ReservationCall))
    (rs rs' : List Reservation)
    → reserve_action kind key ttl now rs ≡ (true, rs')
    → AllSpare kind key now cs
    → later ≤ now + ttl'
    → (is_reserved kind key ttl now rs ≡ false)
      × (is_reserved kind key ttl' later (run cs rs') ≡ true)
      × (reserve_action kind key ttl' later (run cs rs') ≡ (false, run cs rs'))
unfolding reserve_action
reserve_excludes kind key ttl ttl' now later cs rs rs' g spare h =
    let (unreserved, made) = reserved_now kind key ttl now rs rs' g in
    let kept = is_held_since-run kind key now cs rs' spare made in
    let stands = is_held_since-is_reserved kind key now ttl' later (run cs rs') h kept in
    let found : has_reservation kind key (drop_expired later ttl' (run cs rs')) ≡ true =
      has_reservation-drop_expired kind key ttl' later (run cs rs') ∙ stands in
    (unreserved, stands, rw found refl)

attempt_row-count_attempt :
    (k : String) (now : ℕ) (rows : List Attempt) (a : Attempt)
    → attempt_row k rows ≡ some a
    → attempt_row k (count_attempt k now rows)
      ≡ some (record a { count = a.count + 1; last_timestamp = now })
attempt_row-count_attempt k now [] a h = cc
attempt_row-count_attempt k now (b ∷ rows) a h = elim (Bool-cases (b.action_key == k)) [
  | inl e ↦
      let same : b ≡ a = ground (arith, h, e) in
      rw (e, e)
        (ap {A = Attempt} (λ z. some (record z { count = z.count + 1; last_timestamp = now })) same)
  | inr e ↦ simp (e, attempt_row-count_attempt k now rows a (ground (arith, h, e)))
]

-- Recording an attempt counts it once, and the action is not tried again before its cooldown is over,
-- whatever its limit. The clock is past 0.
pub record_attempt_waits :
    (k : String) (limit cooldown now later : ℕ) (rows : List Attempt)
    → 0 < now
    → later < now + cooldown
    → (get_attempt_count k (record_attempt k now rows) ≡ get_attempt_count k rows + 1)
      × (should_attempt k limit cooldown later (record_attempt k now rows) ≡ false)
unfolding record_attempt get_attempt_count should_attempt
record_attempt_waits k limit cooldown now later rows p h =
    elim (Option-cases (attempt_row k rows)) [
      | inl n ↦ ground (arith, n, p, h, str_eq_iff k k)
      | inr (a, n) ↦ ground (arith, n, p, h, attempt_row-count_attempt k now rows a n)
    ]
