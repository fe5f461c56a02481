-- ===== src/Retry/Tests.antt =====
-- Runs of the bookkeeping, and its theorems at concrete tables.
use swap_service.Base.{
  ℕ, List, inl, inr, ap, ◌∙◌, arith, ◌+◌, ◌≡◌, refl, true, false, none, some, [], ◌∷◌,
}
use swap_service.Retry.{
  Reservation, Attempt, reserve_action, is_reserved, should_attempt, record_attempt,
  get_attempt_count, max_reference, next_reference, cleanup_expired_reservations,
  get_and_clear_proposed_waterlines, propose_solana_waterline,
}
use swap_service.Retry.Exclusion.{
  reserve_excludes, record_attempt_waits, ReservationCall, reserve_call, cleanup_call, release_call,
  run,
}
use swap_service.Retry.References.{
  Numbering, hand_out, store, Reach, here, next, start, IsFresh, next_reference-IsFresh,
}

abbrev old : Reservation
old = record { kind = "debit"; key = "s1"; timestamp = 100 }

abbrev new : Reservation
new = record { kind = "debit"; key = "s1"; timestamp = 500 }

reserve_run : reserve_action "debit" "s1" 300 500 (old ∷ []) ≡ (true, new ∷ [])
unfolding reserve_action
reserve_run = refl

-- Others reserve, clean up and release in between.
abbrev others : List (ℕ × ReservationCall)
others =
    (550, reserve_call "debit" "s2" 300)
    ∷ (600, cleanup_call 300)
    ∷ (650, release_call "debit" "s2")
    ∷ []

reserve_excludes_example :
    (is_reserved "debit" "s1" 300 500 (old ∷ []) ≡ false)
    × (is_reserved "debit" "s1" 300 700 (run others (new ∷ [])) ≡ true)
    × (reserve_action "debit" "s1" 300 700 (run others (new ∷ [])) ≡ (false, run others (new ∷ [])))
reserve_excludes_example =
    reserve_excludes "debit" "s1" 300 300 500 700 others (old ∷ []) (new ∷ []) reserve_run
      (omega arith, (omega arith, (refl, tt))) (omega arith)

-- A clean-up by a shorter time to live drops a reservation that was made for a longer one.
cleaned_run :
    reserve_action "debit" "s1" 600 900 (run ((850, cleanup_call 300) ∷ []) (new ∷ []))
    ≡ (true, record { kind = "debit"; key = "s1"; timestamp = 900 } ∷ [])
unfolding reserve_action cleanup_expired_reservations
cleaned_run = refl

abbrev tried : Attempt
tried = record { action_key = "refund:a"; count = 1; last_timestamp = 50 }

record_attempt_waits_example :
    (get_attempt_count "refund:a" (record_attempt "refund:a" 100 (tried ∷ []))
      ≡ get_attempt_count "refund:a" (tried ∷ []) + 1)
    × (should_attempt "refund:a" 3 300 200 (record_attempt "refund:a" 100 (tried ∷ [])) ≡ false)
record_attempt_waits_example =
    record_attempt_waits "refund:a" 3 300 100 200 (tried ∷ []) (omega arith) (omega arith)

-- One reference is handed out and then stored.
abbrev numbered : Numbering
numbered = record {
  references = some 8 ∷ some 7 ∷ none ∷ [];
  counter = (next_reference (some 7 ∷ none ∷ []) none).1;
  handed = (next_reference (some 7 ∷ none ∷ []) none).0 ∷ [];
}

first_run : next_reference (some 7 ∷ none ∷ []) none ≡ (8, some 8)
unfolding next_reference max_reference
first_run = refl

numbered-Reach : Reach (start (some 7 ∷ none ∷ [])) numbered
numbered-Reach = next (next here (hand_out (start (some 7 ∷ none ∷ [])))) (
    store
      (record (start (some 7 ∷ none ∷ [])) {
        counter = (next_reference (some 7 ∷ none ∷ []) none).1;
        handed = (next_reference (some 7 ∷ none ∷ []) none).0 ∷ [];
      })
      (some 8 ∷ some 7 ∷ none ∷ [])
      (λ r h. elim h [ inl e ↦ inr (inl (ap (λ x. x.0) first_run ∙ e)) | inr k ↦ inl k ]))

next_reference-IsFresh_example :
    IsFresh (next_reference numbered.references numbered.counter).0 numbered
next_reference-IsFresh_example = next_reference-IsFresh (some 7 ∷ none ∷ []) numbered numbered-Reach

waterline_run :
    get_and_clear_proposed_waterlines
      (propose_solana_waterline 40 (record { solana = none; nexus = some 3 }))
    ≡ ((some 40, some 3), record { solana = none; nexus = none })
unfolding get_and_clear_proposed_waterlines propose_solana_waterline
waterline_run = refl
