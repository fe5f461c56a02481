-- ===== src/Return/Exclusive.antt =====
-- One deposit is never both refunded and quarantined.
use swap_service.Base.{
  ℕ, ◌≡◌, ◌⊎◌, refl, sym, subst, inl, inr, ◌==◌, string_eq, str_eq_iff, ◌&&◌, String, false, Option,
  List, [], ◌∷◌, Value, Ensures, Ensures-map, Bool-cases, arith,
}
use swap_service.Database.{Json, PendingDeposit, ReturnedDeposit, Database}
use swap_service.Deposit.{has_returned}
use swap_service.Return.Kinds.{
  ReturnKind, refund, quarantine, returned, set_returned, opposing, put_returned,
}
use swap_service.Return.Intent.{ReturnRequest}
use swap_service.Return.Claim.{frozen_return}
use swap_service.Return.Prepare.{ReturnArguments, prepare}
use swap_service.Return.Outcome.{Unchanged, frozen_database}
use swap_service.Return.Prepared.{WasPrepared, prepare_cases}

-- No source is in both tables.
abbrev pub Exclusive : Database → Type 0
Exclusive db =
    (s : String) → (has_returned s db.refunded_sigs && has_returned s db.quarantined_sigs) ≡ false

has_returned-put :
    (s : String) (r : ReturnedDeposit) (rs : List ReturnedDeposit)
    → has_returned s (put_returned r rs) ≡ has_returned s rs
has_returned-put s r [] = refl
has_returned-put s r (q ∷ qs) = elim (Bool-cases (q.sig == r.sig)) [
  | inl b ↦ ground (arith, b, str_eq_iff q.sig r.sig)
  | inr b ↦ rw b (rw (has_returned-put s r qs) refl)
]

-- The two tables with a row replaced in one of them.
pub put-Exclusive :
    (k : ReturnKind) (r : ReturnedDeposit) (db db' : Database)
    → db'.refunded_sigs ≡ (set_returned k (put_returned r (returned k db)) db).refunded_sigs
    → db'.quarantined_sigs ≡ (set_returned k (put_returned r (returned k db)) db).quarantined_sigs
    → Exclusive db
    → Exclusive db'
put-Exclusive refund r db db' a b h s = rw (a, b, has_returned-put s r db.refunded_sigs) (h s)
put-Exclusive quarantine r db db' a b h s =
    rw (a, b, has_returned-put s r db.quarantined_sigs) (h s)

frozen-Exclusive :
    (q : ReturnRequest) (e : Json) (now : ℕ) (r : PendingDeposit) (db : Database)
    → has_returned q.source_sig (returned (opposing q.kind) db) ≡ false
    → Exclusive db
    → Exclusive (frozen_database q e now r db)
frozen-Exclusive q e now r db n h s = frozen q.kind n
  where
    frozen :
        (k : ReturnKind)
        → has_returned q.source_sig (returned (opposing k) db) ≡ false
        → (has_returned s (set_returned k (frozen_return q e ∷ returned k db) db).refunded_sigs
            && has_returned s
                (set_returned k (frozen_return q e ∷ returned k db) db).quarantined_sigs)
          ≡ false
    frozen refund n = ground (arith, h s, n, str_eq_iff q.source_sig s)
    frozen quarantine n = ground (arith, h s, n, str_eq_iff q.source_sig s)

-- Preparing a return keeps refunds and quarantines apart.
pub prepare-Exclusive :
    (a : ReturnArguments) (cap : Value) (frozen : Option Json) (terms_version refund_fee : Value)
    (now : ℕ) (db : Database)
    → Exclusive db
    → Ensures (λ (res, db'). Exclusive db') (prepare a cap frozen terms_version refund_fee now db)
prepare-Exclusive a cap frozen terms_version refund_fee now db h =
    Ensures-map (λ out. Unchanged out db ⊎ WasPrepared a cap now db out)
      (λ (res, db'). Exclusive db') (prepare a cap frozen terms_version refund_fee now db)
      (λ (res, db') o. elim o [
        | inl (_, _, r, q, _) ↦ λ s. rw (r, q) (h s)
        | inr (q, _, r, _, _, _, _, (e, _, _, _, _, n, _, _, _, _, same)) ↦
            subst Exclusive (sym same) (frozen-Exclusive q e now r db n h)
      ])
      (prepare_cases a cap frozen terms_version refund_fee now db)
