-- ===== src/Deposit/Decided.antt =====
-- `freeze_solana_deposit_policy_decision` on a deposit that is decided, and the liability.
use swap_service.Base.{
  ◌≡◌, refl, ap, sym, subst, ◌∙◌, ◌≢◌, inl, inr, ◌==◌, string_eq, str_eq_iff, option_beq_iff,
  String, true, Option, none, some, List, [], ◌∷◌, ok, value_error, require, Ensures, >>=-Ensures,
  Ensures-ok, not, ◌&&◌, is_some, option_eq, require-eq-ok, Bool-cases, Option-cases, arith,
}
use swap_service.Database.{DepositHold, Json, PendingDeposit, Database}
use swap_service.Deposit.Evidence.{FrozenDecision, parse_frozen_evidence}
use swap_service.Deposit.Pending.{
  get_deposit, put_deposit, has_source, target_status, frozen_row, read_frozen, freeze_row,
  freeze_decision, get_unresolved_solana_liability_units, has_overlap,
}
use swap_service.Deposit.Freezing.{
  get-put, get-put_other, get-sig, sum_pending-put, IsFrozen, SameSource, has_source-SameSource,
  Keeps,
}

put_self :
    (s : String) (r : PendingDeposit) (rs : List PendingDeposit)
    → get_deposit s rs ≡ some r
    → put_deposit r rs ≡ rs
put_self s r [] h = cc
put_self s r (q ∷ qs) h = elim (Bool-cases (q.sig == s)) [
  | inl b ↦ ground (arith, b, h, str_eq_iff q.sig s, str_eq_iff q.sig r.sig)
  | inr b ↦
      ground
        (arith, b, h, put_self s r qs, get-sig s r qs, str_eq_iff q.sig s, str_eq_iff q.sig r.sig)
]

-- The classification of a row: the row it leaves, and where.
abbrev pub Classified : String → Database → PendingDeposit → FrozenDecision → Database → Type 0
Classified sig db r p' db' =
    (r' : PendingDeposit) × IsFrozen sig p' r'
    × Keeps r r'
    × (get_deposit sig db'.unprocessed_sigs ≡ some r')
    × (db' ≡ record db { unprocessed_sigs = put_deposit r' db.unprocessed_sigs })

module _ (sig status : String) (db : Database) (p : FrozenDecision) (e : Json)
    (r : PendingDeposit) where
  frozen_first :
      get_deposit sig db.unprocessed_sigs ≡ some r
      → parse_frozen_evidence e ≡ ok p
      → p.signature ≡ sig
      → has_source r p ≡ true
      → Classified sig db r p (record db {
        unprocessed_sigs = put_deposit (frozen_row status p e r) db.unprocessed_sigs;
      })
  unfolding frozen_row
  frozen_first g h k s = (
    frozen_row status p e r,
    (e, refl, h, k, s, refl),
    (refl, refl, refl, refl, refl, refl, refl),
    get-put sig r (frozen_row status p e r) db.unprocessed_sigs
        (get-sig sig r db.unprocessed_sigs g) g,
    refl,
  )

module _ (sig : String) (db : Database) (r : PendingDeposit) where
  abbrev pub Leaves : FrozenDecision × Database → Type 0
  Leaves (p, db') = Classified sig db r p db'

  frozen_before :
      (stored : Json)
      → get_deposit sig db.unprocessed_sigs ≡ some r
      → r.policy_evidence ≡ some stored
      → Ensures Leaves (read_frozen sig r stored db)
  unfolding read_frozen
  frozen_before stored g n = >>=-Ensures Leaves (parse_frozen_evidence stored) _ λ q hq.
      >>=-Ensures Leaves
        (require ((q.signature == sig) && has_source r q && (r.policy_decision == some q.decision))
          value_error)
        _
        λ _ c.
          let t = require-eq-ok _ value_error c in
          let a : q.signature ≡ sig = ground (arith, t, str_eq_iff q.signature sig) in
          let b : has_source r q ≡ true = ground (arith, t) in
          let d : r.policy_decision ≡ some q.decision =
            ground (arith, t, option_beq_iff r.policy_decision (some q.decision)) in
          (
            r,
            (stored, n, hq, a, b, d),
            (refl, refl, refl, refl, refl, refl, refl),
            g,
            rw (put_self sig r db.unprocessed_sigs g) refl,
          )

  freeze_row-Ensures :
      (p : FrozenDecision) (e : Json) (o : Option Json)
      → r.policy_evidence ≡ o
      → get_deposit sig db.unprocessed_sigs ≡ some r
      → parse_frozen_evidence e ≡ ok p
      → p.signature ≡ sig
      → has_source r p ≡ true
      → Ensures Leaves (freeze_row sig p e o r db)
  unfolding freeze_row
  freeze_row-Ensures p e none n g h k s =
      >>=-Ensures Leaves (require (not (is_some r.policy_decision)) value_error) _ λ _ _.
        >>=-Ensures Leaves
          (require
            ((r.status == some "ready for processing")
              && not (is_some r.txid)
              && not (is_some r.reference)
              && not (is_some r.amount_usdd_units))
            value_error)
          _
          λ _ _.
            >>=-Ensures Leaves (target_status p.decision) _
              λ status _. frozen_first sig status db p e r g h k s
  freeze_row-Ensures p e (some stored) n g h k s =
      >>=-Ensures Leaves (require (is_some r.policy_decision) value_error) _
        λ _ _. frozen_before stored g n

pub freeze_missing :
    (sig : String) (e : Json) (db : Database) {out : FrozenDecision × Database}
    → get_deposit sig db.unprocessed_sigs ≡ none
    → freeze_decision sig e db ≢ ok out
unfolding freeze_decision
freeze_missing sig e db n f =
    let P : FrozenDecision × Database → Type 0 = λ _. ⊥ in
    Ensures-ok P _
      (>>=-Ensures P (parse_frozen_evidence e) _
        λ p _. >>=-Ensures P (require (p.signature == sig) value_error) _ λ _ _. rw n tt)
      f

is_some-put :
    (s sig : String) (r r' : PendingDeposit) (rs : List PendingDeposit)
    → r'.sig ≡ sig
    → get_deposit sig rs ≡ some r
    → is_some (get_deposit s (put_deposit r' rs)) ≡ is_some (get_deposit s rs)
is_some-put s sig r r' rs e g = elim (Bool-cases (r'.sig == s)) [
  | inl b ↦
      let k = sym e ∙ (str_eq_iff r'.sig s).0 b in
      let g' = subst (λ x. get_deposit x rs ≡ some r) k g in
      ap is_some (get-put s r r' rs ((str_eq_iff r'.sig s).0 b) g') ∙ sym (ap is_some g')
  | inr b ↦ ap is_some (get-put_other s r' rs b)
]

has_overlap-put :
    (sig : String) (r r' : PendingDeposit) (db : Database) (hs : List DepositHold)
    → r'.sig ≡ sig
    → get_deposit sig db.unprocessed_sigs ≡ some r
    → has_overlap hs (record db { unprocessed_sigs = put_deposit r' db.unprocessed_sigs })
      ≡ has_overlap hs db
has_overlap-put sig r r' db [] e g = refl
has_overlap-put sig r r' db (h ∷ hs) e g =
    rw
      (has_overlap-put sig r r' db hs e g, is_some-put h.signature sig r r' db.unprocessed_sigs e g)
      refl

liability-put :
    (sig : String) (r r' : PendingDeposit) (db : Database)
    → get_deposit sig db.unprocessed_sigs ≡ some r
    → Keeps r r'
    → get_unresolved_solana_liability_units
        (record db { unprocessed_sigs = put_deposit r' db.unprocessed_sigs })
      ≡ get_unresolved_solana_liability_units db
unfolding get_unresolved_solana_liability_units
liability-put sig r r' db g (a, _, b, _, _, _, _) =
    let e = a ∙ get-sig sig r db.unprocessed_sigs g in
    rw
      (
        has_overlap-put sig r r' db db.deposit_holds e g,
        sum_pending-put sig r r' db.unprocessed_sigs e b g,
      )
      refl

-- A classification of the row `r` freezes a decision in it, or finds one.
pub freeze-Ensures :
    (sig : String) (e : Json) (db : Database) (r : PendingDeposit)
    → get_deposit sig db.unprocessed_sigs ≡ some r
    → Ensures (Leaves sig db r) (freeze_decision sig e db)
unfolding freeze_decision
freeze-Ensures sig e db r g =
    let P = Leaves sig db r in
    >>=-Ensures P (parse_frozen_evidence e) _ λ p h.
      >>=-Ensures P (require (p.signature == sig) value_error) _ λ _ k. rw g (
        >>=-Ensures P (require (has_source r p) value_error) _ λ _ s.
          freeze_row-Ensures sig db r p e r.policy_evidence refl g h
            ((str_eq_iff p.signature sig).0 (require-eq-ok _ value_error k))
            (require-eq-ok _ value_error s))

-- A later proposal for the same deposit, under any terms, gives the frozen decision back.
pub freeze-IsFrozen :
    (sig : String) (p q : FrozenDecision) (e : Json) (r : PendingDeposit) (db : Database)
    → get_deposit sig db.unprocessed_sigs ≡ some r
    → IsFrozen sig p r
    → parse_frozen_evidence e ≡ ok q
    → q.signature ≡ sig
    → SameSource p q
    → freeze_decision sig e db ≡ ok (p, db)
unfolding freeze_decision freeze_row read_frozen
freeze-IsFrozen sig p q e r db g (stored, n, hp, kp, sp, dp) hq kq same =
    let same_sig : (q.signature == sig) ≡ true = (str_eq_iff q.signature sig).1 kq in
    let same_sig' : (p.signature == sig) ≡ true = (str_eq_iff p.signature sig).1 kp in
    let source : has_source r q ≡ true = sym (has_source-SameSource r p q same) ∙ sp in
    let decided : (r.policy_decision == some p.decision) ≡ true =
      (option_beq_iff r.policy_decision (some p.decision)).1 dp in
    let there : is_some r.policy_decision ≡ true = ap is_some dp in
    simp (hq, same_sig, g, source, n, there, hp, same_sig', sp, decided)

-- After a deposit has been classified, every later proposal for it is answered by the decision
-- that was frozen, whatever terms it was made under, and changes nothing.
pub freeze_again :
    (sig : String) (e e' : Json) (p q : FrozenDecision) (db db' : Database)
    → freeze_decision sig e db ≡ ok (p, db')
    → parse_frozen_evidence e' ≡ ok q
    → q.signature ≡ sig
    → SameSource p q
    → freeze_decision sig e' db' ≡ ok (p, db')
freeze_again sig e e' p q db db' f h k same =
    elim (Option-cases (get_deposit sig db.unprocessed_sigs)) [
      | inl n ↦ absurd (freeze_missing sig e db n f)
      | inr (r, g) ↦
          let (r', frozen, _, g', _) =
            Ensures-ok (Leaves sig db r) _ (freeze-Ensures sig e db r g) f in
          freeze-IsFrozen sig p q e' r' db' g' frozen h k same
    ]

-- A classification neither adds to nor takes from the unresolved liability.
pub liability-freeze :
    (sig : String) (e : Json) (p : FrozenDecision) (db db' : Database)
    → freeze_decision sig e db ≡ ok (p, db')
    → get_unresolved_solana_liability_units db' ≡ get_unresolved_solana_liability_units db
liability-freeze sig e p db db' f = elim (Option-cases (get_deposit sig db.unprocessed_sigs)) [
  | inl n ↦ absurd (freeze_missing sig e db n f)
  | inr (r, g) ↦
      let (r', _, kept, g', same) =
        Ensures-ok (Leaves sig db r) _ (freeze-Ensures sig e db r g) f in
      rw same (liability-put sig r r' db g kept)
]
