-- ===== src/Disbursement/Columns.antt =====
-- The columns of an archived credit and its payout, as `finalize_nexus_credit` compares them.
use swap_service.Base.{
  String, ◌≡◌, refl, ◌==◌, ap, ◌∙◌, Bool, true, ◌&&◌, Option, none, some, arith, ◌⊎◌, is_empty,
  Bool-cases, inl, inr, string_eq, str_eq_iff, int_beq_iff, option_beq_iff, value_beq_iff, int, pos,
  null, int_eq, option_eq, value_eq,
}
use swap_service.Database.{PendingCredit, ProcessedCredit}
use swap_service.Disbursement.{
  CreditEvidence, PayoutEvidence, payout_evidence, terminal_row, same_terminal, equals, is_payout,
  pending_payout, archived_payout,
}

-- The payout that a credit is archived with: none for a credit without a signature, and otherwise the
-- exact one that the pending row fixed, or, once that row is gone, the one archived before.
abbrev pub IsPayoutOf :
    CreditEvidence → Option PendingCredit → Option ProcessedCredit → PayoutEvidence → Type 0
IsPayoutOf e source terminal p =
    ((is_empty e.sig ≡ true) × (p ≡ record { units = null; fee = null; destination = none }))
    ⊎ ((c : PendingCredit) × (source ≡ some c)
        × (c.sig ≡ some e.sig)
        × (p.units ≡ c.payout_solana_units)
        × (p.fee ≡ c.payout_fee_nexus_units)
        × (p.destination ≡ c.receival_account)
        × (p.fee ≡ int (pos e.fee_nexus_units)))
    ⊎ ((t : ProcessedCredit) × (source ≡ none)
        × (terminal ≡ some t)
        × (p.units ≡ t.payout_solana_units)
        × (p.fee ≡ t.payout_fee_nexus_units)
        × (p.destination ≡ t.payout_receival_account)
        × (p.fee ≡ int (pos e.fee_nexus_units)))

-- The columns of the archived row against the evidence; cells as Python compares them.
abbrev pub HasEvidence : CreditEvidence → PayoutEvidence → ProcessedCredit → Type 0
HasEvidence e p t =
    (t.txid ≡ e.txid)
    × (t.contract_id ≡ e.contract_id)
    × (equals t.timestamp e.timestamp ≡ true)
    × (equals t.amount_usdd e.amount_usdd ≡ true)
    × (equals t.amount_usdd_units (int (pos e.amount_usdd_units)) ≡ true)
    × (t.from_address ≡ some e.from_address)
    × (t.to_address ≡ some e.to_address)
    × (t.owner ≡ some e.owner)
    × (t.sig ≡ some e.sig)
    × (t.status ≡ some e.status)
    × (equals t.payout_solana_units p.units ≡ true)
    × (equals t.payout_fee_nexus_units p.fee ≡ true)
    × (t.payout_receival_account ≡ p.destination)

and_seven :
    (a b c d e f g : Bool)
    → (a && b && c && d && e && f && g) ≡ true
    → (a ≡ true) × (b ≡ true) × (c ≡ true) × (d ≡ true) × (e ≡ true) × (f ≡ true) × (g ≡ true)
and_seven a b c d e f g h = ground (arith, h)

same_terminal-columns :
    (t u : ProcessedCredit)
    → same_terminal t u ≡ true
    → ((t.txid == u.txid) ≡ true)
      × ((t.contract_id == u.contract_id) ≡ true)
      × (equals t.timestamp u.timestamp ≡ true)
      × (equals t.amount_usdd u.amount_usdd ≡ true)
      × (equals t.amount_usdd_units u.amount_usdd_units ≡ true)
      × ((t.from_address == u.from_address) ≡ true)
      × ((t.to_address == u.to_address) ≡ true)
      × ((t.owner == u.owner) ≡ true)
      × ((t.sig == u.sig) ≡ true)
      × ((t.status == u.status) ≡ true)
      × (equals t.payout_solana_units u.payout_solana_units ≡ true)
      × (equals t.payout_fee_nexus_units u.payout_fee_nexus_units ≡ true)
      × ((t.payout_receival_account == u.payout_receival_account) ≡ true)
same_terminal-columns t u h =
    let first =
      (t.txid == u.txid)
      && (t.contract_id == u.contract_id)
      && equals t.timestamp u.timestamp
      && equals t.amount_usdd u.amount_usdd
      && equals t.amount_usdd_units u.amount_usdd_units
      && (t.from_address == u.from_address)
      && (t.to_address == u.to_address) in
    let (k, i, j, l, m, n, o) =
      and_seven first (t.owner == u.owner) (t.sig == u.sig) (t.status == u.status)
        (equals t.payout_solana_units u.payout_solana_units)
        (equals t.payout_fee_nexus_units u.payout_fee_nexus_units)
        (t.payout_receival_account == u.payout_receival_account) h in
    let (a, b, c, d, e, f, g) =
      and_seven (t.txid == u.txid) (t.contract_id == u.contract_id) (equals t.timestamp u.timestamp)
        (equals t.amount_usdd u.amount_usdd) (equals t.amount_usdd_units u.amount_usdd_units)
        (t.from_address == u.from_address) (t.to_address == u.to_address) k in
    (a, b, c, d, e, f, g, i, j, l, m, n, o)

pub same_terminal-HasEvidence :
    (e : CreditEvidence) (p : PayoutEvidence) (t : ProcessedCredit)
    → same_terminal t (terminal_row e p) ≡ true
    → HasEvidence e p t
same_terminal-HasEvidence e p t h =
    let (a, b, c, d, f, g, i, j, k, l, m, n, o) = same_terminal-columns t (terminal_row e p) h in
    (
      (str_eq_iff t.txid e.txid).0 a,
      (int_beq_iff t.contract_id e.contract_id).0 b,
      c,
      d,
      f,
      (option_beq_iff t.from_address (some e.from_address)).0 g,
      (option_beq_iff t.to_address (some e.to_address)).0 i,
      (option_beq_iff t.owner (some e.owner)).0 j,
      (option_beq_iff t.sig (some e.sig)).0 k,
      (option_beq_iff t.status (some e.status)).0 l,
      m,
      n,
      (option_beq_iff t.payout_receival_account p.destination).0 o,
    )

is_payout-fee :
    (e : CreditEvidence) (o : Option String) (p : PayoutEvidence)
    → is_payout e o p ≡ true
    → (o ≡ some e.sig) × (p.fee ≡ int (pos e.fee_nexus_units))
is_payout-fee e o p h =
    ground
      (arith, h, option_beq_iff o (some e.sig), value_beq_iff p.fee (int (pos e.fee_nexus_units)))

pub payout_evidence-IsPayoutOf :
    (e : CreditEvidence) (source : Option PendingCredit) (terminal : Option ProcessedCredit)
    (p : PayoutEvidence)
    → payout_evidence e source terminal ≡ some p
    → IsPayoutOf e source terminal p
unfolding payout_evidence
payout_evidence-IsPayoutOf e (some c) terminal p h = elim (Bool-cases (is_empty e.sig)) [
  | inl b ↦ ground (arith, b, h)
  | inr b ↦
      let is : is_payout e c.sig (pending_payout c) ≡ true = ground (arith, b, h) in
      let same : p ≡ pending_payout c = ground (arith, b, h) in
      let (sig, fee) = is_payout-fee e c.sig (pending_payout c) is in
      inr (
        inl (
          c,
          refl,
          sig,
          ap (λ x. x.units) same,
          ap (λ x. x.fee) same,
          ap (λ x. x.destination) same,
          ap (λ x. x.fee) same ∙ fee,
        ))
]
payout_evidence-IsPayoutOf e none none p h = ground (arith, h)
payout_evidence-IsPayoutOf e none (some t) p h = elim (Bool-cases (is_empty e.sig)) [
  | inl b ↦ ground (arith, b, h)
  | inr b ↦
      let is : is_payout e (some e.sig) (archived_payout t) ≡ true = ground (arith, b, h) in
      let same : p ≡ archived_payout t = ground (arith, b, h) in
      let (_, fee) = is_payout-fee e (some e.sig) (archived_payout t) is in
      inr (
        inr (
          t,
          refl,
          refl,
          ap (λ x. x.units) same,
          ap (λ x. x.fee) same,
          ap (λ x. x.destination) same,
          ap (λ x. x.fee) same ∙ fee,
        ))
]
