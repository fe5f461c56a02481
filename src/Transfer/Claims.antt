-- ===== src/Transfer/Claims.antt =====
-- Properties of `claim`, the claim of the one remote debit of a transfer intent.
use swap_service.Base.{
  ℕ, String, ◌≡◌, ap, ◌∙◌, ◌≢◌, true, some, List, arith, Option-cases, inl, inr, ok, subst,
}
use mathlib.Core.Option
use swap_service.Database.{Database, TransferIntent, IntentStatus, authorized, executing}
use swap_service.Transfer.{
  claim, claim_row, get_intent, update_intent, same_status, has_exact_held_source,
  has_matching_audit,
}
use swap_service.Transfer.Status.{Evolves, Advances, get-update_intent}
use swap_service.Transfer.Advance.{claim_row-Evolves}
use swap_service.Transfer.History.{Call, run, run-Progress}
use swap_service.Transfer.Progress.{Progress}

abbrev pub claimed_row : ℕ → TransferIntent → TransferIntent
claimed_row now i = record i { status = executing; last_attempt_timestamp = some now }

authorized_only : (s : IntentStatus) → same_status s authorized ≡ true → s ≡ authorized
authorized_only s h = ground arith

claim_row_id : (now : ℕ) (i : TransferIntent) → (claim_row now i).id ≡ i.id
claim_row_id now i = (claim_row-Evolves now i).same_id

-- A claim grants an intent only if it was authorized, its source is still exactly held and its
-- execution request is audited; the intent is then executing, and stored so.
pub claim_granted :
    (id : String) (now : ℕ) (db db' : Database) (i : TransferIntent)
    → claim id now db ≡ ok (some i, db')
    → (before : TransferIntent) × (get_intent id db.transfer_intents ≡ some before)
      × (before.status ≡ authorized)
      × (has_exact_held_source db before.request ≡ true)
      × (has_matching_audit "execution_requested" before db.audit_events ≡ true)
      × (i ≡ claimed_row now before)
      × (get_intent id db'.transfer_intents ≡ some i)
unfolding claim
claim_granted id now db db' i h = elim (Option-cases (get_intent id db.transfer_intents)) [
  | inl k ↦ ground (arith, h, k)
  | inr (before, k) ↦
      let stored : get_intent id (update_intent id (claim_row now) db.transfer_intents)
          ≡ some (claim_row now before) =
        get-update_intent id (claim_row now) (claim_row_id now) db.transfer_intents
        ∙ ap (Option.map (claim_row now)) k in
      (
        before,
        k,
        ground (arith, h, k, authorized_only before.status),
        ground (arith, h, k),
        ground (arith, h, k),
        ground (arith, h, k, stored),
        ground (arith, h, k, stored),
      )
]

-- Once a claim is granted, no later history of operations and restarts lets the intent be claimed
-- again: its remote debit is sent at most once.
pub claim_once :
    (digest : String → String) (id : String) (now later : ℕ) (db db₁ db₂ : Database)
    (i j : TransferIntent) (cs : List (ℕ × Call))
    → claim id now db ≡ ok (some i, db₁)
    → claim id later (run digest cs db₁) ≢ ok (some j, db₂)
unfolding Progress
claim_once digest id now later db db₁ db₂ i j cs first second =
    let (before, _, _, _, _, is_claimed, stored) = claim_granted id now db db₁ i first in
    let (again, found, is_authorized, _, _, _, _) =
      claim_granted id later (run digest cs db₁) db₂ j second in
    stuck i again (ap (λ z. z.status) is_claimed) is_authorized (
      subst (λ z. Advances z (some again)) stored
        (subst (λ z. Advances (get_intent id db₁.transfer_intents) z) found
          (run-Progress digest cs db₁ id)))
  where
    stuck : (i j : TransferIntent) → i.status ≡ executing → j.status ≡ authorized → Evolves i j → ⊥
    stuck i j a b e = ground (arith, a, b, e.forward)
