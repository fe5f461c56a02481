-- ===== src/Retry/Counters.antt =====
-- The tables `waterline_proposals` and `counters`.
use swap_service.Base.{ℕ, ◌+◌, Option, none, some, List, [], ◌∷◌, ltb, if◌then◌else◌}

-- The proposals of the two chains.
pub record Proposals : Type 0 where
  pub solana : Option ℕ
  pub nexus : Option ℕ

-- `propose_solana_waterline` and `propose_nexus_waterline`: INSERT OR REPLACE.
unfoldable pub propose_solana_waterline : ℕ → Proposals → Proposals
propose_solana_waterline ts p = record p { solana = some ts }

unfoldable pub propose_nexus_waterline : ℕ → Proposals → Proposals
propose_nexus_waterline ts p = record p { nexus = some ts }

-- `get_proposed_solana_waterline` and `get_proposed_nexus_waterline`.
abbrev pub get_proposed_solana_waterline : Proposals → Option ℕ
get_proposed_solana_waterline p = p.solana

abbrev pub get_proposed_nexus_waterline : Proposals → Option ℕ
get_proposed_nexus_waterline p = p.nexus

-- `clear_waterline_proposals`.
abbrev pub clear_waterline_proposals : Proposals → Proposals
clear_waterline_proposals p = record { solana = none; nexus = none }

-- `get_and_clear_proposed_waterlines`.
unfoldable pub get_and_clear_proposed_waterlines : Proposals → (Option ℕ × Option ℕ) × Proposals
get_and_clear_proposed_waterlines p = ((p.solana, p.nexus), clear_waterline_proposals p)

-- `SELECT MAX(reference) FROM processed_sigs WHERE reference IS NOT NULL`, or 0.
unfoldable pub max_reference : List (Option ℕ) → ℕ
max_reference [] = 0
max_reference (none ∷ rs) = max_reference rs
max_reference (some r ∷ rs) = let rest = max_reference rs in if ltb rest r then r else rest

-- `next_reference`, on the references of processed_sigs and the counter's row.
unfoldable pub next_reference : List (Option ℕ) → Option ℕ → ℕ × Option ℕ
next_reference references none = let next = max_reference references + 1 in (next, some next)
next_reference references (some value) = (value + 1, some (value + 1))
