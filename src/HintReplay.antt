-- ===== src/HintReplay.antt =====
-- `ReplayHintsForNode` of coordinator/internal/service/hint_replay_service.go: the hints of one node in
-- the hint store are replayed in batches. The store's rows for the node are a list, the oldest first, and
-- its reads succeed; `deleted` says for which ids a delete does. The waits between batches and the end of
-- the context are left out.
pub mod Rounds
use pair_db.Prelude.{
  ℕ, suc, zero, String, List, [], ◌∷◌, Bool, true, false, leb, not, str_eq, if◌then◌else◌, ◌&&◌,
  Option, none, some, take, select,
}
use pair_db.VectorClock.{VectorClock}

-- `model.Hint`, as far as the replay reads it
pub record StoredHint : Type 0 where
  pub hint_id : String
  pub tenant_id : String
  pub key : String
  pub value : List ℕ
  pub vector_clock : VectorClock
  pub replay_count : ℕ

pub record HintReplayService : Type 0 where
  pub batch_size : ℕ
  pub max_retries : ℕ

-- DELETE … WHERE hint_id = id
abbrev pub delete_hint : String → List StoredHint → List StoredHint
delete_hint id = select (λ h. not (str_eq h.hint_id id))

-- `sent` tells for which hints the write to the node succeeds.
module _ (sent : StoredHint → Bool) (deleted : String → Bool) (s : HintReplayService) where
  -- Whether the hint is to be deleted: it was replayed, or has no retry left.
  abbrev pub is_finished : StoredHint → Bool
  is_finished hint = if sent hint then true else leb s.max_retries hint.replay_count

  pub replay_one : List StoredHint → StoredHint → List StoredHint
  replay_one hints hint =
      if is_finished hint && deleted hint.hint_id then delete_hint hint.hint_id hints else hints

  pub replay_batch : List StoredHint → List StoredHint → List StoredHint
  unfolding replay_one
  replay_batch hints [] = hints
  replay_batch hints (hint ∷ batch) = replay_batch (replay_one hints hint) batch

  -- The loop, with fuel for the rounds; `none` where the fuel runs out.
  pub replay_rounds : ℕ → List StoredHint → List StoredHint → Option (List StoredHint)
  unfolding replay_batch
  replay_rounds fuel hints [] = some hints
  replay_rounds zero hints (b ∷ batch) = none
  replay_rounds (suc fuel) hints (b ∷ batch) =
      let left = replay_batch hints (b ∷ batch) in replay_rounds fuel left (take s.batch_size left)

  unfoldable pub replay_hints_for_node : ℕ → List StoredHint → Option (List StoredHint)
  unfolding replay_rounds replay_batch replay_one
  replay_hints_for_node fuel hints = replay_rounds fuel hints (take s.batch_size hints)
