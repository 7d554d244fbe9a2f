-- ===== src/Tests/Hints.antt =====
-- Hints.
use pair_db.Prelude.{
  List, arith, String, inl, none, some, ◌+◌, ◌-◌, String, [], ◌∷◌, ◌++◌, true, false, ◌≡◌, refl,
  length, drop, str_eq, if◌then◌else◌,
}
use pair_db.GoMap.{lookup, insert, delete}
use pair_db.HintedHandoff.{
  HintedHandoffService, new_service, store_hint, hints_of, new_hint, Sender, replay_hints_for_node,
}
use pair_db.HintedHandoff.Bounds.{IsValid, new_service-IsValid, store_hint_lem}
use pair_db.HintedHandoff.Survivors.{replay-survivors, survivors}
use pair_db.HintReplay
use pair_db.HintReplay.{StoredHint, HintReplayService}
use pair_db.HintReplay.Rounds.{replay-ends, replay-stuck}
use pair_db.Tests.Data.{entry}

program : Unit {0}
unfolding new_service store_hint replay_hints_for_node lookup insert delete
program = tt

abbrev empty : HintedHandoffService
empty = new_service 1 100

-- a hint for "a" at time 3
abbrev stored : HintedHandoffService
stored = store_hint 3 empty "a" "t" "k" (7 ∷ []) (entry "x" 1)

abbrev refuses : Sender
refuses _ _ _ _ _ = false

abbrev takes : Sender
takes _ _ _ _ _ = true

-- two hints for "a" at time 3, of two tenants with the same key
abbrev twins : HintedHandoffService
twins =
    store_hint 3 (store_hint 3 (new_service 2 100) "a" "t" "k" [] (entry "x" 1)) "a" "u" "k" []
      (entry "x" 1)

replay_run :
    (replay_hints_for_node takes 50 stored "a" ≡ some (record stored { hints = [] }))
    × (replay_hints_for_node takes 50 twins "a" ≡ none)
unfolding program
replay_run = (refl, refl)

store_hint_lem_example :
    IsValid (store_hint 4 stored "a" "t" "l" (8 ∷ []) (entry "x" 2))
    × ((j : String)
        → hints_of (store_hint 4 stored "a" "t" "l" (8 ∷ []) (entry "x" 2)) j ≡ (
            if str_eq "a" j
            then drop (length (hints_of stored "a") + 1 - stored.max_hints) (hints_of stored "a")
              ++ new_hint 4 stored "a" "t" "l" (8 ∷ []) (entry "x" 2) ∷ []
            else hints_of stored j))
store_hint_lem_example =
    store_hint_lem 4 stored "a" "t" "l" (8 ∷ []) (entry "x" 2)
      (store_hint_lem 3 empty "a" "t" "k" (7 ∷ []) (entry "x" 1) (new_service-IsValid 1 100)).0

replay-survivors_example :
    (h' : HintedHandoffService) × (replay_hints_for_node refuses 50 stored "a" ≡ some h')
    × (hints_of h' "a" ≡ survivors refuses 50 "a" 100 (hints_of stored "a"))
unfolding program
replay-survivors_example = replay-survivors refuses 50 "a" stored (tt, tt)

abbrev replayer : HintReplayService
replayer = record { batch_size = 1; max_retries = 3 }

abbrev stored_hint : String → StoredHint
stored_hint id = record {
  hint_id = id;
  tenant_id = "t";
  key = "k";
  value = 7 ∷ [];
  vector_clock = entry "x" 1;
  replay_count = 0;
}

abbrev rows : List StoredHint
rows = stored_hint "h1" ∷ stored_hint "h2" ∷ []

replay-ends_example :
    HintReplay.replay_hints_for_node (λ _. true) (λ _. true) replayer 2 rows ≡ some []
replay-ends_example =
    replay-ends (λ _. true) (λ _. true) replayer rows (λ h. (refl, refl)) (omega arith)

replay-stuck_example :
    HintReplay.replay_hints_for_node (λ _. false) (λ _. true) replayer 5 rows ≡ none
replay-stuck_example =
    replay-stuck (λ _. false) (λ _. true) replayer rows (stored_hint "h1") 5 (inl refl)
      ((λ _. refl), ((λ _. refl), tt)) (omega arith)
