-- ===== src/SkipList/Refines.antt =====
-- The skip list implements a map from keys to values.
use pair_db.Prelude.{
  ◌>>=◌, ℕ, ◌+◌, Option, none, some, Bool, if◌then◌else◌, List, [], ◌∷◌, ◌≡◌, refl, arith, ap, ◌∙◌,
}
use pair_db.Bytes.{Bytes, bytes_eq}
use pair_db.SkipList.{SkipList, search_key, insert_key, delete_key, new_skip_list}
use pair_db.SkipList.View.{view}
use pair_db.SkipList.Valid.{IsOrder, search-IsOrder, new_skip_list-IsOrder}
use pair_db.SkipList.InsertKey.{insert-Inserted}
use pair_db.SkipList.DeleteKey.{delete-Deleted}

pub data Operation (V : Type 0) : Type 0 where
  put : (ℕ → Bool) → Bytes → V → Operation V
  remove : Bytes → Operation V

abbrev pub Table : Type 0 → Type 0
Table V = Bytes → Option V

module _ {V : Type 0} where
  -- The operations on the list, and on a map.
  unfoldable pub run : List (Operation V) → SkipList V → Option (SkipList V)
  run [] s = some s
  run (put flips key value ∷ ops) s = insert_key flips key value s >>= λ s'. run ops s'
  run (remove key ∷ ops) s = delete_key key s >>= λ r. run ops r.0

  abbrev pub replay : List (Operation V) → Table V → Table V
  replay [] table = table
  replay (put flips key value ∷ ops) table =
      replay ops (λ j. if bytes_eq key j then some value else table j)
  replay (remove key ∷ ops) table = replay ops (λ j. if bytes_eq key j then none else table j)

  replay-same :
      (ops : List (Operation V)) (t t' : Table V)
      → ((j : Bytes) → t j ≡ t' j)
      → (j : Bytes) → replay ops t j ≡ replay ops t' j
  replay-same [] t t' e j = e j
  replay-same (put flips key value ∷ ops) t t' e j = replay-same ops _ _ (λ k. rw (e k) refl) j
  replay-same (remove key ∷ ops) t t' e j = replay-same ops _ _ (λ k. rw (e k) refl) j

  -- On a valid list no operation panics, and the results stand for the same table.
  run_lem :
      (ops : List (Operation V)) (s : SkipList V) (order : List ℕ)
      → IsOrder s order
      → (s' : SkipList V) × (order' : List ℕ) × (run ops s ≡ some s')
        × IsOrder s' order'
        × ((j : Bytes) → view s'.nodes order' j ≡ replay ops (view s.nodes order) j)
  unfolding run
  run_lem [] s order v = (s, order, refl, v, λ j. refl)
  run_lem (put flips key value ∷ ops) s order v =
      let here =
        insert-Inserted (s.size + 1) flips key value s order v (omega (arith, v.counted)) in
      let rest = run_lem ops here.0 here.1 here.3.0 in
      let step : insert_key flips key value s ≡ some here.0 = unfold insert_key in here.2 in
      (rest.0, rest.1, rw step rest.2, rest.3, λ j. rest.4 j ∙ replay-same ops _ _ here.3.1 j)
  run_lem (remove key ∷ ops) s order v =
      let here = delete-Deleted (s.size + 1) key s order v (omega (arith, v.counted)) in
      let rest = run_lem ops here.0 here.2 here.4.0 in
      let step : delete_key key s ≡ some (here.0, here.1) = unfold delete_key in here.3 in
      (rest.0, rest.1, rw step rest.2, rest.3, λ j. rest.4 j ∙ replay-same ops _ _ here.4.1 j)

  -- After any inserts and deletes the list is valid, and Search gives for each key what a map gives
  -- after the same operations.
  pub run-refines :
      (ops : List (Operation V))
      → (s : SkipList V) × (run ops new_skip_list ≡ some s)
        × ((order : List ℕ) × IsOrder s order)
        × ((key : Bytes) → search_key s key ≡ some (replay ops (λ _. none) key))
  unfolding search_key view
  run-refines ops =
      let done = run_lem ops new_skip_list [] (new_skip_list-IsOrder V) in
      (
        done.0,
        done.2,
        (done.1, done.3),
        λ key.
            search-IsOrder done.0 done.1 (done.0.size + 1) key done.3
              (omega (arith, done.3.counted))
            ∙ ap some (
                done.4 key
                ∙ replay-same ops (view new_skip_list.nodes []) (λ _. none) (λ j. refl) key),
      )
