-- ===== src/VectorClock/Compare/Causality.antt =====
-- `Compare` decides the causal order.
use pair_db.Prelude.{
  ◌≤◌, String, ◌≡◌, ◌↔◌, refl, [], ◌∷◌, Bool, true, false, arith, Bool-cases, inl, inr, ◌||◌,
}
use pair_db.GoMap.{GoMap, Iteration, lookup}
use pair_db.GoMap.Keys.{OnKeys, OnKeys-at, OnKeys-all, is_some, lookup-add_keys}
use pair_db.Int64.{Int64}
use pair_db.VectorClock.{
  VectorClock, VectorClockComparison, identical, before, after, concurrent, to_map, at_node, ◌≼◌,
}
use pair_db.VectorClock.Compare.{
  Flags, compare_node, compare_nodes, relationship, all_nodes, compare,
}

abbrev Below : GoMap Int64 → GoMap Int64 → String → Type 0
Below map1 map2 k = at_node map1 k ≤ at_node map2 k

module _ (map1 map2 : GoMap Int64) where
  compare_nodes-before :
      (f : Flags) (nodes : GoMap Bool)
      → ((compare_nodes map1 map2 f nodes).all_before ≡ true)
        ↔ ((f.all_before ≡ true) × OnKeys (Below map1 map2) nodes)
  unfolding compare_nodes compare_node
  compare_nodes-before f [] = ground arith
  compare_nodes-before f ((k, _) ∷ nodes) =
      ground (arith, compare_nodes-before (compare_node map1 map2 f k) nodes)

  compare_nodes-after :
      (f : Flags) (nodes : GoMap Bool)
      → ((compare_nodes map1 map2 f nodes).all_after ≡ true)
        ↔ ((f.all_after ≡ true) × OnKeys (Below map2 map1) nodes)
  unfolding compare_nodes compare_node
  compare_nodes-after f [] = ground arith
  compare_nodes-after f ((k, _) ∷ nodes) =
      ground (arith, compare_nodes-after (compare_node map1 map2 f k) nodes)

module _ (range : Iteration) (map1 map2 : GoMap Int64) where
  visited : GoMap Bool
  visited = range.order Bool (all_nodes range map1 map2)

  is_some-visited :
      (k : String)
      → is_some (lookup k visited) ≡ (is_some (lookup k map2) || is_some (lookup k map1))
  unfolding visited all_nodes
  is_some-visited k =
      rw (range.lookup-order Bool k (all_nodes range map1 map2), lookup-add_keys)
        (rw (range.lookup-order Int64 k map2, lookup-add_keys, range.lookup-order Int64 k map1)
          (unfold lookup in ground arith))

  -- A condition on the nodes that are visited is a condition on all nodes: the others are 0 twice.
  OnKeys-visited :
      (P : String → Type 0)
      → ((k : String) → at_node map1 k ≡ at_node map2 k → P k)
      → OnKeys P visited ↔ ((k : String) → P k)
  OnKeys-visited P same = (
    λ h k. elim (Bool-cases (is_some (lookup k visited))) [
      | inl seen ↦ OnKeys-at P visited k h seen
      | inr unseen ↦ same k (ground (arith, is_some-visited k))
    ],
    λ h. OnKeys-all P visited (λ k _. h k),
  )

-- The outcome `r` tells which of `P` and `Q` hold.
abbrev Decides : VectorClockComparison → Type 0 → Type 0 → Type 0
Decides r P Q =
    ((r ≡ identical) ↔ (P × Q))
    × ((r ≡ before) ↔ (P × ¬ Q))
    × ((r ≡ after) ↔ ((¬ P) × Q))
    × ((r ≡ concurrent) ↔ ((¬ P) × ¬ Q))

relationship-Decides :
    (x y : Bool) (P Q : Type 0)
    → (x ≡ true) ↔ P
    → (y ≡ true) ↔ Q
    → Decides (relationship (record { all_before = x; all_after = y })) P Q
unfolding relationship
relationship-Decides true true P Q hp hq =
    let p = hp.0 refl in
    let q = hq.0 refl in
    (
      (λ _. (p, q), λ _. refl),
      (λ e. cc, λ h. absurd (h.1 q)),
      (λ e. cc, λ h. absurd (h.0 p)),
      (λ e. cc, λ h. absurd (h.0 p)),
    )
relationship-Decides true false P Q hp hq =
    let p = hp.0 refl in
    let not_q : ¬ Q = λ q. cc (hq.1 q) in
    (
      (λ e. cc, λ h. absurd (not_q h.1)),
      (λ _. (p, not_q), λ _. refl),
      (λ e. cc, λ h. absurd (h.0 p)),
      (λ e. cc, λ h. absurd (h.0 p)),
    )
relationship-Decides false true P Q hp hq =
    let q = hq.0 refl in
    let not_p : ¬ P = λ p. cc (hp.1 p) in
    (
      (λ e. cc, λ h. absurd (not_p h.0)),
      (λ e. cc, λ h. absurd (h.1 q)),
      (λ _. (not_p, q), λ _. refl),
      (λ e. cc, λ h. absurd (h.1 q)),
    )
relationship-Decides false false P Q hp hq =
    let not_p : ¬ P = λ p. cc (hp.1 p) in
    let not_q : ¬ Q = λ q. cc (hq.1 q) in
    (
      (λ e. cc, λ h. absurd (not_p h.0)),
      (λ e. cc, λ h. absurd (not_p h.0)),
      (λ e. cc, λ h. absurd (not_q h.1)),
      (λ _. (not_p, not_q), λ _. refl),
    )

module _ (range : Iteration) (a b : VectorClock) where
  start : Flags
  start = record { all_before = true; all_after = true }

  finish : Flags
  unfolding visited start
  finish = compare_nodes (to_map a) (to_map b) start (visited range (to_map a) (to_map b))

  finish-before : (finish.all_before ≡ true) ↔ (a ≼ b)
  unfolding finish start
  finish-before =
      let nodes = visited range (to_map a) (to_map b) in
      let split = compare_nodes-before (to_map a) (to_map b) start nodes in
      let all =
        OnKeys-visited range (to_map a) (to_map b) (Below (to_map a) (to_map b))
          (λ k e. omega arith) in
      (λ h. all.0 (split.0 h).1, λ h. split.1 (refl, all.1 h))

  finish-after : (finish.all_after ≡ true) ↔ (b ≼ a)
  unfolding finish start
  finish-after =
      let nodes = visited range (to_map a) (to_map b) in
      let split = compare_nodes-after (to_map a) (to_map b) start nodes in
      let all =
        OnKeys-visited range (to_map a) (to_map b) (Below (to_map b) (to_map a))
          (λ k e. omega arith) in
      (λ h. all.0 (split.0 h).1, λ h. split.1 (refl, all.1 h))

  compare-relationship : compare range a b ≡ relationship finish
  unfolding compare finish visited start
  compare-relationship = refl

  -- Identical: each clock is at most the other. Before, After: one is, the other is not.
  -- Concurrent: neither is.
  pub compare-decides :
      ((compare range a b ≡ identical) ↔ ((a ≼ b) × (b ≼ a)))
      × ((compare range a b ≡ before) ↔ ((a ≼ b) × ¬ (b ≼ a)))
      × ((compare range a b ≡ after) ↔ ((¬ (a ≼ b)) × (b ≼ a)))
      × ((compare range a b ≡ concurrent) ↔ ((¬ (a ≼ b)) × ¬ (b ≼ a)))
  compare-decides = rw compare-relationship (
      relationship-Decides finish.all_before finish.all_after (a ≼ b) (b ≼ a) finish-before
        finish-after)
