-- ===== src/Cleanup/Safe.antt =====
-- When a change is safe to clean up.
use pair_db.Prelude.{
  ℕ, suc, zero, ◌+◌, ◌≤◌, String, List, [], ◌∷◌, Bool, true, Option, none, some, ◌≡◌, ◌⊎◌, ◌↔◌,
  refl, arith, length, take, select, count_if, length-select, All, inl, inr, Option-cases,
}
use pair_db.GoMap.{GoMap, Iteration}
use pair_db.Topology.{
  StorageNode, TokenRange, PendingChange, StreamingProgress, is_normal, is_completed, is_streamed,
}
use pair_db.Cleanup.{
  Verdict, Refusal, safe, refused, cleaned, completed_time, streaming_source,
  get_replicas_for_range, verify_range, verify_quorum, verify_cleanup_safe, execute_cleanup,
}

verdict-cases : (v : Verdict) → (v ≡ safe) ⊎ ((r : Refusal) × (v ≡ refused r))
verdict-cases safe = inl refl
verdict-cases (refused r) = inr (r, refl)

abbrev pub known : Option (List StorageNode) → List StorageNode
known none = []
known (some nodes) = nodes

count_if-take-select {ℓ} :
    {A : Type ℓ} (p : A → Bool) (n : ℕ) (xs : List A)
    → n ≤ count_if p xs
    → (count_if p (take n (select p xs)) ≡ n) × (length (take n (select p xs)) ≡ n)
count_if-take-select p zero xs h = (refl, refl)
count_if-take-select p (suc n) [] h = absurd (omega (arith, h))
count_if-take-select p (suc n) (x ∷ xs) h =
    ground (arith, count_if-take-select p n xs, count_if-take-select p (suc n) xs)

verify_range_iff :
    (nodes : Option (List StorageNode))
    → (verify_range nodes ≡ true) ↔ (3 ≤ count_if (λ node. is_normal node.state) (known nodes))
unfolding verify_range get_replicas_for_range
verify_range_iff none = ground arith
verify_range_iff (some nodes) =
    let normal : StorageNode → Bool = λ node. is_normal node.state in
    ground (arith, length-select normal nodes, count_if-take-select normal 3 nodes)

verify_quorum_iff :
    (nodes : Option (List StorageNode)) (ranges : List TokenRange)
    → (verify_quorum nodes ranges ≡ true)
      ↔ ((ranges ≡ []) ⊎ (3 ≤ count_if (λ node. is_normal node.state) (known nodes)))
unfolding verify_quorum
verify_quorum_iff nodes [] = ground arith
verify_quorum_iff nodes (r ∷ ranges) =
    ground (arith, verify_quorum_iff nodes ranges, verify_range_iff nodes)

abbrev pub AllStreamed : GoMap StreamingProgress → Type 0
AllStreamed = All (λ e. is_streamed e.1.state ≡ true)

streaming_source_iff : (m : GoMap StreamingProgress) → (streaming_source m ≡ none) ↔ AllStreamed m
unfolding streaming_source
streaming_source_iff [] = (λ _. tt, λ _. refl)
streaming_source_iff ((k, p) ∷ m) = ground (arith, streaming_source_iff m)

module _ (range : Iteration) (grace_period now : ℕ) (nodes : Option (List StorageNode))
    (change : PendingChange) where
  abbrev CanForget : Type 0
  CanForget =
      (is_completed change.status ≡ true)
      × AllStreamed (range.order StreamingProgress change.progress)
      × (completed_time change + grace_period ≤ now)
      × ((change.ranges ≡ []) ⊎ (3 ≤ count_if (λ node. is_normal node.state) (known nodes)))

  safe_iff : (verify_cleanup_safe range grace_period now nodes change ≡ safe) ↔ CanForget
  unfolding verify_cleanup_safe
  safe_iff = ground (
    arith,
    Option-cases (streaming_source (range.order StreamingProgress change.progress)),
    streaming_source_iff (range.order StreamingProgress change.progress),
    verify_quorum_iff nodes change.ranges,
  )

  cleaned_iff :
      (delete_pending_change : String → Bool)
      → (execute_cleanup range grace_period now nodes delete_pending_change change ≡ cleaned) ↔ (
          (verify_cleanup_safe range grace_period now nodes change ≡ safe)
          × (delete_pending_change change.change_id ≡ true))
  unfolding execute_cleanup
  cleaned_iff delete =
      ground (arith, verdict-cases (verify_cleanup_safe range grace_period now nodes change))

  -- A cleanup deletes the change exactly if the change is completed, all its streams are, its grace
  -- period is over, it has no range or three of the listed nodes are NORMAL, and the store's delete
  -- succeeds.
  pub execute_cleanup-cleans :
      (delete_pending_change : String → Bool)
      → (execute_cleanup range grace_period now nodes delete_pending_change change ≡ cleaned) ↔ (
          (is_completed change.status ≡ true)
          × AllStreamed (range.order StreamingProgress change.progress)
          × (completed_time change + grace_period ≤ now)
          × ((change.ranges ≡ []) ⊎ (3 ≤ count_if (λ node. is_normal node.state) (known nodes)))
          × (delete_pending_change change.change_id ≡ true))
  execute_cleanup-cleans delete =
      let split = cleaned_iff delete in
      (
        λ h. let (is, done) = split.0 h in let (a, b, c, d) = safe_iff.0 is in (a, b, c, d, done),
        λ (a, b, c, d, done). split.1 (safe_iff.1 (a, b, c, d), done),
      )
