-- ===== src/Coordinator/Write/Hints.antt =====
-- A write that fails at a replica leaves a hint for it.
use pair_db.Prelude.{
  ◌&&◌, Bool, true, false, eq_refl, subst, count_if, ◌<◌, ℕ, String, List, [], ◌∷◌, Option, none,
  some, arith, ◌≡◌, inl, inr, refl, eq_iff, Any, Any-append, str_eq, Bool-cases,
}
use pair_db.VectorClock.{VectorClock}
use pair_db.Topology.{StorageNode}
use pair_db.HintedHandoff.{Hint, HintedHandoffService, hints_of, store_hint, new_hint}
use pair_db.HintedHandoff.Bounds.{hints_of-store_hint}
use pair_db.StorageClient.{Network, StorageResponse, write}
use pair_db.Coordinator.{Arrival}
use pair_db.Coordinator.Write.{
  Fanout, write_node, write_nodes, collect, write_to_replicas_with_hints,
}

abbrev pub is_error : Option StorageResponse → Bool
is_error none = true
is_error (some resp) = false

and-true : (a b : Bool) → (a && b) ≡ true → (a ≡ true) × (b ≡ true)
and-true a b h = ground arith

module _ (net : Network) (now : ℕ) (tenant_id key : String) (value : List ℕ)
    (vc : VectorClock) where
  -- The hint holds this write.
  abbrev pub Holds : Hint → Type 0
  Holds x = (x.tenant_id ≡ tenant_id) × (x.key ≡ key) × (x.value ≡ value) × (x.vector_clock ≡ vc)

  abbrev pub HasHint : HintedHandoffService → String → Type 0
  HasHint h n = Any Holds (hints_of h n)

  -- The client's call for the node returns an error.
  abbrev pub fails : StorageNode → Bool
  fails node = is_error (write net node tenant_id key value vc)

  stored-HasHint :
      (h : HintedHandoffService) (n : String)
      → HasHint (store_hint now h n tenant_id key value vc) n
  stored-HasHint h n =
      rw (hints_of-store_hint, eq_refl)
        (Any-append Holds _ (new_hint now h n tenant_id key value vc ∷ [])
          (inl (refl, refl, refl, refl)))

  store_hint-HasHint :
      (h : HintedHandoffService) (n j : String)
      → HasHint h j
      → HasHint (store_hint now h n tenant_id key value vc) j
  store_hint-HasHint h n j c = elim (Bool-cases (str_eq n j)) [
    | inl same ↦
        subst (λ i. HasHint (store_hint now h n tenant_id key value vc) i) ((eq_iff n j).0 same)
          (stored-HasHint h n)
    | inr other ↦ rw (hints_of-store_hint, other) c
  ]

  collect-HasHint :
      (f : Fanout) (node : StorageNode) (o : Option StorageResponse) (j : String)
      → HasHint f.hints j
      → HasHint (collect net now tenant_id key value vc f node o).hints j
  unfolding collect
  collect-HasHint f node none j h = store_hint-HasHint f.hints node.node_id j h
  collect-HasHint f node (some r) j h = h

  write_nodes-HasHint :
      (nodes : List StorageNode) (f : Fanout) (j : String)
      → HasHint f.hints j
      → HasHint (write_nodes net now tenant_id key value vc f nodes).hints j
  unfolding write_nodes write_node
  write_nodes-HasHint [] f j h = h
  write_nodes-HasHint (node ∷ nodes) f j h =
      let o = write net node tenant_id key value vc in
      write_nodes-HasHint nodes (collect net now tenant_id key value vc f node o) j
        (collect-HasHint f node o j h)

  -- The node fails, and has the given id.
  abbrev pub fails_as : String → StorageNode → Bool
  fails_as n node = str_eq node.node_id n && fails node

  error-HasHint :
      (f : Fanout) (node : StorageNode) (n : String) (o : Option StorageResponse)
      → is_error o ≡ true
      → node.node_id ≡ n
      → HasHint (collect net now tenant_id key value vc f node o).hints n
  unfolding collect
  error-HasHint f node n (some r) e same = absurd (cc e)
  error-HasHint f node n none e same =
      subst (λ i. HasHint (store_hint now f.hints node.node_id tenant_id key value vc) i) same
        (stored-HasHint f.hints node.node_id)

  failed-HasHint :
      (f : Fanout) (node : StorageNode) (n : String)
      → fails_as n node ≡ true
      → HasHint (write_node net now tenant_id key value vc f node).hints n
  unfolding write_node
  failed-HasHint f node n e =
      let (same, error) = and-true (str_eq node.node_id n) (fails node) e in
      error-HasHint f node n (write net node tenant_id key value vc) error
        ((eq_iff node.node_id n).0 same)

  write_nodes-leaves :
      (nodes : List StorageNode) (f : Fanout) (n : String)
      → 0 < count_if (fails_as n) nodes
      → HasHint (write_nodes net now tenant_id key value vc f nodes).hints n
  unfolding write_nodes
  write_nodes-leaves [] f n c = absurd (omega arith)
  write_nodes-leaves (node ∷ nodes) f n c =
      let f' = write_node net now tenant_id key value vc f node in
      elim (Bool-cases (fails_as n node)) [
        | inl e ↦ write_nodes-HasHint nodes f' n (failed-HasHint f node n e)
        | inr e ↦ write_nodes-leaves nodes f' n (rw e at c)
      ]

  -- If the call fails for a replica, a hint with this write is kept for its node, whatever the reply and
  -- whatever the order in which the calls end.
  pub write-leaves_hint :
      (arrival : Arrival) (hints : HintedHandoffService) (replicas : List StorageNode)
      (level n : String)
      → 0 < count_if (fails_as n) replicas
      → HasHint
          (write_to_replicas_with_hints net now tenant_id key value vc arrival hints replicas
            level).0
          n
  unfolding write_to_replicas_with_hints
  write-leaves_hint arrival hints replicas level n c =
      write_nodes-leaves (arrival.order replicas) (record { hints = hints; responses = [] }) n
        (omega (arith, arrival.count_if-order (fails_as n) replicas))
