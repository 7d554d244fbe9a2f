-- ===== src/NodeHandler/Calm.antt =====
-- The calls that leave the hash ring and the rows of the nodes where they are.
use pair_db.Prelude.{
  ℕ, suc, ◌≤◌, true, false, Option, none, some, String, List, [], ◌∷◌, ◌≡◌, refl, ◌∙◌, subst, sym,
  arith, ◌⊎◌, Bool-cases, Option-cases, inl, inr,
}
use pair_db.Topology.{StorageNode, PendingChange}
use pair_db.KeyRanges.{KeyRange}
use pair_db.MetadataStore
use pair_db.MetadataStore.{Database}
use pair_db.MetadataStore.Rows.{
  Stored, KeepsRows, ranges-KeepsRows, update_change-KeepsRows, update_change-rows,
}
use pair_db.NodeHandler.{
  Environment, Cluster, Action, update_store, list_nodes, get_storage_node, send_start, send_stop,
  stream_completed, get_change, updated, finish_change, clear_ranges, clear_all_ranges,
}

-- Between two states the ring is the same, time passes, and no row of a node goes.
pub record Calm (c c' : Cluster) : Type 0 where
  pub same_ring : c'.ring ≡ c.ring
  pub later : c.calls ≤ c'.calls
  pub keeps_rows : (id : String) → Stored id c.store → Stored id c'.store

pub still : (c : Cluster) → Calm c c
still c = record { same_ring = refl; later = omega arith; keeps_rows = λ id h. h }

infixl 5 ◌⨾◌
-- one after the other
pub ◌⨾◌ : {a b c : Cluster} → Calm a b → Calm b c → Calm a c
f ⨾ g = record {
  same_ring = g.same_ring ∙ f.same_ring;
  later = omega (arith, f.later, g.later);
  keeps_rows = λ id h. g.keeps_rows id (f.keeps_rows id h);
}

-- An action is calm.
abbrev pub IsCalm : {A : Type 0} → Action A → Type 0
IsCalm m = (c : Cluster) → Calm c (m c).0

-- a call that changes neither the store nor the ring
called :
    (c c' : Cluster) → c'.ring ≡ c.ring → c'.calls ≡ suc c.calls → c'.store ≡ c.store → Calm c c'
called c c' r n s = record {
  same_ring = r;
  later = omega (arith, n);
  keeps_rows = λ id h. subst (Stored id) (sym s) h;
}

module _ (env : Environment) where
  -- the two ends of a statement
  pub update_store-cases :
      (statement : Database → Option Database) (c : Cluster)
      → (update_store env statement c ≡ (record c { calls = suc c.calls }, false))
        ⊎ ((store : Database) × (statement c.store ≡ some store)
            × (update_store env statement c
                ≡ (record c { calls = suc c.calls; store = store }, true)))
  unfolding update_store
  update_store-cases statement c = elim (Bool-cases (env.reaches c.calls)) [
    | inr failed ↦ inl (rw failed refl)
    | inl reached ↦ elim (Option-cases (statement c.store)) [
      | inl refused ↦ inl (rw (reached, refused) refl)
      | inr (store, e) ↦ inr (store, e, rw (reached, e) refl)
    ]
  ]

  pub update_store-IsCalm :
      (statement : Database → Option Database)
      → KeepsRows statement
      → IsCalm (update_store env statement)
  update_store-IsCalm statement keeps c = elim (update_store-cases statement c) [
    | inl e ↦ rw e (called c (record c { calls = suc c.calls }) refl refl refl)
    | inr (store, done, e) ↦ rw e (record {
      same_ring = refl;
      later = omega arith;
      keeps_rows = λ id h. keeps id c.store store done h;
    })
  ]

  pub list_nodes-IsCalm : IsCalm (list_nodes env)
  unfolding list_nodes
  list_nodes-IsCalm c = called c _ refl refl refl

  pub get_storage_node-IsCalm : (id : String) → IsCalm (get_storage_node env id)
  unfolding get_storage_node list_nodes
  get_storage_node-IsCalm id c = called c _ refl refl refl

  pub send_start-IsCalm :
      (source : String) (target : StorageNode) (ranges : List KeyRange)
      → IsCalm (send_start env source target ranges)
  unfolding send_start
  send_start-IsCalm source target ranges c = called c _ refl refl refl

  pub send_stop-IsCalm : (source target : String) → IsCalm (send_stop env source target)
  unfolding send_stop
  send_stop-IsCalm source target c = called c _ refl refl refl

  pub stream_completed-IsCalm :
      (source target : String) → IsCalm (stream_completed env source target)
  unfolding stream_completed
  stream_completed-IsCalm source target c = called c _ refl refl refl

  pub clear_ranges-IsCalm : (id : String) → IsCalm (clear_ranges env id)
  unfolding clear_ranges
  clear_ranges-IsCalm id =
      update_store-IsCalm (MetadataStore.update_node_ranges id [] []) (ranges-KeepsRows id [] [])

  pub clear_all_ranges-IsCalm : (ids : List String) → IsCalm (clear_all_ranges env ids)
  unfolding clear_all_ranges
  clear_all_ranges-IsCalm [] c = still c
  clear_all_ranges-IsCalm (id ∷ ids) c = clear_ranges-IsCalm id c ⨾ clear_all_ranges-IsCalm ids _

  updated-IsCalm :
      (set : PendingChange → PendingChange) (change : Option PendingChange)
      → IsCalm (updated env set change)
  updated-IsCalm set none c = still c
  updated-IsCalm set (some change) c =
      update_store-IsCalm (MetadataStore.update_pending_change (set change))
        (update_change-KeepsRows (set change)) c

  get_change-IsCalm : (id : String) → IsCalm (get_change env id)
  unfolding get_change
  get_change-IsCalm id c = called c _ refl refl refl

  pub finish_change-IsCalm :
      (set : ℕ → PendingChange → PendingChange) (id : String) → IsCalm (finish_change env set id)
  unfolding finish_change
  finish_change-IsCalm set id c =
      get_change-IsCalm id c
      ⨾ updated-IsCalm (set (env.now (get_change env id c).0.calls)) (get_change env id c).1 _

  updated-rows :
      (set : PendingChange → PendingChange) (change : Option PendingChange) (c : Cluster)
      → (updated env set change c).0.store.storage_nodes ≡ c.store.storage_nodes
  updated-rows set none c = refl
  updated-rows set (some change) c =
      let statement = MetadataStore.update_pending_change (set change) in
      elim (update_store-cases statement c) [
        | inl e ↦ rw e refl
        | inr (store, done, e) ↦ rw e (update_change-rows (set change) c.store store done)
      ]

  -- The end of a change leaves the nodes alone.
  pub finish_change-rows :
      (set : ℕ → PendingChange → PendingChange) (id : String) (c : Cluster)
      → (finish_change env set id c).0.store.storage_nodes ≡ c.store.storage_nodes
  unfolding finish_change get_change
  finish_change-rows set id c =
      updated-rows (set (env.now (get_change env id c).0.calls)) (get_change env id c).1
        (get_change env id c).0
