-- ===== src/NodeHandler/Added.antt =====
-- What a request to add a node leaves behind.
use pair_db.Prelude.{
  ℕ, suc, Bool, false, Option, none, some, String, str_eq, eq_refl, eq_iff, ◌==◌, if◌then◌else◌,
  ◌⊎◌, List, [], ◌∷◌, ◌≡◌, refl, arith, Bool-cases, Option-cases, inl, inr, ◌∙◌, ap,
}
use pair_db.Bytes.{Bytes}
use pair_db.ByteMap.{ByteMap}
use pair_db.Ring.{ConsistentHasher}
use pair_db.NodeHandler.Unrecorded.{update_node-changes}
use pair_db.Topology.{StorageNode, PendingChange}
use pair_db.KeyRanges.{KeyRange, calculate_key_ranges_for_new_node}
use pair_db.MetadataStore
use pair_db.MetadataStore.{
  Database, NodeRow, find_row, insert_row, find_change, change_row, is_valid_row, is_change_type,
  update_node_ranges, add_pending_change, set_ranges,
}
use pair_db.MetadataStore.Rows.{add_change-rows, find_row-update_node, set_ranges-KeepsKey}
use pair_db.NodeHandler.{
  Environment, Cluster, Assignments, invalid_argument, internal, get_storage_node, list_nodes,
  send_start,
}
use pair_db.NodeHandler.Addition.{
  AddStorageNodeRequest, AddResponse, refused, added, new_node, pending_ranges, bootstrap_change,
  start_source, start_sources, add_change, add_ranges, add_valid, add_storage_node,
}
use pair_db.NodeHandler.Calm.{update_store-cases}

find_row-insert_row :
    (before : String → String → Bool) (row : NodeRow) (rows : List NodeRow)
    → find_row row.node.node_id rows ≡ none
    → find_row row.node.node_id (insert_row before row rows) ≡ some row
unfolding find_row insert_row
find_row-insert_row before row [] free = ground (arith, eq_refl row.node.node_id)
find_row-insert_row before row (r ∷ rows) free =
    ground (arith, eq_refl row.node.node_id, find_row-insert_row before row rows)

add-stores :
    (before : String → String → Bool) (node : StorageNode) (db db' : Database)
    → MetadataStore.add_storage_node before node db ≡ some db'
    → (find_row node.node_id db.storage_nodes ≡ none)
      × (find_row node.node_id db'.storage_nodes
          ≡ some (record { node = node; pending_ranges = []; leaving_ranges = [] }))
unfolding MetadataStore.add_storage_node
add-stores before node db db' e =
    let row : NodeRow = record { node = node; pending_ranges = []; leaving_ranges = [] } in
    elim (Option-cases (find_row node.node_id db.storage_nodes)) [
      | inr (old, found) ↦ absurd (ground (arith, found))
      | inl absent ↦ elim (Bool-cases (is_valid_row node)) [
        | inl valid ↦
            let rows : db'.storage_nodes ≡ insert_row before row db.storage_nodes =
              ground (arith, absent, valid) in
            (absent, rw rows (find_row-insert_row before row db.storage_nodes absent))
        | inr invalid ↦ absurd (ground (arith, absent, invalid))
      ]
    ]

find_row-insert_other :
    (before : String → String → Bool) (row : NodeRow) (id : String) (rows : List NodeRow)
    → str_eq row.node.node_id id ≡ false
    → find_row id (insert_row before row rows) ≡ find_row id rows
unfolding find_row insert_row
find_row-insert_other before row id [] other = rw other refl
find_row-insert_other before row id (r ∷ rows) other =
    ground (arith, other, find_row-insert_other before row id rows other)

add-keeps :
    (before : String → String → Bool) (node : StorageNode) (db db' : Database)
    → MetadataStore.add_storage_node before node db ≡ some db'
    → (db'.pending_changes ≡ db.pending_changes)
      × ((id : String)
          → str_eq node.node_id id ≡ false
          → find_row id db'.storage_nodes ≡ find_row id db.storage_nodes)
unfolding MetadataStore.add_storage_node
add-keeps before node db db' e =
    let row : NodeRow = record { node = node; pending_ranges = []; leaving_ranges = [] } in
    elim (Option-cases (find_row node.node_id db.storage_nodes)) [
      | inr (old, found) ↦ absurd (ground (arith, found))
      | inl absent ↦ elim (Bool-cases (is_valid_row node)) [
        | inl valid ↦
            let rows : db'.storage_nodes ≡ insert_row before row db.storage_nodes =
              ground (arith, absent, valid) in
            (
              ground (arith, absent, valid),
              λ id other. rw rows (find_row-insert_other before row id db.storage_nodes other),
            )
        | inr invalid ↦ absurd (ground (arith, absent, invalid))
      ]
    ]

add_change-stores :
    (change : PendingChange) (db db' : Database)
    → add_pending_change change db ≡ some db'
    → db'.pending_changes ≡ change_row change ∷ db.pending_changes
unfolding add_pending_change
add_change-stores change db db' e =
    elim (Option-cases (find_change change.change_id db.pending_changes)) [
      | inr (old, taken) ↦ absurd (ground (arith, taken))
      | inl free ↦ elim (Option-cases (find_row change.node_id db.storage_nodes)) [
        | inl absent ↦ absurd (ground (arith, free, absent))
        | inr (row, found) ↦ elim (Bool-cases (is_change_type change.type)) [
          | inl valid ↦ ground (arith, free, found, valid)
          | inr invalid ↦ absurd (ground (arith, free, found, invalid))
        ]
      ]
    ]

module _ (env : Environment) where
  start_source-still :
      (node : StorageNode) (old_node : String) (ranges : List KeyRange) (found : Option StorageNode)
      (c : Cluster)
      → let c' = (start_source env node old_node ranges found c).0 in
        (c'.store ≡ c.store) × (c'.ring ≡ c.ring)
  unfolding send_start
  start_source-still node old_node ranges none c = (refl, refl)
  start_source-still node old_node ranges (some found) c = (refl, refl)

  pub start_sources-still :
      (node : StorageNode) (assignments : Assignments) (c : Cluster)
      → let c' = (start_sources env node assignments c).0 in
        (c'.store ≡ c.store) × (c'.ring ≡ c.ring)
  unfolding start_sources get_storage_node list_nodes
  start_sources-still node [] c = (refl, refl)
  start_sources-still node ((old_node, ranges) ∷ rest) c =
      let (c1, found) = get_storage_node env old_node c in
      let one = start_source-still node old_node ranges found c1 in
      let others =
        start_sources-still node rest (start_source env node old_node ranges found c1).0 in
      (others.0 ∙ one.0, others.1 ∙ one.1)

  -- The ring and the rows of all other nodes are as they were.
  abbrev pub Framed : StorageNode → Cluster → Cluster → Type 0
  Framed node c c' =
      (c'.ring ≡ c.ring)
      × ((id : String)
          → find_row id c'.store.storage_nodes ≡ (
              if str_eq node.node_id id
              then find_row id c'.store.storage_nodes
              else find_row id c.store.storage_nodes))

  abbrev Others : StorageNode → Cluster → Cluster → Type 0
  Others node c c' =
      (id : String)
      → str_eq node.node_id id ≡ false
      → find_row id c'.store.storage_nodes ≡ find_row id c.store.storage_nodes

  framed :
      (node : StorageNode) (c c' : Cluster) → c'.ring ≡ c.ring → Others node c c' → Framed node c c'
  framed node c c' ring others = (
    ring,
    λ id. elim (Bool-cases (str_eq node.node_id id)) [
      | inl e ↦ rw e refl
      | inr e ↦ rw e (others id e)
    ],
  )

  -- The request lacks the node's id, its host or its port.
  abbrev pub IsIncomplete : AddStorageNodeRequest → Type 0
  IsIncomplete req = (req.node_id ≡ "") ⊎ ((req.host ≡ "") ⊎ (req.port ≡ 0))

  module _ (encode : String → Bytes) (hash : Bytes → ℕ) (order : ByteMap ℕ → ByteMap ℕ)
      (visit : ByteMap (List KeyRange) → Assignments) (node : StorageNode) (begin : Cluster) where
    -- the ranges that move to the node on the ring that there is
    abbrev moved : Assignments
    moved = visit (
        calculate_key_ranges_for_new_node hash order begin.ring (encode node.node_id)
          node.virtual_nodes)

    -- What holds after each response to a complete request for the node.
    abbrev pub Answers : AddResponse → Cluster → Type 0
    Answers (refused code) c' =
        (code ≡ internal)
        × Framed node begin c'
        × (c'.store.pending_changes ≡ begin.store.pending_changes)
    Answers (added n count change_id assignments) c' =
        (n ≡ node)
        × (assignments ≡ moved)
        × Framed node begin c'
        × (find_row node.node_id begin.store.storage_nodes ≡ none)
        × (find_row node.node_id c'.store.storage_nodes
            ≡ some (record {
              node = node;
              pending_ranges = pending_ranges node.node_id moved;
              leaving_ranges = [];
            }))
        × ((now : ℕ) × (c'.store.pending_changes
              ≡ change_row (bootstrap_change change_id node.node_id now moved)
                ∷ begin.store.pending_changes))

    -- once the ranges are stored
    add_change-Answers :
        (c : Cluster)
        → find_row node.node_id begin.store.storage_nodes ≡ none
        → c.ring ≡ begin.ring
        → Others node begin c
        → c.store.pending_changes ≡ begin.store.pending_changes
        → find_row node.node_id c.store.storage_nodes
          ≡ some (record {
            node = node;
            pending_ranges = pending_ranges node.node_id moved;
            leaving_ranges = [];
          })
        → let r = add_change env encode hash order visit node moved c in Answers r.1 r.0
    add_change-Answers c free ring others changes row =
        let now = env.now c.calls in
        let change_id = env.change_id_of "bootstrap" node.node_id now in
        let change = bootstrap_change change_id node.node_id now moved in
        elim (update_store-cases env (add_pending_change change) c) [
          | inl e ↦
              rw e (refl, framed node begin (record c { calls = suc c.calls }) ring others, changes)
          | inr (store, done, e) ↦
              let c1 = record c { calls = suc c.calls; store = store } in
              let c' = (start_sources env node moved c1).0 in
              let (kept, same) = start_sources-still node moved c1 in
              let rows =
                ap (λ (s : Database). s.storage_nodes) kept
                ∙ add_change-rows change c.store store done in
              let recorded =
                ap (λ (s : Database). s.pending_changes) kept
                ∙ add_change-stores change c.store store done
                ∙ ap (λ rest. change_row change ∷ rest) changes in
              rw e (
                refl,
                refl,
                framed node begin c' (same ∙ ring)
                    (λ id other. ap (find_row id) rows ∙ others id other),
                free,
                ap (find_row node.node_id) rows ∙ row,
                (now, recorded),
              )
        ]

    -- once the node is stored
    add_ranges-Answers :
        (c : Cluster)
        → find_row node.node_id begin.store.storage_nodes ≡ none
        → c.ring ≡ begin.ring
        → Others node begin c
        → c.store.pending_changes ≡ begin.store.pending_changes
        → find_row node.node_id c.store.storage_nodes
          ≡ some (record { node = node; pending_ranges = []; leaving_ranges = [] })
        → let r = add_ranges env encode hash order visit node c in Answers r.1 r.0
    unfolding update_node_ranges set_ranges
    add_ranges-Answers c free ring others changes row =
        let pending = pending_ranges node.node_id moved in
        let set = set_ranges pending [] in
        let same =
          ap
            (λ (ring : ConsistentHasher). visit (
              calculate_key_ranges_for_new_node hash order ring (encode node.node_id)
                node.virtual_nodes))
            ring in
        rw same (elim (update_store-cases env (update_node_ranges node.node_id pending []) c) [
          | inl e ↦
              rw e (refl, framed node begin (record c { calls = suc c.calls }) ring others, changes)
          | inr (store, done, e) ↦
              let found = λ (id : String).
                find_row-update_node set node.node_id id c.store store
                  (set_ranges-KeepsKey pending []) done in
              rw e (
                add_change-Answers (record c { calls = suc c.calls; store = store }) free ring
                  (λ id other. found id ∙ rw other (others id other))
                  (update_node-changes set node.node_id c.store store done ∙ changes)
                  (rw (found node.node_id, eq_refl node.node_id, row) refl))
        ])

    add_valid-Answers : let r = add_valid env encode hash order visit node begin in Answers r.1 r.0
    add_valid-Answers =
        elim (update_store-cases env (MetadataStore.add_storage_node env.before node) begin) [
          | inl e ↦ rw e (
            refl,
            framed node begin (record begin { calls = suc begin.calls }) refl (λ id other. refl),
            refl,
          )
          | inr (store, done, e) ↦
              let (free, row) = add-stores env.before node begin.store store done in
              let (changes, others) = add-keeps env.before node begin.store store done in
              rw e (
                add_ranges-Answers (record begin { calls = suc begin.calls; store = store }) free
                  refl others changes row)
        ]

  module _ (encode : String → Bytes) (hash : Bytes → ℕ) (order : ByteMap ℕ → ByteMap ℕ)
      (visit : ByteMap (List KeyRange) → Assignments) where
    pub add_storage_node-Answers :
        (req : AddStorageNodeRequest) (c : Cluster)
        → let r = add_storage_node env encode hash order visit req c in
          (IsIncomplete req × (r ≡ (c, refused invalid_argument)))
          ⊎ Answers encode hash order visit (new_node req) c r.1 r.0
    unfolding add_storage_node
    add_storage_node-Answers req c = elim (Bool-cases (str_eq req.node_id "")) [
      | inl e ↦ inl (rw e (inl (ground (arith, e, eq_iff req.node_id "")), refl))
      | inr named ↦ elim (Bool-cases (str_eq req.host "")) [
        | inl e ↦ inl (rw (named, e) (inr (inl (ground (arith, e, eq_iff req.host ""))), refl))
        | inr hosted ↦ elim (Bool-cases (req.port == 0)) [
          | inl e ↦ inl (rw (named, hosted, e) (inr (inr (ground (arith, e))), refl))
          | inr ported ↦ inr (
              rw (named, hosted, ported)
                (add_valid-Answers encode hash order visit (new_node req) c))
        ]
      ]
    ]
