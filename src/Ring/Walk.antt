-- ===== src/Ring/Walk.antt =====
-- The replicas that a walk around the ring collects.
use native.Mathlib.Nat.{mod-lt, mod-eq_of_lt, add-mod_right}
use pair_db.Prelude.{
  ℕ, suc, zero, ◌+◌, ◌-◌, ◌%◌, ◌≤◌, ◌<◌, List, [], ◌∷◌, ◌++◌, Bool, true, false, leb, ltb, ◌==◌,
  ◌≡◌, ◌≢◌, ◌⊎◌, ◌↔◌, refl, sym, subst, arith, length, length-append, get_or, All, Any, Any-append,
  Bool-cases, inl, inr, if◌then◌else◌,
}
use pair_db.Bytes.{Bytes, bytes_eq, bytes_eq_iff}
use pair_db.Ring.{
  ConsistentHasher, VirtualNode, virtual_node, successor, contains, node_at, walk, get_nodes,
}

-- No two of the virtual nodes belong to one node.
abbrev pub NoRepeat : List VirtualNode → Type 0
NoRepeat [] = Unit
NoRepeat (v ∷ vs) = All (λ w. w.node_id ≢ v.node_id) vs × NoRepeat vs

-- One of the virtual nodes belongs to the node.
abbrev pub HasNode : Bytes → List VirtualNode → Type 0
HasNode node_id = Any (λ v. v.node_id ≡ node_id)

HasNode-left :
    (k : Bytes) (vs : List VirtualNode) (w : VirtualNode) → HasNode k vs → HasNode k (vs ++ w ∷ [])
HasNode-left k [] w h = absurd h
HasNode-left k (v ∷ vs) w (inl e) = inl e
HasNode-left k (v ∷ vs) w (inr h) = inr (HasNode-left k vs w h)

HasNode-snoc :
    (k : Bytes) (vs : List VirtualNode) (w : VirtualNode)
    → HasNode k (vs ++ w ∷ [])
    → HasNode k vs ⊎ (w.node_id ≡ k)
HasNode-snoc k [] w (inl e) = inr e
HasNode-snoc k [] w (inr h) = absurd h
HasNode-snoc k (v ∷ vs) w (inl e) = inl (inl e)
HasNode-snoc k (v ∷ vs) w (inr h) = elim (HasNode-snoc k vs w h) [
  | inl g ↦ inl (inr g)
  | inr e ↦ inr e
]

All-snoc {ℓ κ} :
    {A : Type ℓ} (P : A → Type κ) (xs : List A) (x : A) → All P xs → P x → All P (xs ++ x ∷ [])
All-snoc P [] x h p = (p, tt)
All-snoc P (y ∷ xs) x h p = (h.0, All-snoc P xs x h.1 p)

NoRepeat-snoc :
    (vs : List VirtualNode) (w : VirtualNode)
    → NoRepeat vs
    → ¬ HasNode w.node_id vs
    → NoRepeat (vs ++ w ∷ [])
NoRepeat-snoc [] w h new = (tt, tt)
NoRepeat-snoc (v ∷ vs) w h new = (
  All-snoc (λ u. u.node_id ≢ v.node_id) vs w h.0 (λ e. new (inl (sym e))),
  NoRepeat-snoc vs w h.1 (λ a. new (inr a)),
)

contains-get_or : (xs : List ℕ) (i : ℕ) → i < length xs → contains xs (get_or xs i 0) ≡ true
contains-get_or [] i lt = absurd (omega (arith, lt))
contains-get_or (x ∷ xs) zero lt = ground arith
contains-get_or (x ∷ xs) (suc i) lt = ground (arith, contains-get_or xs i (omega (arith, lt)))

All-get_or :
    (P : ℕ → Type 0) (xs : List ℕ) → ((i : ℕ) → i < length xs → P (get_or xs i 0)) → All P xs
All-get_or P [] f = tt
All-get_or P (x ∷ xs) f =
    (f 0 (omega arith), All-get_or P xs (λ i lt. f (suc i) (omega (arith, lt))))

-- Every place of a circle is some number of steps, less than once around, from any other.
steps_to : (n start p : ℕ) → start < n → p < n → (j : ℕ) × (j < n) × ((start + j) % n ≡ p)
steps_to n start p s h = elim (Bool-cases (leb start p)) [
  | inl e ↦
      let le : start ≤ p = ground arith in
      let sum : start + (p - start) ≡ p = omega (arith, le) in
      (p - start, omega (arith, h), rw sum (mod-eq_of_lt h))
  | inr e ↦
      let lt : p < start = ground arith in
      let sum : start + (p + n - start) ≡ p + n = omega (arith, s) in
      (p + n - start, omega (arith, lt, s), rw (sum, add-mod_right p n) (mod-eq_of_lt h))
]

module _ (ch : ConsistentHasher) (count idx : ℕ) (occupied : 0 < length ch.ring) where
  abbrev hash_at : ℕ → ℕ
  hash_at i = get_or ch.ring ((idx + i) % length ch.ring) 0

  -- The virtual node stands on the ring, as the map describes it.
  abbrev IsPlaced : VirtualNode → Type 0
  IsPlaced v = (contains ch.ring v.hash ≡ true) × (v ≡ virtual_node ch v.hash)

  abbrev noting : ℕ → (Bytes → Bool) → Bytes → Bool
  noting i seen k = if bytes_eq k (node_at ch (hash_at i)) then true else seen k

  -- What the loop keeps.
  record IsPartial (nodes : List VirtualNode) (seen : Bytes → Bool) : Type 0 where
    no_repeat : NoRepeat nodes
    bounded : length nodes ≤ count
    placed : All IsPlaced nodes
    noted : (k : Bytes) → (seen k ≡ true) ↔ HasNode k nodes

  -- What the loop ends with, having gone through the rounds from `i` up to `j`.
  record IsDone (i j : ℕ) (before nodes : List VirtualNode) : Type 0 where
    no_repeat : NoRepeat nodes
    bounded : length nodes ≤ count
    placed : All IsPlaced nodes
    kept : (k : Bytes) → HasNode k before → HasNode k nodes
    complete :
        (length nodes ≡ count) ⊎ ((r : ℕ) → i ≤ r → r < j → HasNode (node_at ch (hash_at r)) nodes)

  added-IsPartial :
      (nodes : List VirtualNode) (seen : Bytes → Bool) (i : ℕ)
      → IsPartial nodes seen
      → length nodes < count
      → seen (node_at ch (hash_at i)) ≡ false
      → IsPartial (nodes ++ virtual_node ch (hash_at i) ∷ []) (noting i seen)
  added-IsPartial nodes seen i p room unseen =
      let v = virtual_node ch (hash_at i) in
      record {
        no_repeat =
            NoRepeat-snoc nodes v p.no_repeat (λ h. cc ((p.noted (node_at ch (hash_at i))).1 h));
        bounded = omega (arith, room, length-append nodes (v ∷ []));
        placed = All-snoc IsPlaced nodes v p.placed (
          contains-get_or ch.ring ((idx + i) % length ch.ring) (mod-lt (idx + i) occupied),
          refl,
        );
        noted = λ k. elim (Bool-cases (bytes_eq k (node_at ch (hash_at i)))) [
          | inl e ↦
              let same = (bytes_eq_iff k (node_at ch (hash_at i))).0 e in
              rw e (λ _. Any-append (λ w. w.node_id ≡ k) nodes (v ∷ []) (inl (sym same)), λ _. refl)
          | inr e ↦ rw e (
            λ h. HasNode-left k nodes v ((p.noted k).0 h),
            λ h. elim (HasNode-snoc k nodes v h) [
              | inl g ↦ (p.noted k).1 g
              | inr same ↦ absurd (ground (arith, bytes_eq_iff k (node_at ch (hash_at i))))
            ],
          )
        ];
      }

  -- One more round at the front, whose node is among those of the result.
  earlier-IsDone :
      (i j : ℕ) (before now nodes : List VirtualNode)
      → ((k : Bytes) → HasNode k before → HasNode k now)
      → HasNode (node_at ch (hash_at i)) now
      → IsDone (i + 1) j now nodes
      → IsDone i j before nodes
  earlier-IsDone i j before now nodes keeps has d = record {
    no_repeat = d.no_repeat;
    bounded = d.bounded;
    placed = d.placed;
    kept = λ k h. d.kept k (keeps k h);
    complete = elim d.complete [
      | inl full ↦ inl full
      | inr all ↦ inr (λ r ge lt. elim (Bool-cases (i == r)) [
        | inl e ↦
            let same : i ≡ r = ground arith in
            subst (λ x. HasNode (node_at ch (hash_at x)) nodes) same
              (d.kept (node_at ch (hash_at i)) has)
        | inr e ↦ all r (ground arith) lt
      ])
    ];
  }

  stopped-IsDone :
      (i j : ℕ) (nodes : List VirtualNode) (seen : Bytes → Bool)
      → IsPartial nodes seen
      → (length nodes ≡ count) ⊎ (j ≤ i)
      → IsDone i j nodes nodes
  stopped-IsDone i j nodes seen p why = record {
    no_repeat = p.no_repeat;
    bounded = p.bounded;
    placed = p.placed;
    kept = λ k h. h;
    complete = elim why [
      | inl e ↦ inl e
      | inr le ↦ inr (λ r ge lt. absurd (omega (arith, le, ge, lt)))
    ];
  }

  walk-IsDone :
      (todo i j : ℕ) (nodes : List VirtualNode) (seen : Bytes → Bool)
      → j ≡ i + todo
      → IsPartial nodes seen
      → IsDone i j nodes (walk ch count idx todo i nodes seen)
  unfolding walk
  walk-IsDone zero i j nodes seen e p = stopped-IsDone i j nodes seen p (inr (omega (arith, e)))
  walk-IsDone (suc todo) i j nodes seen e p =
      let v = virtual_node ch (hash_at i) in
      elim (Bool-cases (ltb (length nodes) count)) [
        | inr full ↦
            let same : length nodes ≡ count = ground (arith, p.bounded) in
            let step : nodes ≡ walk ch count idx (suc todo) i nodes seen = rw (full, walk) refl in
            subst (IsDone i j nodes) step (stopped-IsDone i j nodes seen p (inl same))
        | inl room ↦ elim (Bool-cases (seen (node_at ch (hash_at i)))) [
          | inl old ↦
              let on = walk ch count idx todo (i + 1) nodes seen in
              let step : on ≡ walk ch count idx (suc todo) i nodes seen =
                rw (room, old, walk) refl in
              subst (IsDone i j nodes) step (
                earlier-IsDone i j nodes nodes on (λ k h. h)
                  ((p.noted (node_at ch (hash_at i))).0 old)
                  (walk-IsDone todo (i + 1) j nodes seen (omega (arith, e)) p))
          | inr new ↦
              let on = walk ch count idx todo (i + 1) (nodes ++ v ∷ []) (noting i seen) in
              let step : on ≡ walk ch count idx (suc todo) i nodes seen =
                rw (room, new, walk) refl in
              subst (IsDone i j nodes) step (
                earlier-IsDone i j nodes (nodes ++ v ∷ []) on (λ k h. HasNode-left k nodes v h)
                  (Any-append (λ w. w.node_id ≡ node_at ch (hash_at i)) nodes (v ∷ []) (inl refl))
                  (walk-IsDone todo (i + 1) j (nodes ++ v ∷ []) (noting i seen) (omega (arith, e))
                    (added-IsPartial nodes seen i p (ground arith) new)))
        ]
      ]

successor-lt :
    (ring : List ℕ) (key_hash : ℕ) → 0 < length ring → successor ring key_hash < length ring
unfolding successor
successor-lt ring k pos = ground arith

-- On a ring that is not empty, `GetNodes` returns at most `count` virtual nodes, each one on the ring as
-- the map describes it, no two of one node; and `count` of them, unless every node of the ring is there.
pub get_nodes-replicas :
    (ch : ConsistentHasher) (key_hash count : ℕ)
    → 0 < length ch.ring
    → (length (get_nodes ch key_hash count) ≤ count)
      × NoRepeat (get_nodes ch key_hash count)
      × All
          (λ v. (contains ch.ring v.hash ≡ true) × (v ≡ virtual_node ch v.hash))
          (get_nodes ch key_hash count)
      × ((length (get_nodes ch key_hash count) ≡ count)
          ⊎ All (λ h. HasNode (node_at ch h) (get_nodes ch key_hash count)) ch.ring)
unfolding get_nodes
get_nodes-replicas ch key_hash count pos =
    let n = length ch.ring in
    let start = successor ch.ring key_hash in
    let inside = successor-lt ch.ring key_hash pos in
    let d =
      walk-IsDone ch count start pos n 0 n [] (λ _. false) (omega arith)
        (record {
          no_repeat = tt;
          bounded = omega arith;
          placed = tt;
          noted = λ k. (λ h. absurd (cc h), λ h. absurd h);
        }) in
    (
      d.bounded,
      d.no_repeat,
      d.placed,
      elim d.complete [
        | inl full ↦ inl full
        | inr all ↦ inr (
            All-get_or (λ h. HasNode (node_at ch h) (get_nodes ch key_hash count)) ch.ring
              (λ p lt.
                let (j, less, at) = steps_to n start p inside lt in
                subst (λ x. HasNode (node_at ch (get_or ch.ring x 0)) (get_nodes ch key_hash count))
                  at (all j (omega arith) less)))
      ],
    )

-- On any ring, `GetNodes` returns at most `count` virtual nodes.
pub length-get_nodes :
    (ch : ConsistentHasher) (key_hash count : ℕ) → length (get_nodes ch key_hash count) ≤ count
length-get_nodes ch key_hash count = elim (Bool-cases (ltb 0 (length ch.ring))) [
  | inl pos ↦ (get_nodes-replicas ch key_hash count (ground (arith, pos))).0
  | inr none_there ↦
      let empty : length ch.ring ≡ 0 = ground (arith, none_there) in
      unfold get_nodes walk in rw empty (omega arith)
]
