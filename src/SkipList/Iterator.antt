-- ===== src/SkipList/Iterator.antt =====
-- SkipListIterator: a walk along level 0, which visits every node in the order of the keys.
use pair_db.Prelude.{
  ◌>>=◌, ℕ, zero, suc, ◌+◌, ◌<◌, Option, none, some, List, [], ◌∷◌, length, All, All-map, ◌≡◌,
  arith,
}
use pair_db.SkipList.{SkipListNode, SkipList, forward_at}
use pair_db.SkipList.Walk.{first_at, Linked}
use pair_db.SkipList.Valid.{IsOrder}

-- The nodes at which `for iter.Next()` stops, from `current` on.
unfoldable pub visits : {V : Type 0} → ℕ → (ℕ → SkipListNode V) → ℕ → Option (List ℕ)
visits zero h current = none
visits (suc fuel) h current = forward_at h current 0 >>= λ to. elim to [
  | none ↦ some []
  | some n ↦ visits fuel h n >>= λ rest. some (n ∷ rest)
]

visits-Linked :
    {V : Type 0} (h : ℕ → SkipListNode V) (order : List ℕ) (a fuel : ℕ)
    → length order < fuel
    → 0 < (h a).width
    → Linked h 0 (a ∷ order)
    → All (λ b. 0 < (h b).width) order
    → visits fuel h a ≡ some order
unfolding visits forward_at first_at
visits-Linked h [] a zero f w l p = absurd (omega arith)
visits-Linked h [] a (suc fuel) f w l p = ground (arith, l.0 w)
visits-Linked h (b ∷ bs) a zero f w l p = absurd (omega arith)
visits-Linked h (b ∷ bs) a (suc fuel) f w l p =
    let rest = visits-Linked h bs b fuel (omega arith) p.0 l.1 p.1 in
    ground (arith, l.0 w, rest, p.0)

-- The iterator of a valid list visits its nodes in their order.
pub visits-order :
    {V : Type 0} (s : SkipList V) (order : List ℕ)
    → IsOrder s order
    → visits (s.size + 1) s.nodes s.head ≡ some order
visits-order s order v =
    visits-Linked s.nodes order s.head (s.size + 1) (omega (arith, v.counted))
      (omega (arith, v.head_width)) (v.linked 0) (All-map (λ b p. p.0) order v.widths)
