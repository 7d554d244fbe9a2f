-- ===== src/Consistency/Overlap.antt =====
-- Quorums meet, and levels that are accepted.
use mathlib.Core.List.{Mem, mem-cons_self, mem-cons_of_mem}
use pair_db.Topology.{StorageNode}
use pair_db.Prelude.{
  ℕ, ◌+◌, ◌*◌, ◌≤◌, ◌<◌, String, List, [], ◌∷◌, Bool, true, count_if, ◌&&◌, length, arith, ◌≡◌,
  Bool-cases, ◌≢◌, ◌↔◌, ◌⊎◌, eq_iff, inl, inr,
}
use pair_db.Consistency.{
  ok, calculate_quorum, is_quorum_reached, normalize_consistency_level, count_authoritative,
  get_required_replicas_for_write_set,
}

-- A number of replicas reaches the quorum exactly if it is more than half of them.
quorum_least : (n m : ℕ) → (calculate_quorum n ≤ m) ↔ (n < 2 * m)
unfolding calculate_quorum
quorum_least n m = (λ h. omega arith, λ h. omega arith)

-- Two sets of replicas have at least as many in common as their sizes exceed the total by.
count_if-both {ℓ} :
    {A : Type ℓ} (p q : A → Bool) (xs : List A)
    → count_if p xs + count_if q xs ≤ length xs + count_if (λ x. p x && q x) xs
count_if-both p q [] = omega arith
count_if-both p q (x ∷ xs) = ground (arith, count_if-both p q xs)

count_if-pos {ℓ} :
    {A : Type ℓ} (p : A → Bool) (xs : List A)
    → 0 < count_if p xs
    → (x : A) × Mem x xs × (p x ≡ true)
count_if-pos p [] h = absurd (omega arith)
count_if-pos p (x ∷ xs) h = elim (Bool-cases (p x)) [
  | inl e ↦ (x, mem-cons_self, e)
  | inr e ↦ let (y, m, f) = count_if-pos p xs (ground arith) in (y, mem-cons_of_mem x m, f)
]

-- At level "quorum", and at every level that is not "one" or "all": if the replicas that took a write
-- reach the quorum and those that answer a read reach it, some replica did both.
quorums_meet {ℓ} :
    {A : Type ℓ} (written answered : A → Bool) (replicas : List A) (write_level read_level : String)
    → write_level ≢ "one"
    → write_level ≢ "all"
    → read_level ≢ "one"
    → read_level ≢ "all"
    → is_quorum_reached (count_if written replicas) (length replicas) write_level ≡ true
    → is_quorum_reached (count_if answered replicas) (length replicas) read_level ≡ true
    → (x : A) × Mem x replicas × (written x ≡ true) × (answered x ≡ true)
unfolding is_quorum_reached
quorums_meet written answered replicas w r w1 wa r1 ra hw hr =
    let both = count_if-both written answered replicas in
    let (x, m, e) =
      count_if-pos (λ x. written x && answered x) replicas
        (ground (arith, eq_iff w "one", eq_iff w "all", eq_iff r "one", eq_iff r "all")) in
    (x, m, ground arith, ground arith)

-- The level that is used: the default for an empty one; otherwise the given level, which is accepted
-- exactly if it is "one", "quorum" or "all".
normalize-accepts :
    (default_level level result : String)
    → (normalize_consistency_level default_level level ≡ ok result) ↔ (
        ((level ≡ "") × (result ≡ default_level))
        ⊎ ((level ≢ "")
            × (result ≡ level)
            × ((level ≡ "one") ⊎ (level ≡ "quorum") ⊎ (level ≡ "all"))))
unfolding normalize_consistency_level
normalize-accepts d l r = (
  λ h. ground (arith, eq_iff l "", eq_iff l "one", eq_iff l "quorum", eq_iff l "all"),
  λ h. ground (arith, eq_iff l "", eq_iff l "one", eq_iff l "quorum", eq_iff l "all"),
)

-- A write set never asks for more replicas than it has in state NORMAL, unless it has none or the level
-- is "one"; a quorum is the least majority of them.
write_set_bounds :
    (level : String) (replicas : List StorageNode)
    → level ≢ "one"
    → 0 < count_authoritative replicas
    → (get_required_replicas_for_write_set level replicas ≤ count_authoritative replicas)
      × (count_authoritative replicas < 2 * get_required_replicas_for_write_set level replicas)
unfolding get_required_replicas_for_write_set
write_set_bounds level replicas h pos =
    (ground (arith, eq_iff level "one"), ground (arith, eq_iff level "one"))
