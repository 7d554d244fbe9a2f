-- ===== src/Ring/Owner.antt =====
-- The node that owns a hash.
use pair_db.Prelude.{
  ℕ, suc, ◌≤◌, ◌<◌, List, [], ◌∷◌, true, false, leb, ◌==◌, ◌≡◌, ◌⊎◌, refl, ap, sym, subst, arith,
  length, get_or, All, All-map, Bool-cases, inl, inr, if◌then◌else◌,
}
use pair_db.Ring.{ConsistentHasher, search, successor, node_at, get_node_for_hash, contains}
use pair_db.Ring.Sorted.{IsSorted}

-- `h` is the successor of the key's hash: the least hash of the ring from there on, or the least of all.
abbrev pub IsOwner : List ℕ → ℕ → ℕ → Type 0
IsOwner ring key_hash h =
    (contains ring h ≡ true)
    × (((key_hash ≤ h) × All (λ g. (g < key_hash) ⊎ (h ≤ g)) ring)
        ⊎ (All (λ g. g < key_hash) ring × All (λ g. h ≤ g) ring))

-- What the search for a key's hash ends at.
data Outcome (ring : List ℕ) (key_hash : ℕ) : ℕ → Type 0 where
  beyond : (i : ℕ) → i ≡ length ring → All (λ g. g < key_hash) ring → Outcome ring key_hash i
  inside :
      (i h : ℕ)
      → i < length ring
      → get_or ring i 0 ≡ h
      → key_hash ≤ h
      → contains ring h ≡ true
      → All (λ g. (g < key_hash) ⊎ (h ≤ g)) ring
      → Outcome ring key_hash i

next-Outcome :
    (h : ℕ) (ring : List ℕ) (key_hash i : ℕ)
    → h < key_hash
    → Outcome ring key_hash i
    → Outcome (h ∷ ring) key_hash (suc i)
next-Outcome h ring k i lt (beyond _ e below) = beyond (suc i) (ap suc e) (lt, below)
next-Outcome h ring k i lt (inside _ g lt' at ge on least) =
    inside (suc i) g (omega (arith, lt')) at ge (ground arith) (inl lt, least)

search-Outcome :
    (ring : List ℕ) (key_hash : ℕ) → IsSorted ring → Outcome ring key_hash (search ring key_hash)
unfolding search
search-Outcome [] k s = beyond 0 refl tt
search-Outcome (h ∷ ring) k s = elim (Bool-cases (leb k h)) [
  | inl e ↦ rw e (
      inside 0 h (omega arith) refl (ground arith) (ground arith)
        (inr (omega arith), All-map (λ g le. inr le) ring s.0))
  | inr e ↦ rw e (next-Outcome h ring k (search ring k) (ground arith) (search-Outcome ring k s.1))
]

-- The hash at the index where the walk begins.
successor-IsOwner :
    (ring : List ℕ) (key_hash i : ℕ)
    → IsSorted ring
    → 0 < length ring
    → Outcome ring key_hash i
    → IsOwner ring key_hash (get_or ring (if leb (length ring) i then 0 else i) 0)
successor-IsOwner [] k i s pos o = absurd (omega (arith, pos))
successor-IsOwner (h ∷ ring) k i s pos (beyond _ e below) =
    let wrapped : leb (length (h ∷ ring)) i ≡ true = ground arith in
    let at_start : h ≡ get_or (h ∷ ring) (if leb (length (h ∷ ring)) i then 0 else i) 0 =
      rw wrapped refl in
    let on : contains (h ∷ ring) h ≡ true = ground arith in
    subst (IsOwner (h ∷ ring) k) at_start (on, inr (below, (omega arith, s.0)))
successor-IsOwner (x ∷ ring) k i s pos (inside _ h lt at ge on least) =
    let kept : leb (length (x ∷ ring)) i ≡ false = ground arith in
    let at_i : h ≡ get_or (x ∷ ring) (if leb (length (x ∷ ring)) i then 0 else i) 0 =
      rw kept (sym at) in
    subst (IsOwner (x ∷ ring) k) at_i (on, inl (ge, least))

-- On a sorted ring that is not empty, `GetNodeForHash` is the node of the hash that owns the key.
pub get_node_for_hash-IsOwner :
    (ch : ConsistentHasher) (key_hash : ℕ)
    → IsSorted ch.ring
    → 0 < length ch.ring
    → (h : ℕ) × IsOwner ch.ring key_hash h × (get_node_for_hash ch key_hash ≡ node_at ch h)
unfolding get_node_for_hash successor
get_node_for_hash-IsOwner ch k s pos =
    let occupied : (length ch.ring == 0) ≡ false = ground arith in
    (
      get_or ch.ring (successor ch.ring k) 0,
      successor-IsOwner ch.ring k (search ch.ring k) s pos (search-Outcome ch.ring k s),
      rw occupied refl,
    )
