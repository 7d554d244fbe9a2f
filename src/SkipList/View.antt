-- ===== src/SkipList/View.antt =====
-- What an order of nodes stands for: a sorted table of keys and values.
use pair_db.Prelude.{
  ℕ, Option, none, true, false, if◌then◌else◌, List, [], ◌∷◌, ◌++◌, All, ◌≡◌, inl, inr, refl, arith,
  Bool-cases, All-map, All-zip, All-insert, All-remove, subst, ap,
}
use pair_db.Bytes.{Bytes, bytes_eq, bytes_eq_iff}
use pair_db.Bytes.Order.{bytes_lt, bytes_lt_irrefl, bytes_lt_trans, bytes_lt-total}
use pair_db.SkipList.{SkipListNode}
use pair_db.SkipList.Walk.{Below, AtLeast}

pub bytes_lt-ne : (a b : Bytes) → bytes_lt a b ≡ true → bytes_eq a b ≡ false
bytes_lt-ne a b p = elim (Bool-cases (bytes_eq a b)) [
  | inr n ↦ n
  | inl e ↦
      let p' = subst (λ x. bytes_lt x b ≡ true) ((bytes_eq_iff a b).0 e) p in
      absurd (ground (arith, p', bytes_lt_irrefl b))
]

pub bytes_lt-ne' : (a b : Bytes) → bytes_lt a b ≡ true → bytes_eq b a ≡ false
bytes_lt-ne' a b p = elim (Bool-cases (bytes_eq b a)) [
  | inr n ↦ n
  | inl e ↦
      let p' = subst (λ x. bytes_lt a x ≡ true) ((bytes_eq_iff b a).0 e) p in
      absurd (ground (arith, p', bytes_lt_irrefl a))
]

bytes_lt-ge : (a b k : Bytes) → bytes_lt a b ≡ true → bytes_lt a k ≡ false → bytes_lt b k ≡ false
bytes_lt-ge a b k p q = elim (Bool-cases (bytes_lt b k)) [
  | inr n ↦ n
  | inl e ↦ absurd (ground (arith, bytes_lt_trans a b k p e))
]

pub bytes_lt-cong :
    (a a' b b' : Bytes) → a ≡ a' → b ≡ b' → bytes_lt a' b' ≡ true → bytes_lt a b ≡ true
bytes_lt-cong a a' b b' p q e = rw (p, q) e

module _ {V : Type 0} (h : ℕ → SkipListNode V) where
  -- Keys grow along the order.
  abbrev pub Sorted : List ℕ → Type 0
  Sorted [] = Unit
  Sorted (b ∷ bs) = All (λ c. bytes_lt (h b).key (h c).key ≡ true) bs × Sorted bs

  abbrev pub Above : Bytes → List ℕ → Type 0
  Above key l = All (λ c. bytes_lt key (h c).key ≡ true) l

  -- The value of a key.
  unfoldable pub view : List ℕ → Bytes → Option V
  view [] key = none
  view (b ∷ bs) key = let rest = view bs key in if bytes_eq (h b).key key then (h b).value else rest

  pub split :
      (key : Bytes) (order : List ℕ)
      → Sorted order
      → (pre : List ℕ) × (post : List ℕ) × (order ≡ pre ++ post)
        × Below h key pre
        × AtLeast h key post
  split key [] s = ([], [], refl, tt, tt)
  split key (b ∷ bs) s = elim (Bool-cases (bytes_lt (h b).key key)) [
    | inl less ↦
        let rest = split key bs s.1 in
        (b ∷ rest.0, rest.1, ap (◌∷◌ b) rest.2, (less, rest.3), rest.4)
    | inr not_less ↦ (
      [],
      b ∷ bs,
      refl,
      tt,
      (not_less, All-map (λ c p. bytes_lt-ge (h b).key (h c).key key p not_less) bs s.0),
    )
  ]

  pub view-Below :
      (key : Bytes) (pre post : List ℕ) → Below h key pre → view (pre ++ post) key ≡ view post key
  unfolding view
  view-Below key [] post b = refl
  view-Below key (x ∷ pre) post b = rw (bytes_lt-ne (h x).key key b.0) (view-Below key pre post b.1)

  pub view-Above : (key : Bytes) (l : List ℕ) → Above key l → view l key ≡ none
  unfolding view
  view-Above key [] a = refl
  view-Above key (x ∷ l) a = rw (bytes_lt-ne' key (h x).key a.0) (view-Above key l a.1)

  -- A node that is at least the key and is not its node is above it, and so are those after it.
  pub Above-AtLeast :
      (key : Bytes) (p : ℕ) (ps : List ℕ)
      → AtLeast h key (p ∷ ps)
      → bytes_eq (h p).key key ≡ false
      → Sorted (p ∷ ps)
      → Above key (p ∷ ps)
  Above-AtLeast key p ps a n s =
      let first = bytes_lt-total (h p).key key a.0 n in
      (first, All-map (λ c q. bytes_lt_trans key (h p).key (h c).key first q) ps s.0)

  pub Sorted-right : (pre post : List ℕ) → Sorted (pre ++ post) → Sorted post
  Sorted-right [] post s = s
  Sorted-right (x ∷ pre) post s = Sorted-right pre post s.1

module _ {V : Type 0} (h h' : ℕ → SkipListNode V) where
  pub Sorted-same : (l : List ℕ) → All (λ c. (h' c).key ≡ (h c).key) l → Sorted h l → Sorted h' l
  Sorted-same [] e s = tt
  Sorted-same (b ∷ bs) e s = (
    All-zip
        (λ c (p : (h' c).key ≡ (h c).key) q.
          bytes_lt-cong (h' b).key (h b).key (h' c).key (h c).key e.0 p q)
        bs e.1 s.0,
    Sorted-same bs e.1 s.1,
  )

  pub view-same :
      (key : Bytes) (l : List ℕ)
      → All (λ c. ((h' c).key ≡ (h c).key) × ((h' c).value ≡ (h c).value)) l
      → view h' l key ≡ view h l key
  unfolding view
  view-same key [] e = refl
  view-same key (b ∷ bs) e = rw (e.0.0, e.0.1, view-same key bs e.1) refl

module _ {V : Type 0} (h : ℕ → SkipListNode V) (n : ℕ) where
  pub Sorted-insert :
      (pre post : List ℕ)
      → Sorted h (pre ++ post)
      → Below h (h n).key pre
      → Above h (h n).key post
      → Sorted h (pre ++ n ∷ post)
  Sorted-insert [] post s b a = (a, s)
  Sorted-insert (x ∷ pre) post s b a =
      (All-insert _ n pre post b.0 s.0, Sorted-insert pre post s.1 b.1 a)

  pub Sorted-remove : (pre post : List ℕ) → Sorted h (pre ++ n ∷ post) → Sorted h (pre ++ post)
  Sorted-remove [] post s = s.1
  Sorted-remove (x ∷ pre) post s = (All-remove _ n pre post s.0, Sorted-remove pre post s.1)

  -- A node between lesser and greater keys adds its key to the table.
  pub view-insert :
      (key : Bytes) (pre post : List ℕ)
      → Below h (h n).key pre
      → view h (pre ++ n ∷ post) key
        ≡ (if bytes_eq (h n).key key then (h n).value else view h (pre ++ post) key)
  unfolding view
  view-insert key [] post b = refl
  view-insert key (x ∷ pre) post b = ground (
    arith,
    view-insert key pre post b.1,
    bytes_lt-ne (h x).key (h n).key b.0,
    bytes_eq_iff (h x).key key,
    bytes_eq_iff (h n).key key,
    bytes_eq_iff (h x).key (h n).key,
  )
