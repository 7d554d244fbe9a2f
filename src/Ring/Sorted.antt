-- ===== src/Ring/Sorted.antt =====
-- The order of the ring.
use pair_db.Prelude.{
  ℕ, ◌≤◌, List, [], ◌∷◌, ◌++◌, Bool, leb, ◌≡◌, refl, arith, All, All-map, All-select, count_if,
  Bool-cases, inl, inr, ◌==◌, ◌||◌, select,
}
use pair_db.Ring.{insert_sorted, sort, contains}

abbrev pub IsSorted : List ℕ → Type 0
IsSorted [] = Unit
IsSorted (x ∷ xs) = All (λ y. x ≤ y) xs × IsSorted xs

module _ (P : ℕ → Type 0) where
  insert_sorted-All : (x : ℕ) (xs : List ℕ) → P x → All P xs → All P (insert_sorted x xs)
  unfolding insert_sorted
  insert_sorted-All x [] p h = (p, tt)
  insert_sorted-All x (y ∷ ys) p h = elim (Bool-cases (leb x y)) [
    | inl e ↦ rw e (p, h)
    | inr e ↦ rw e (h.0, insert_sorted-All x ys p h.1)
  ]

  pub sort-All : (xs : List ℕ) → All P xs → All P (sort xs)
  unfolding sort
  sort-All [] h = tt
  sort-All (x ∷ xs) h = insert_sorted-All x (sort xs) h.0 (sort-All xs h.1)

  pub append-All : (xs ys : List ℕ) → All P xs → All P ys → All P (xs ++ ys)
  append-All [] ys h g = g
  append-All (x ∷ xs) ys h g = (h.0, append-All xs ys h.1 g)

insert_sorted-IsSorted : (x : ℕ) (xs : List ℕ) → IsSorted xs → IsSorted (insert_sorted x xs)
unfolding insert_sorted
insert_sorted-IsSorted x [] h = (tt, tt)
insert_sorted-IsSorted x (y ∷ ys) h = elim (Bool-cases (leb x y)) [
  | inl e ↦
      let le : x ≤ y = ground arith in rw e ((le, All-map (λ z g. omega (arith, le, g)) ys h.0), h)
  | inr e ↦
      let le : y ≤ x = ground arith in
      rw e (insert_sorted-All (λ z. y ≤ z) x ys le h.0, insert_sorted-IsSorted x ys h.1)
]

pub sort-IsSorted : (xs : List ℕ) → IsSorted (sort xs)
unfolding sort
sort-IsSorted [] = tt
sort-IsSorted (x ∷ xs) = insert_sorted-IsSorted x (sort xs) (sort-IsSorted xs)

count_if-insert_sorted :
    (p : ℕ → Bool) (x : ℕ) (xs : List ℕ) → count_if p (insert_sorted x xs) ≡ count_if p (x ∷ xs)
unfolding insert_sorted
count_if-insert_sorted p x [] = refl
count_if-insert_sorted p x (y ∷ ys) = ground (arith, count_if-insert_sorted p x ys)

pub count_if-sort : (p : ℕ → Bool) (xs : List ℕ) → count_if p (sort xs) ≡ count_if p xs
unfolding sort
count_if-sort p [] = refl
count_if-sort p (x ∷ xs) = ground (arith, count_if-insert_sorted p x (sort xs), count_if-sort p xs)

pub select-IsSorted : (p : ℕ → Bool) (xs : List ℕ) → IsSorted xs → IsSorted (select p xs)
select-IsSorted p [] h = tt
select-IsSorted p (x ∷ xs) h =
    let rest = All-select (λ y. x ≤ y) p (λ y le _. le) xs h.0 in
    elim (Bool-cases (p x)) [
      | inl e ↦ rw e (rest, select-IsSorted p xs h.1)
      | inr e ↦ rw e (select-IsSorted p xs h.1)
    ]

pub contains-append :
    (xs : List ℕ) (x h : ℕ) → contains (xs ++ x ∷ []) h ≡ (contains xs h || h == x)
contains-append [] x h = ground arith
contains-append (y ∷ xs) x h = ground (arith, contains-append xs x h)
