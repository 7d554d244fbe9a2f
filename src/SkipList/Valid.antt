-- ===== src/SkipList/Valid.antt =====
-- The invariant of the skip list, and what the walks of its operations find.
use pair_db.Prelude.{
  ap, ℕ, ◌+◌, ◌≤◌, ◌<◌, Option, none, some, leb, if◌then◌else◌, List, [], ◌∷◌, ◌++◌, length,
  length-append, All, All-right, ◌≡◌, inl, inr, refl, arith, Bool-cases, ◌∙◌, sym, subst,
}
use pair_db.Bytes.{Bytes, bytes_eq}
use pair_db.SkipList.{
  SkipListNode, SkipList, max_level, forward_at, descend, seek, search_within, value_if,
  new_skip_list,
}
use pair_db.SkipList.Walk.{
  first_at, last_at, Linked, Below, AtLeast, OneOf-self, last_at-wide, last_at-forward,
}
use pair_db.SkipList.Descend.{seek-last, descend-last}
use pair_db.SkipList.Order.{Distinct}
use pair_db.SkipList.View.{Sorted, view, split, view-Below, view-Above, Above-AtLeast, Sorted-right}

-- The nodes of a list, in their order: each level links those that reach it.
pub record IsOrder {V : Type 0} (s : SkipList V) (order : List ℕ) : Type 0 where
  pub head_width : (s.nodes s.head).width ≡ max_level
  pub level_bound : s.level < max_level
  pub linked : (i : ℕ) → Linked s.nodes i (s.head ∷ order)
  pub distinct : Distinct (s.head ∷ order)
  pub sorted : Sorted s.nodes order
  pub widths : All (λ b. (0 < (s.nodes b).width) × ((s.nodes b).width ≤ s.level + 1)) order
  pub old : All (λ b. b < s.next) (s.head ∷ order)
  pub counted : s.size ≡ length order

pub new_skip_list-IsOrder : (V : Type 0) → IsOrder (new_skip_list {V = V}) []
unfolding new_skip_list first_at
new_skip_list-IsOrder V = record {
  head_width = refl;
  level_bound = omega arith;
  linked = λ i. ((λ w. refl), tt);
  distinct = (tt, tt);
  sorted = tt;
  widths = tt;
  old = (omega arith, tt);
  counted = refl;
}

abbrev pub first_of : List ℕ → Option ℕ
first_of [] = none
first_of (b ∷ bs) = some b

value-view :
    {V : Type 0} (h : ℕ → SkipListNode V) (key : Bytes) (post : List ℕ)
    → AtLeast h key post
    → Sorted h post
    → value_if h key (first_of post) ≡ view h post key
unfolding value_if view
value-view h key [] a s = refl
value-view h key (p ∷ ps) a s = elim (Bool-cases (bytes_eq (h p).key key)) [
  | inl e ↦ rw e refl
  | inr n ↦ rw n (sym (view-Above h key ps (Above-AtLeast h key p ps a n s).1))
]

module _ {V : Type 0} (s : SkipList V) (key : Bytes) (pre post : List ℕ)
    (v : IsOrder s (pre ++ post)) where
  head_reaches : (i : ℕ) → i ≤ s.level → i < (s.nodes s.head).width
  head_reaches i le = omega (arith, v.head_width, v.level_bound)

  first_at-first_of : first_at s.nodes 0 post ≡ first_of post
  unfolding first_at
  first_at-first_of = first_at-first_of' post (All-right _ pre post v.widths)
    where
      first_at-first_of' :
          (l : List ℕ)
          → All (λ b. (0 < (s.nodes b).width) × ((s.nodes b).width ≤ s.level + 1)) l
          → first_at s.nodes 0 l ≡ first_of l
      first_at-first_of' [] w = refl
      first_at-first_of' (b ∷ bs) w = ground (arith, w.0.0)

  pub forward_at-first : forward_at s.nodes (last_at s.nodes 0 s.head pre) 0 ≡ some (first_of post)
  unfolding forward_at
  forward_at-first =
      let w = last_at-wide s.nodes 0 s.head pre (head_reaches 0 (omega arith)) in
      let f = last_at-forward s.nodes 0 s.head pre post (v.linked 0) w in
      ground (arith, w, f ∙ first_at-first_of)

  module _ (fuel : ℕ) (enough : length (pre ++ post) < fuel) (below : Below s.nodes key pre)
      (at_least : AtLeast s.nodes key post) where
    short : length pre < fuel
    short = omega (arith, enough, length-append pre post)

    pub seek-found : seek fuel s.nodes key s.level s.head ≡ some (last_at s.nodes 0 s.head pre)
    seek-found =
        seek-last s.nodes key fuel s.head pre post short v.linked below at_least s.level s.head
          (head_reaches s.level (omega arith)) (OneOf-self s.head pre)
          (head_reaches s.level (omega arith))

    pub descend-found :
        (path : ℕ → Option ℕ) × (descend fuel s.nodes key s.level s.head (λ _. none)
          ≡ some (last_at s.nodes 0 s.head pre, path))
        × ((j : ℕ) → path j ≡ (if leb j s.level then some (last_at s.nodes j s.head pre) else none))
    descend-found =
        descend-last s.nodes key fuel s.head pre post short v.linked below at_least s.level s.head
          (λ _. none) (head_reaches s.level (omega arith)) (OneOf-self s.head pre)
          (head_reaches s.level (omega arith))

    search-found : search_within fuel s key ≡ some (value_if s.nodes key (first_of post))
    unfolding search_within
    search-found = rw (seek-found, forward_at-first) refl

    -- Search reads the table that the order stands for.
    pub search-view : search_within fuel s key ≡ some (view s.nodes (pre ++ post) key)
    search-view =
        let table = view-Below s.nodes key pre post below in
        let right = Sorted-right s.nodes pre post v.sorted in
        search-found ∙ ap some (value-view s.nodes key post at_least right ∙ sym table)

-- Search of a valid list, for any key.
pub search-IsOrder :
    {V : Type 0} (s : SkipList V) (order : List ℕ) (fuel : ℕ) (key : Bytes)
    → IsOrder s order
    → length order < fuel
    → search_within fuel s key ≡ some (view s.nodes order key)
search-IsOrder s order fuel key v f =
    let parts = split s.nodes key order v.sorted in
    let v' = subst (IsOrder s) parts.2 v in
    let f' = subst (λ l. length l < fuel) parts.2 f in
    let found = search-view s key parts.0 parts.1 v' fuel f' parts.3 parts.4 in
    subst (λ l. search_within fuel s key ≡ some (view s.nodes l key)) (sym parts.2) found
