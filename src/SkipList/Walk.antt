-- ===== src/SkipList/Walk.antt =====
-- The walk of the skip list. On each level the nodes are linked in one order, and the walk stops at
-- the last node of the level whose key is less than the key sought.
use pair_db.Prelude.{
  ℕ, zero, suc, ◌<◌, Option, none, some, true, false, ltb, if◌then◌else◌, List, [], ◌∷◌, ◌++◌,
  length, All, ◌≡◌, ◌⊎◌, inl, inr, refl, arith, Bool-cases, Option-cases, ltb→lt, ◌∙◌, sym, subst,
}
use pair_db.Bytes.{Bytes}
use pair_db.Bytes.Order.{bytes_lt}
use pair_db.SkipList.{SkipListNode, forward_at, advance}

module _ {V : Type 0} (h : ℕ → SkipListNode V) where
  -- The first node of the order that reaches level i.
  unfoldable pub first_at : ℕ → List ℕ → Option ℕ
  first_at i [] = none
  first_at i (b ∷ bs) = let rest = first_at i bs in if ltb i (h b).width then some b else rest

  -- The last node of `a ∷ order` that reaches level i, or `a`.
  unfoldable pub last_at : ℕ → ℕ → List ℕ → ℕ
  last_at i a [] = a
  last_at i a (b ∷ bs) = last_at i (if ltb i (h b).width then b else a) bs

  -- Each node points on level i to the next one that reaches it.
  abbrev pub Linked : ℕ → List ℕ → Type 0
  Linked i [] = Unit
  Linked i (a ∷ rest) = (i < (h a).width → (h a).forward i ≡ first_at i rest) × Linked i rest

  abbrev pub Below : Bytes → List ℕ → Type 0
  Below key l = All (λ a. bytes_lt (h a).key key ≡ true) l

  abbrev pub AtLeast : Bytes → List ℕ → Type 0
  AtLeast key l = All (λ a. bytes_lt (h a).key key ≡ false) l

abbrev pub OneOf : ℕ → ℕ → List ℕ → Type 0
OneOf c a [] = c ≡ a
OneOf c a (b ∷ bs) = (c ≡ a) ⊎ OneOf c b bs

pub OneOf-self : (a : ℕ) (pre : List ℕ) → OneOf a a pre
OneOf-self a [] = refl
OneOf-self a (b ∷ bs) = inl refl

OneOf-past : (c d a : ℕ) (pre : List ℕ) → (c ≡ d → ⊥) → OneOf c d pre → OneOf c a pre
OneOf-past c d a [] n one = absurd (n one)
OneOf-past c d a (b ∷ bs) n (inl e) = absurd (n e)
OneOf-past c d a (b ∷ bs) n (inr one) = inr one

OneOf-later : (c a d : ℕ) (pre : List ℕ) → OneOf c a pre → (c ≡ a) ⊎ OneOf c d pre
OneOf-later c a d [] one = inl one
OneOf-later c a d (b ∷ bs) (inl e) = inl e
OneOf-later c a d (b ∷ bs) (inr one) = inr (inr one)

-- The nodes past one that does not reach the level are linked with the nodes before it.
pub Linked-skip :
    {V : Type 0} (h : ℕ → SkipListNode V) (i a d : ℕ) (rest : List ℕ)
    → ltb i (h d).width ≡ false
    → Linked h i (a ∷ d ∷ rest)
    → Linked h i (a ∷ rest)
unfolding first_at
Linked-skip h i a d rest narrow l = ((λ w. rw narrow at (l.0 w)), l.1.1)

module _ {V : Type 0} (h : ℕ → SkipListNode V) where
  -- The node where the walk ends points past the nodes before it.
  pub last_at-forward :
      (i a : ℕ) (pre post : List ℕ)
      → Linked h i (a ∷ (pre ++ post))
      → i < (h (last_at h i a pre)).width
      → (h (last_at h i a pre)).forward i ≡ first_at h i post
  unfolding last_at
  last_at-forward i a [] post l = l.0
  last_at-forward i a (d ∷ pre) post l =
      let Points = λ (x : ℕ). i < (h x).width → (h x).forward i ≡ first_at h i post in
      elim (Bool-cases (ltb i (h d).width)) [
        | inl wide ↦
            let step : last_at h i a (d ∷ pre) ≡ last_at h i d pre = rw wide refl in
            subst Points (sym step) (last_at-forward i d pre post l.1)
        | inr narrow ↦
            let step : last_at h i a (d ∷ pre) ≡ last_at h i a pre = rw narrow refl in
            subst Points (sym step)
              (last_at-forward i a pre post (Linked-skip h i a d (pre ++ post) narrow l))
      ]

  pub Linked-right : (i : ℕ) (pre post : List ℕ) → Linked h i (pre ++ post) → Linked h i post
  Linked-right i [] post l = l
  Linked-right i (a ∷ pre) post l = Linked-right i pre post l.1

  pub last_at-wide : (i a : ℕ) (pre : List ℕ) → i < (h a).width → i < (h (last_at h i a pre)).width
  unfolding last_at
  last_at-wide i a [] w = w
  last_at-wide i a (d ∷ pre) w = elim (Bool-cases (ltb i (h d).width)) [
    | inl wide ↦ rw wide (last_at-wide i d pre (omega (arith, ltb→lt _ _ wide)))
    | inr narrow ↦ rw narrow (last_at-wide i a pre w)
  ]

  pub last_at-OneOf : (i a : ℕ) (pre : List ℕ) → OneOf (last_at h i a pre) a pre
  unfolding last_at
  last_at-OneOf i a [] = refl
  last_at-OneOf i a (d ∷ pre) = elim (Bool-cases (ltb i (h d).width)) [
    | inl wide ↦
        let step : last_at h i a (d ∷ pre) ≡ last_at h i d pre = rw wide refl in
        subst (λ x. (x ≡ a) ⊎ OneOf x d pre) (sym step) (inr (last_at-OneOf i d pre))
    | inr narrow ↦
        let step : last_at h i a (d ∷ pre) ≡ last_at h i a pre = rw narrow refl in
        subst (λ x. (x ≡ a) ⊎ OneOf x d pre) (sym step)
          (OneOf-later (last_at h i a pre) a d pre (last_at-OneOf i a pre))
  ]

module _ {V : Type 0} (h : ℕ → SkipListNode V) (key : Bytes) where
  first_at-AtLeast :
      (i : ℕ) (post : List ℕ) (n : ℕ)
      → AtLeast h key post
      → first_at h i post ≡ some n
      → bytes_lt (h n).key key ≡ false
  unfolding first_at
  first_at-AtLeast i [] n p e = ground arith
  first_at-AtLeast i (b ∷ bs) n p e = elim (Bool-cases (ltb i (h b).width)) [
    | inl w ↦ ground (arith, w)
    | inr w ↦ first_at-AtLeast i bs n p.1 (ground (arith, w))
  ]

  module _ (fuel i a : ℕ) (wide : i < (h a).width) where
    advance-end : (h a).forward i ≡ none → advance (suc fuel) h key i a ≡ some a
    unfolding advance forward_at
    advance-end e = ground arith

    advance-stop :
        (n : ℕ)
        → (h a).forward i ≡ some n
        → bytes_lt (h n).key key ≡ false
        → advance (suc fuel) h key i a ≡ some a
    unfolding advance forward_at
    advance-stop n e k = ground arith

    advance-go :
        (n : ℕ)
        → (h a).forward i ≡ some n
        → bytes_lt (h n).key key ≡ true
        → advance (suc fuel) h key i a ≡ advance fuel h key i n
    unfolding advance forward_at
    advance-go n e k = ground arith

  -- The walk from a node of the level.
  advance-last :
      (fuel i a : ℕ) (pre post : List ℕ)
      → length pre < fuel
      → i < (h a).width
      → (h a).forward i ≡ first_at h i (pre ++ post)
      → Linked h i (pre ++ post)
      → Below h key pre
      → AtLeast h key post
      → advance fuel h key i a ≡ some (last_at h i a pre)
  unfolding last_at first_at
  advance-last zero i a pre post f w e l b p = absurd (omega arith)
  advance-last (suc fuel) i a [] post f w e l b p = elim (Option-cases (first_at h i post)) [
    | inl none_left ↦ advance-end fuel i a w (e ∙ none_left)
    | inr (n, first) ↦ advance-stop fuel i a w n (e ∙ first) (first_at-AtLeast i post n p first)
  ]
  advance-last (suc fuel) i a (c ∷ cs) post f w e l b p = elim (Bool-cases (ltb i (h c).width)) [
    | inl wide ↦
        let e' : (h a).forward i ≡ some c = rw wide at e in
        let w' : i < (h c).width = omega (arith, ltb→lt _ _ wide) in
        rw wide (
          advance-go fuel i a w c e' b.0
          ∙ advance-last fuel i c cs post (omega arith) w' (l.0 w') l.1 b.1 p)
    | inr narrow ↦
        rw narrow (advance-last (suc fuel) i a cs post (omega arith) w (rw narrow at e) l.1 b.1 p)
  ]

  -- The walk from any node of the order that reaches the level, the first one included.
  pub advance-from :
      (fuel i c a : ℕ) (pre post : List ℕ)
      → OneOf c a pre
      → length pre < fuel
      → i < (h c).width
      → Linked h i (a ∷ (pre ++ post))
      → Below h key pre
      → AtLeast h key post
      → advance fuel h key i c ≡ some (last_at h i a pre)
  unfolding last_at first_at
  advance-from fuel i c a [] post one f w l b p =
      let l' = subst (λ x. i < (h x).width → (h x).forward i ≡ first_at h i post) (sym one) l.0 in
      rw (← one) (advance-last fuel i c [] post f w (l' w) l.1 b p)
  advance-from fuel i c a (d ∷ pre) post (inl one) f w l b p =
      let l' =
        subst (λ x. i < (h x).width → (h x).forward i ≡ first_at h i (d ∷ (pre ++ post))) (sym one)
          l.0 in
      rw (← one) (advance-last fuel i c (d ∷ pre) post f w (l' w) l.1 b p)
  advance-from fuel i c a (d ∷ pre) post (inr one) f w l b p =
      elim (Bool-cases (ltb i (h d).width)) [
        | inl wide ↦ rw wide (advance-from fuel i c d pre post one (omega arith) w l.1 b.1 p)
        | inr narrow ↦
            let apart : c ≡ d → ⊥ =
              λ e. let w' = subst (λ x. i < (h x).width) e w in ground (arith, narrow) in
            rw narrow (
              advance-from fuel i c a pre post (OneOf-past c d a pre apart one) (omega arith) w
                (Linked-skip h i a d (pre ++ post) narrow l) b.1 p)
      ]
