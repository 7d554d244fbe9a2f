-- ===== src/SkipList/Order.antt =====
-- Orders of nodes that a change of pointers leaves, extends or shortens.
use pair_db.Prelude.{
  ℕ, ◌≤◌, ◌<◌, some, false, ltb, if◌then◌else◌, List, [], ◌∷◌, ◌++◌, All, All-left, All-right,
  All-insert, All-remove, All-map, ◌≡◌, ◌≢◌, inl, inr, refl, arith, Bool-cases, ◌∙◌, sym, subst,
}
use pair_db.SkipList.{SkipListNode}
use pair_db.SkipList.Walk.{first_at, last_at, Linked, Linked-skip, OneOf, last_at-OneOf}

abbrev pub Distinct : List ℕ → Type 0
Distinct [] = Unit
Distinct (x ∷ xs) = All (λ y. x ≢ y) xs × Distinct xs

ne-OneOf : (a c b : ℕ) (bs : List ℕ) → OneOf c b bs → All (λ y. a ≢ y) (b ∷ bs) → a ≢ c
ne-OneOf a c b [] e d = λ p. d.0 (p ∙ e)
ne-OneOf a c b (x ∷ bs) (inl e) d = λ p. d.0 (p ∙ e)
ne-OneOf a c b (x ∷ bs) (inr one) d = ne-OneOf a c x bs one d.1

pub OneOf-All : (P : ℕ → Type 0) (c a : ℕ) (l : List ℕ) → OneOf c a l → All P (a ∷ l) → P c
OneOf-All P c a [] e p = subst P (sym e) p.0
OneOf-All P c a (x ∷ l) (inl e) p = subst P (sym e) p.0
OneOf-All P c a (x ∷ l) (inr one) p = OneOf-All P c x l one p.1

pub Distinct-left : (pre post : List ℕ) → Distinct (pre ++ post) → Distinct pre
Distinct-left [] post d = tt
Distinct-left (x ∷ pre) post d = (All-left _ pre post d.0, Distinct-left pre post d.1)

pub Distinct-insert :
    (n : ℕ) (pre post : List ℕ)
    → All (λ b. b < n) (pre ++ post)
    → Distinct (pre ++ post)
    → Distinct (pre ++ n ∷ post)
Distinct-insert n [] post o d = (All-map (λ c p. λ e. absurd (omega (arith, e))) post o, d)
Distinct-insert n (x ∷ pre) post o d = (
  All-insert _ n pre post (λ e. absurd (omega (arith, e, o.0))) d.0,
  Distinct-insert n pre post o.1 d.1,
)

pub Distinct-remove :
    (n : ℕ) (pre post : List ℕ) → Distinct (pre ++ n ∷ post) → Distinct (pre ++ post)
Distinct-remove n [] post d = d.1
Distinct-remove n (x ∷ pre) post d = (All-remove _ n pre post d.0, Distinct-remove n pre post d.1)

pub Distinct-others :
    (n : ℕ) (pre post : List ℕ) → Distinct (pre ++ n ∷ post) → All (λ c. c ≢ n) (pre ++ post)
Distinct-others n [] post d = All-map (λ c p. λ e. p (sym e)) post d.0
Distinct-others n (x ∷ pre) post d =
    ((All-right _ pre (n ∷ post) d.0).0, Distinct-others n pre post d.1)

-- The nodes of the second part differ from those of the first.
pub Distinct-apart :
    (c a : ℕ) (pre post : List ℕ)
    → OneOf c a pre
    → Distinct (a ∷ (pre ++ post))
    → All (λ b. b ≢ c) post
Distinct-apart c a [] post e d = All-map (λ b p. λ q. p (sym e ∙ sym q)) post d.0
Distinct-apart c a (x ∷ pre) post (inl e) d =
    All-map (λ b p. λ q. p (sym e ∙ sym q)) post (All-right _ (x ∷ pre) post d.0)
Distinct-apart c a (x ∷ pre) post (inr one) d = Distinct-apart c x pre post one d.1

pub last_at-narrow :
    {V : Type 0} (h : ℕ → SkipListNode V) (i a : ℕ) (pre : List ℕ)
    → All (λ b. (h b).width ≤ i) pre
    → last_at h i a pre ≡ a
unfolding last_at
last_at-narrow h i a [] w = refl
last_at-narrow h i a (b ∷ bs) w =
    let narrow : ltb i (h b).width ≡ false = ground (arith, w.0) in
    rw narrow (last_at-narrow h i a bs w.1)

module _ {V : Type 0} (h h' : ℕ → SkipListNode V) (i : ℕ) where
  pub first_at-same :
      (l : List ℕ) → All (λ c. (h' c).width ≡ (h c).width) l → first_at h' i l ≡ first_at h i l
  unfolding first_at
  first_at-same [] s = refl
  first_at-same (b ∷ bs) s = rw (first_at-same bs s.1, s.0) refl

  pub last_at-same :
      (a : ℕ) (l : List ℕ)
      → All (λ c. (h' c).width ≡ (h c).width) l
      → last_at h' i a l ≡ last_at h i a l
  unfolding last_at
  last_at-same a [] s = refl
  last_at-same a (b ∷ bs) s = rw (s.0) (last_at-same (if ltb i (h b).width then b else a) bs s.1)

  -- A change elsewhere leaves the order linked.
  pub Linked-same :
      (l : List ℕ)
      → All (λ c. (h' c).width ≡ (h c).width) l
      → All (λ c. (h' c).forward i ≡ (h c).forward i) l
      → Linked h i l
      → Linked h' i l
  Linked-same [] s f l = tt
  Linked-same (b ∷ bs) s f l =
      (λ w. f.0 ∙ l.0 (omega (arith, s.0)) ∙ sym (first_at-same bs s.1), Linked-same bs s.1 f.1 l.1)

  -- The last node before `tail` is made to point past it, into `tail'`.
  pub relink :
      (a : ℕ) (pre tail tail' : List ℕ)
      → All (λ c. (h' c).width ≡ (h c).width) (a ∷ pre)
      → All (λ c. c ≢ last_at h i a pre → (h' c).forward i ≡ (h c).forward i) (a ∷ pre)
      → Distinct (a ∷ pre)
      → (i < (h (last_at h i a pre)).width
          → (h' (last_at h i a pre)).forward i ≡ first_at h' i tail')
      → Linked h i (a ∷ (pre ++ tail))
      → Linked h' i tail'
      → Linked h' i (a ∷ (pre ++ tail'))
  unfolding last_at first_at
  relink a [] tail tail' s f d p l t = (λ w. p (omega (arith, s.0)), t)
  relink a (b ∷ bs) tail tail' s f d p l t = elim (Bool-cases (ltb i (h b).width)) [
    | inl wide ↦
        let step : last_at h i a (b ∷ bs) ≡ last_at h i b bs = rw wide refl in
        let f' =
          subst (λ x. All (λ c. c ≢ x → (h' c).forward i ≡ (h c).forward i) (a ∷ b ∷ bs)) step f in
        let p' = subst (λ x. i < (h x).width → (h' x).forward i ≡ first_at h' i tail') step p in
        let rest = relink b bs tail tail' s.1 f'.1 d.1 p' l.1 t in
        let first : first_at h i (b ∷ (bs ++ tail)) ≡ some b = rw wide refl in
        let first' : first_at h' i (b ∷ (bs ++ tail')) ≡ some b = rw (s.1.0, wide) refl in
        let apart = ne-OneOf a (last_at h i b bs) b bs (last_at-OneOf h i b bs) d.0 in
        (λ w. f'.0 apart ∙ l.0 (omega (arith, s.0)) ∙ first ∙ sym first', rest)
    | inr narrow ↦
        let step : last_at h i a (b ∷ bs) ≡ last_at h i a bs = rw narrow refl in
        let f' =
          subst (λ x. All (λ c. c ≢ x → (h' c).forward i ≡ (h c).forward i) (a ∷ b ∷ bs)) step f in
        let p' = subst (λ x. i < (h x).width → (h' x).forward i ≡ first_at h' i tail') step p in
        let rest =
          relink a bs tail tail' (s.0, s.1.1) (f'.0, f'.1.1) (d.0.1, d.1.1) p'
            (Linked-skip h i a b (bs ++ tail) narrow l) t in
        let skip : first_at h' i (b ∷ (bs ++ tail')) ≡ first_at h' i (bs ++ tail') =
          rw (s.1.0, narrow) refl in
        (λ w. rest.0 w ∙ sym skip, (λ w. absurd (ground (arith, narrow, s.1.0)), rest.1))
  ]
