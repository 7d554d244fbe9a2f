-- ===== src/VectorClock/Storage/Causality.antt =====
-- When the storage node's comparisons decide the causal order.
use pair_db.Prelude.{
  ◌≤◌, ◌<◌, String, none, some, Option, Bool, true, false, ◌≡◌, ◌↔◌, ◌⊎◌, inl, inr, Bool-cases,
  subst, sym, ◌∙◌, refl, arith, Option-cases,
}
use pair_db.GoMap.{GoMap, Iteration, lookup}
use pair_db.GoMap.Entries.{OnEntries}
use pair_db.Int64.{Int64, zero64}
use pair_db.VectorClock.{VectorClock, to_map, timestamp, ◌≼◌}
use pair_db.VectorClock.Storage.Loops.{
  NotAhead, NotBehind, NotExtra, scan_all-ahead, scan_all-behind, scan_default-ahead,
  scan_default-behind, scan_only-a, scan_only-b, OnEntries-range,
}
use pair_db.VectorClock.Storage.{
  Greater, Verdict, less, concurrent, greater, scan_all, scan_default, scan_only, verdict, neither,
  scan_both, scan_both_default, compare, compare_vector_clocks,
}

-- Every entry of the clock satisfies `P`.
abbrev pub Timestamps : (Int64 → Type 0) → VectorClock → Type 0
Timestamps P vc = (k : String) (t : Int64) → lookup k (to_map vc) ≡ some t → P t

-- Per node: what the entries of both clocks meet is the causal order.
module _ (a b : VectorClock) where
  ahead_iff :
      Timestamps (λ t. zero64 < t) a
      → Timestamps (λ t. zero64 < t) b
      → ((k : String) (t : Int64) → lookup k (to_map a) ≡ some t → NotAhead (lookup k (to_map b)) t)
        ↔ (a ≼ b)
  ahead_iff pa pb = (
    λ h k. elim (Option-cases (lookup k (to_map a))) [
      | inl e ↦ elim (Option-cases (lookup k (to_map b))) [
        | inl f ↦ ground arith
        | inr (t, f) ↦ ground (arith, pb k t f)
      ]
      | inr (t, e) ↦ ground (arith, h k t e, Option-cases (lookup k (to_map b)))
    ],
    λ h k t e. ground (arith, h k, pa k t e, Option-cases (lookup k (to_map b))),
  )

  default_iff :
      Timestamps (λ t. zero64 ≤ t) b
      → ((k : String) (t : Int64) → lookup k (to_map a) ≡ some t → t ≤ timestamp b k) ↔ (a ≼ b)
  default_iff pb = (
    λ h k. elim (Option-cases (lookup k (to_map a))) [
      | inl e ↦ elim (Option-cases (lookup k (to_map b))) [
        | inl f ↦ ground arith
        | inr (t, f) ↦ ground (arith, pb k t f)
      ]
      | inr (t, e) ↦ ground (arith, h k t e)
    ],
    λ h k t e. ground (arith, h k),
  )

  behind_iff :
      (P : String → Int64 → Type 0)
      → ((k : String) (t : Int64) → lookup k (to_map a) ≡ some t → P k t ↔ (timestamp b k ≤ t))
      → (((k : String) (t : Int64) → lookup k (to_map a) ≡ some t → P k t)
          × ((k : String) (t : Int64)
              → lookup k (to_map b) ≡ some t
              → NotExtra (lookup k (to_map a)) t))
        ↔ (b ≼ a)
  behind_iff P same = (
    λ h k. elim (Option-cases (lookup k (to_map a))) [
      | inl e ↦ elim (Option-cases (lookup k (to_map b))) [
        | inl f ↦ ground arith
        | inr (t, f) ↦ ground (arith, h.1 k t f)
      ]
      | inr (t, e) ↦ let le = (same k t e).0 (h.0 k t e) in ground arith
    ],
    λ h. (
      λ k t e. (same k t e).1 (ground (arith, h k)),
      λ k t e. ground (arith, h k, Option-cases (lookup k (to_map a))),
    ),
  )

abbrev pub VerdictDecides : Verdict → Type 0 → Type 0 → Type 0
VerdictDecides r P Q =
    ((r ≡ less) ↔ (P × ¬ Q))
    × ((r ≡ greater) ↔ ((¬ P) × Q))
    × ((r ≡ concurrent) ↔ ((P × Q) ⊎ ((¬ P) × ¬ Q)))

verdict-VerdictDecides :
    (x y : Bool) (P Q : Type 0)
    → (x ≡ false) ↔ P
    → (y ≡ false) ↔ Q
    → VerdictDecides (verdict (record { a_greater = x; b_greater = y })) P Q
unfolding verdict
verdict-VerdictDecides false false P Q hp hq =
    let p = hp.0 refl in
    let q = hq.0 refl in
    ((λ e. cc, λ h. absurd (h.1 q)), (λ e. cc, λ h. absurd (h.0 p)), (λ _. inl (p, q), λ _. refl))
verdict-VerdictDecides false true P Q hp hq =
    let p = hp.0 refl in
    let not_q : ¬ Q = λ q. cc (hq.1 q) in
    (
      (λ _. (p, not_q), λ _. refl),
      (λ e. cc, λ h. absurd (h.0 p)),
      (λ e. cc, elim [ inl h ↦ absurd (not_q h.1) | inr h ↦ absurd (h.0 p) ]),
    )
verdict-VerdictDecides true false P Q hp hq =
    let q = hq.0 refl in
    let not_p : ¬ P = λ p. cc (hp.1 p) in
    (
      (λ e. cc, λ h. absurd (not_p h.0)),
      (λ _. (not_p, q), λ _. refl),
      (λ e. cc, elim [ inl h ↦ absurd (not_p h.0) | inr h ↦ absurd (h.1 q) ]),
    )
verdict-VerdictDecides true true P Q hp hq =
    let not_p : ¬ P = λ p. cc (hp.1 p) in
    let not_q : ¬ Q = λ q. cc (hq.1 q) in
    (
      (λ e. cc, λ h. absurd (not_p h.0)),
      (λ e. cc, λ h. absurd (not_q h.1)),
      (λ _. inr (not_p, not_q), λ _. refl),
    )

module _ (range : Iteration) (a b : VectorClock) where
  a_entries : GoMap Int64
  a_entries = range.order Int64 (to_map a)

  b_entries : GoMap Int64
  b_entries = range.order Int64 (to_map b)

  extra_iff :
      (g : Greater)
      → ((scan_only (to_map a) g b_entries).b_greater ≡ false) ↔ (
          (g.b_greater ≡ false)
          × ((k : String) (t : Int64)
              → lookup k (to_map b) ≡ some t
              → NotExtra (lookup k (to_map a)) t))
  unfolding b_entries
  extra_iff g =
      let only = scan_only-b (to_map a) (range.order Int64 (to_map b)) g in
      let all = OnEntries-range range b (λ k. NotExtra (lookup k (to_map a))) in
      (λ h. ((only.0 h).0, all.0 (only.0 h).1), λ h. only.1 (h.0, all.1 h.1))

  behind_flag :
      (g : Greater) (B : String → Int64 → Type 0)
      → (g.b_greater ≡ false) ↔ ((false ≡ false) × OnEntries B a_entries)
      → ((k : String) (t : Int64) → lookup k (to_map a) ≡ some t → B k t ↔ (timestamp b k ≤ t))
      → ((scan_only (to_map a) g b_entries).b_greater ≡ false) ↔ (b ≼ a)
  unfolding a_entries
  behind_flag g B loop_b behind =
      let all_b = OnEntries-range range a B in
      let rest = behind_iff a b B behind in
      (
        λ h. let e = (extra_iff g).0 h in rest.0 (all_b.0 (loop_b.0 e.0).1, e.1),
        λ h. (extra_iff g).1 (loop_b.1 (refl, all_b.1 (rest.1 h).0), (rest.1 h).1),
      )

  -- The flags after the first loop `g`, whose conditions on the entries of `a` are `A` and `B`.
  both_decide :
      (g : Greater) (A B : String → Int64 → Type 0)
      → (g.a_greater ≡ false) ↔ ((false ≡ false) × OnEntries A a_entries)
      → (g.b_greater ≡ false) ↔ ((false ≡ false) × OnEntries B a_entries)
      → ((k : String) (t : Int64) → lookup k (to_map a) ≡ some t → A k t) ↔ (a ≼ b)
      → ((k : String) (t : Int64) → lookup k (to_map a) ≡ some t → B k t ↔ (timestamp b k ≤ t))
      → VerdictDecides (verdict (scan_only (to_map a) g b_entries)) (a ≼ b) (b ≼ a)
  unfolding a_entries
  both_decide g A B loop_a loop_b ahead behind =
      let g' = scan_only (to_map a) g b_entries in
      let same = scan_only-a (to_map a) b_entries g in
      let all_a = OnEntries-range range a A in
      verdict-VerdictDecides g'.a_greater g'.b_greater (a ≼ b) (b ≼ a)
        (
          λ h. ahead.0 (all_a.0 (loop_a.0 (sym same ∙ h)).1),
          λ h. same ∙ loop_a.1 (refl, all_a.1 (ahead.1 h)),
        )
        (behind_flag g B loop_b behind)

  -- Where every timestamp is positive, the comparison decides the causal order; the result 0 stands
  -- for equal clocks too.
  service_compare-decides :
      Timestamps (λ t. zero64 < t) a
      → Timestamps (λ t. zero64 < t) b
      → VerdictDecides (compare range a b) (a ≼ b) (b ≼ a)
  unfolding compare scan_both a_entries b_entries
  service_compare-decides pa pb =
      both_decide (scan_all (to_map b) neither a_entries) (λ k. NotAhead (lookup k (to_map b)))
        (λ k. NotBehind (lookup k (to_map b))) (scan_all-ahead (to_map b) a_entries neither)
        (scan_all-behind (to_map b) a_entries neither) (ahead_iff a b pa pb)
        (λ k t e. ground (arith, pa k t e, Option-cases (lookup k (to_map b))))

  -- In compaction the timestamps only must not be negative.
  compare_vector_clocks-decides :
      Timestamps (λ t. zero64 ≤ t) b
      → VerdictDecides (compare_vector_clocks range a b) (a ≼ b) (b ≼ a)
  unfolding compare_vector_clocks scan_both_default a_entries b_entries
  compare_vector_clocks-decides pb =
      both_decide (scan_default (to_map b) neither a_entries) (λ k t. t ≤ timestamp b k)
        (λ k t. timestamp b k ≤ t) (scan_default-ahead (to_map b) a_entries neither)
        (scan_default-behind (to_map b) a_entries neither) (default_iff a b pb)
        (λ k t e. (λ h. h, λ h. h))

  -- A node with timestamp 0 in `a` and no entry in `b` makes `a` count as newer than an equal `b`.
  compare-zero_entry :
      (k : String)
      → lookup k (to_map a) ≡ some zero64
      → lookup k (to_map b) ≡ none
      → Timestamps (λ t. zero64 ≤ t) a
      → b ≼ a
      → compare range a b ≡ greater
  unfolding compare scan_both a_entries b_entries verdict
  compare-zero_entry k ea eb na below =
      let g = scan_all (to_map b) neither a_entries in
      let g' = scan_only (to_map a) g b_entries in
      let newer : g'.b_greater ≡ false =
        (behind_flag g (λ j. NotBehind (lookup j (to_map b)))
            (scan_all-behind (to_map b) a_entries neither)
            (λ j t e. ground (arith, na j t e, Option-cases (lookup j (to_map b))))).1
          below in
      elim (Bool-cases g'.a_greater) [
        | inl ahead ↦ rw (ahead, newer)
        | inr level ↦ absurd (
            subst (λ (o : Option Int64). NotAhead o zero64) eb
              ((OnEntries-range range a (λ j. NotAhead (lookup j (to_map b)))).0
                ((scan_all-ahead (to_map b) a_entries neither).0
                  (sym (scan_only-a (to_map a) b_entries g) ∙ level)).1
                k zero64 ea))
      ]
