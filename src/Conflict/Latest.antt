-- ===== src/Conflict/Latest.antt =====
-- The version that `DetectConflicts` returns.
use mathlib.Core.Option.{some-injective}
use pair_db.Int64.{Int64}
use pair_db.Prelude.{
  ◌↔◌, ◌≤◌, List, [], ◌∷◌, true, false, none, some, ltb, All, All-map, Any, arith, ◌≡◌, ◌⊎◌, inl,
  inr, refl, Bool-cases, subst, sym, ◌∙◌,
}
use pair_db.GoMap.{Iteration}
use pair_db.VectorClock.{
  VectorClock, VectorClockComparison, identical, before, after, concurrent, ◌≼◌, timestamp,
}
use pair_db.VectorClock.Compare.{compare}
use pair_db.VectorClock.Compare.Causality.{compare-decides}
use pair_db.StorageClient.{StorageResponse}
use pair_db.Conflict.{Scan, is_hit, resolve, visit, scan_rest, scan_first, detect_conflicts}

≼-refl : (a : VectorClock) → a ≼ a
≼-refl a k = omega arith

≼-trans : (a b c : VectorClock) → a ≼ b → b ≼ c → a ≼ c
≼-trans a b c h g k =
    let h' : timestamp a k ≤ timestamp b k = h k in
    let g' : timestamp b k ≤ timestamp c k = g k in omega arith

-- The hit `r` is at most the version `l`.
abbrev pub Covers : StorageResponse → StorageResponse → Type 0
Covers l r = is_hit r ≡ true → r.vector_clock ≼ l.vector_clock

-- The hit `r` is not strictly after the version `l`.
abbrev pub NotAfter : StorageResponse → StorageResponse → Type 0
NotAfter l r = is_hit r ≡ true → l.vector_clock ≼ r.vector_clock → r.vector_clock ≼ l.vector_clock

-- `l` is one of the responses, and a hit.
abbrev pub IsOneOf : List StorageResponse → StorageResponse → Type 0
IsOneOf responses l = Any (λ r. r ≡ l) responses × (is_hit l ≡ true)

Covers-mono : (l m r : StorageResponse) → l.vector_clock ≼ m.vector_clock → Covers l r → Covers m r
Covers-mono l m r h c hit = ≼-trans r.vector_clock l.vector_clock m.vector_clock (c hit) h

NotAfter-mono :
    (l m r : StorageResponse) → l.vector_clock ≼ m.vector_clock → NotAfter l r → NotAfter m r
NotAfter-mono l m r h c hit g =
    ≼-trans r.vector_clock l.vector_clock m.vector_clock
      (c hit (≼-trans l.vector_clock m.vector_clock r.vector_clock h g)) h

module _ (range : Iteration) where
  abbrev Outcome : StorageResponse → Scan → VectorClockComparison → Type 0
  Outcome r s c = compare range r.vector_clock s.latest.vector_clock ≡ c

  resolve-Covers :
      (r : StorageResponse) (s : Scan) (c : VectorClockComparison)
      → Outcome r s c
      → (resolve r s c).has_conflict ≡ false
      → (s.has_conflict ≡ false)
        × (s.latest.vector_clock ≼ (resolve r s c).latest.vector_clock)
        × (r.vector_clock ≼ (resolve r s c).latest.vector_clock)
  unfolding resolve
  resolve-Covers r s identical e h = (
    h,
    ≼-refl s.latest.vector_clock,
    ((compare-decides range r.vector_clock s.latest.vector_clock).0.0 e).0,
  )
  resolve-Covers r s before e h = (
    h,
    ≼-refl s.latest.vector_clock,
    ((compare-decides range r.vector_clock s.latest.vector_clock).1.0 e).0,
  )
  resolve-Covers r s after e h = (
    h,
    ((compare-decides range r.vector_clock s.latest.vector_clock).2.0 e).1,
    ≼-refl r.vector_clock,
  )
  resolve-Covers r s concurrent e h = absurd (cc h)

  resolve-NotAfter :
      (r : StorageResponse) (s : Scan) (c : VectorClockComparison)
      → Outcome r s c
      → r.timestamp ≡ s.latest.timestamp
      → (s.latest.vector_clock ≼ (resolve r s c).latest.vector_clock)
        × NotAfter (resolve r s c).latest r
        × ((resolve r s c).latest.timestamp ≡ s.latest.timestamp)
  unfolding resolve
  resolve-NotAfter r s identical e t = (
    ≼-refl s.latest.vector_clock,
    λ _ _. ((compare-decides range r.vector_clock s.latest.vector_clock).0.0 e).0,
    refl,
  )
  resolve-NotAfter r s before e t = (
    ≼-refl s.latest.vector_clock,
    λ _ _. ((compare-decides range r.vector_clock s.latest.vector_clock).1.0 e).0,
    refl,
  )
  resolve-NotAfter r s after e t = (
    ((compare-decides range r.vector_clock s.latest.vector_clock).2.0 e).1,
    λ _ _. ≼-refl r.vector_clock,
    t,
  )
  resolve-NotAfter r s concurrent e t =
      let kept : ltb s.latest.timestamp r.timestamp ≡ false = ground arith in
      rw kept (
        ≼-refl s.latest.vector_clock,
        λ _ g. absurd (((compare-decides range r.vector_clock s.latest.vector_clock).3.0 e).1 g),
        refl,
      )

  visit-Covers :
      (s : Scan) (r : StorageResponse)
      → (visit range s r).has_conflict ≡ false
      → (s.has_conflict ≡ false)
        × (s.latest.vector_clock ≼ (visit range s r).latest.vector_clock)
        × Covers (visit range s r).latest r
  unfolding visit
  visit-Covers s r h = elim (Bool-cases (is_hit r)) [
    | inl hit ↦
        let (a, b, c) =
          resolve-Covers r s (compare range r.vector_clock s.latest.vector_clock) refl
            (rw hit at h) in
        rw hit (a, b, λ _. c)
    | inr miss ↦ rw miss ((rw miss at h), ≼-refl s.latest.vector_clock, λ hit. absurd (cc hit))
  ]

  visit-NotAfter :
      (s : Scan) (r : StorageResponse)
      → r.timestamp ≡ s.latest.timestamp
      → (s.latest.vector_clock ≼ (visit range s r).latest.vector_clock)
        × NotAfter (visit range s r).latest r
        × ((visit range s r).latest.timestamp ≡ s.latest.timestamp)
  unfolding visit
  visit-NotAfter s r t = elim (Bool-cases (is_hit r)) [
    | inl hit ↦
        let (a, b, c) =
          resolve-NotAfter r s (compare range r.vector_clock s.latest.vector_clock) refl t in
        rw hit (a, λ _. b hit, c)
    | inr miss ↦ rw miss (≼-refl s.latest.vector_clock, λ hit. absurd (cc hit), refl)
  ]

  -- What holds once the loop is through, if it ends without a conflict.
  scan_rest-Covers :
      (rest : List StorageResponse) (s : Scan)
      → (scan_rest range s rest).has_conflict ≡ false
      → (s.has_conflict ≡ false)
        × (s.latest.vector_clock ≼ (scan_rest range s rest).latest.vector_clock)
        × All (Covers (scan_rest range s rest).latest) rest
  unfolding scan_rest
  scan_rest-Covers [] s h = (h, ≼-refl s.latest.vector_clock, tt)
  scan_rest-Covers (r ∷ rest) s h =
      let s' = visit range s r in
      let l = (scan_rest range s' rest).latest in
      let (clear, le, all) = scan_rest-Covers rest s' h in
      let (clear', le', c) = visit-Covers s r clear in
      (
        clear',
        ≼-trans s.latest.vector_clock s'.latest.vector_clock l.vector_clock le' le,
        (Covers-mono s'.latest l r le c, all),
      )

  scan_rest-NotAfter :
      (rest : List StorageResponse) (s : Scan)
      → All (λ r. r.timestamp ≡ s.latest.timestamp) rest
      → (s.latest.vector_clock ≼ (scan_rest range s rest).latest.vector_clock)
        × All (NotAfter (scan_rest range s rest).latest) rest
  unfolding scan_rest
  scan_rest-NotAfter [] s t = (≼-refl s.latest.vector_clock, tt)
  scan_rest-NotAfter (r ∷ rest) s t =
      let s' = visit range s r in
      let l = (scan_rest range s' rest).latest in
      let (le', c, same) = visit-NotAfter s r t.0 in
      let (le, all) = scan_rest-NotAfter rest s' (All-map (λ x e. e ∙ sym same) rest t.1) in
      (
        ≼-trans s.latest.vector_clock s'.latest.vector_clock l.vector_clock le' le,
        (NotAfter-mono s'.latest l r le c, all),
      )

  visit-latest :
      (s : Scan) (r : StorageResponse)
      → ((visit range s r).latest ≡ s.latest) ⊎ ((visit range s r).latest ≡ r) × (is_hit r ≡ true)
  unfolding visit resolve
  visit-latest s r = ground arith

  scan_rest-IsOneOf :
      (rest : List StorageResponse) (s : Scan)
      → is_hit s.latest ≡ true
      → (((scan_rest range s rest).latest ≡ s.latest)
          ⊎ Any (λ r. r ≡ (scan_rest range s rest).latest) rest)
        × (is_hit (scan_rest range s rest).latest ≡ true)
  unfolding scan_rest
  scan_rest-IsOneOf [] s h = (inl refl, h)
  scan_rest-IsOneOf (r ∷ rest) s h =
      let s' = visit range s r in
      let l = (scan_rest range s' rest).latest in
      let step = visit-latest s r in
      let hit : is_hit s'.latest ≡ true = ground arith in
      let (found, hit') = scan_rest-IsOneOf rest s' hit in (join l step found, hit')
    where
      join :
          (l : StorageResponse)
          → ((visit range s r).latest ≡ s.latest)
            ⊎ ((visit range s r).latest ≡ r) × (is_hit r ≡ true)
          → (l ≡ (visit range s r).latest) ⊎ Any (λ x. x ≡ l) rest
          → (l ≡ s.latest) ⊎ Any (λ x. x ≡ l) (r ∷ rest)
      join l (inl e) (inl f) = inl (f ∙ e)
      join l (inr e) (inl f) = inr (inl (sym (f ∙ e.0)))
      join l _ (inr a) = inr (inr a)

  abbrev Verdict : List StorageResponse → Scan → Type 0
  Verdict responses s =
      IsOneOf responses s.latest
      × (s.has_conflict ≡ false → All (Covers s.latest) responses)
      × ((t : Int64) → All (λ r. r.timestamp ≡ t) responses → All (NotAfter s.latest) responses)

  first-Verdict :
      (r : StorageResponse) (rest : List StorageResponse)
      → is_hit r ≡ true
      → Verdict (r ∷ rest) (scan_rest range (record { latest = r; has_conflict = false }) rest)
  first-Verdict r rest hit =
      let start : Scan = record { latest = r; has_conflict = false } in
      let l = (scan_rest range start rest).latest in
      let (found, hit') = scan_rest-IsOneOf rest start hit in
      (
        (first found, hit'),
        λ clear. let (_, le, all) = scan_rest-Covers rest start clear in (λ _. le, all),
        λ t same.
            let (le, all) =
              scan_rest-NotAfter rest start (All-map (λ x e. e ∙ sym same.0) rest same.1) in
            (λ _ _. le, all),
      )
    where
      first :
          (scan_rest range (record { latest = r; has_conflict = false }) rest).latest ≡ r
            ⊎ Any
                (λ x.
                  x ≡ (scan_rest range (record { latest = r; has_conflict = false }) rest).latest)
                rest
          → Any
              (λ x. x ≡ (scan_rest range (record { latest = r; has_conflict = false }) rest).latest)
              (r ∷ rest)
      first (inl e) = inl (sym e)
      first (inr a) = inr a

  pub detect-latest :
      (responses : List StorageResponse) (s : Scan)
      → detect_conflicts range responses ≡ some s
      → Verdict responses s
  unfolding detect_conflicts scan_first
  detect-latest [] s e = absurd (cc e)
  detect-latest (r ∷ rest) s e = elim (Bool-cases (is_hit r)) [
    | inl hit ↦
        subst (Verdict (r ∷ rest)) (some-injective _ s (rw hit at e)) (first-Verdict r rest hit)
    | inr miss ↦
        let (one, covers, maximal) = detect-latest rest s (rw miss at e) in
        (
          (inr one.0, one.1),
          λ clear. (λ hit. absurd (cc hit), covers clear),
          λ t same. (λ hit. absurd (cc hit), maximal t same.1),
        )
  ]

  -- If no conflict is reported, the version that is returned is one of the hits, and every hit is at
  -- most that version in the causal order.
  detect-Covers :
      (responses : List StorageResponse) (s : Scan)
      → detect_conflicts range responses ≡ some s
      → s.has_conflict ≡ false
      → IsOneOf responses s.latest × All (Covers s.latest) responses
  detect-Covers responses s e clear =
      let (one, covers, _) = detect-latest responses s e in (one, covers clear)

  -- If all responses carry one timestamp, the version that is returned is one of the hits, and no hit is
  -- strictly after it in the causal order, conflict or not.
  detect-maximal :
      (responses : List StorageResponse) (s : Scan) (t : Int64)
      → detect_conflicts range responses ≡ some s
      → All (λ r. r.timestamp ≡ t) responses
      → IsOneOf responses s.latest × All (NotAfter s.latest) responses
  detect-maximal responses s t e same =
      let (one, _, maximal) = detect-latest responses s e in (one, maximal t same)

  -- Nothing is returned exactly if no response is a hit.
  detect-none :
      (responses : List StorageResponse)
      → (detect_conflicts range responses ≡ none) ↔ All (λ r. is_hit r ≡ false) responses
  unfolding detect_conflicts scan_first
  detect-none [] = (λ _. tt, λ _. refl)
  detect-none (r ∷ rest) = ground (arith, detect-none rest)
