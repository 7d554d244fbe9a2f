-- ===== src/HintReplay/Rounds.antt =====
-- When the replay of a node's stored hints ends.
use pair_db.Prelude.{
  ℕ, suc, zero, ◌≤◌, ◌<◌, String, List, [], ◌∷◌, Bool, true, false, not, str_eq, eq_iff, ◌&&◌, none,
  some, take, select, length, length-select, count_if-le-length, Any, All, All-select, ◌≡◌, ◌≢◌,
  refl, ap, inl, inr, arith, Bool-cases,
}
use pair_db.HintReplay.{
  StoredHint, HintReplayService, is_finished, replay_one, replay_batch, replay_rounds,
  replay_hints_for_node,
}

length-select-le {ℓ} : {A : Type ℓ} (p : A → Bool) (xs : List A) → length (select p xs) ≤ length xs
length-select-le p xs = omega (arith, length-select p xs, count_if-le-length p xs)

Any-select {ℓ} :
    {A : Type ℓ} (P : A → Type 0) (p : A → Bool) (xs : List A)
    → ((x : A) → P x → p x ≡ true)
    → Any P xs
    → Any P (select p xs)
Any-select P p [] f h = absurd h
Any-select P p (x ∷ xs) f (inl h) = rw (f x h) (inl h)
Any-select P p (x ∷ xs) f (inr h) = elim (Bool-cases (p x)) [
  | inl e ↦ rw e (inr (Any-select P p xs f h))
  | inr e ↦ rw e (Any-select P p xs f h)
]

All-take {ℓ} : {A : Type ℓ} (P : A → Type 0) (n : ℕ) (xs : List A) → All P xs → All P (take n xs)
All-take P zero xs h = tt
All-take P (suc n) [] h = tt
All-take P (suc n) (x ∷ xs) h = (h.0, All-take P n xs h.1)

module _ (sent : StoredHint → Bool) (deleted : String → Bool) (s : HintReplayService) where
  length-replay_one :
      (hints : List StoredHint) (h : StoredHint)
      → length (replay_one sent deleted s hints h) ≤ length hints
  unfolding replay_one
  length-replay_one hints h =
      ground (arith, length-select-le (λ (x : StoredHint). not (str_eq x.hint_id h.hint_id)) hints)

  length-replay_batch :
      (batch hints : List StoredHint)
      → length (replay_batch sent deleted s hints batch) ≤ length hints
  unfolding replay_batch
  length-replay_batch [] hints = omega arith
  length-replay_batch (h ∷ batch) hints = omega (
    arith,
    length-replay_one hints h,
    length-replay_batch batch (replay_one sent deleted s hints h),
  )

  module _
      (works : (h : StoredHint)
        → (is_finished sent deleted s h ≡ true) × (deleted h.hint_id ≡ true)) where
    head-replay_one :
        (h : StoredHint) (hints : List StoredHint)
        → length (replay_one sent deleted s (h ∷ hints) h) ≤ length hints
    unfolding replay_one
    head-replay_one h hints = ground (
      arith,
      works h,
      eq_iff h.hint_id h.hint_id,
      length-select-le (λ (x : StoredHint). not (str_eq x.hint_id h.hint_id)) hints,
    )

    -- from a batch of `n` hints on
    rounds-end :
        (fuel : ℕ) (hints : List StoredHint) (n : ℕ)
        → 0 < n
        → 0 < s.batch_size
        → length hints ≤ fuel
        → replay_rounds sent deleted s fuel hints (take n hints) ≡ some []
    unfolding replay_rounds replay_batch
    rounds-end fuel hints zero n_pos pos enough = absurd (omega (arith, n_pos))
    rounds-end zero [] (suc n) n_pos pos enough = refl
    rounds-end (suc fuel) [] (suc n) n_pos pos enough = refl
    rounds-end zero (h ∷ hints) (suc n) n_pos pos enough = absurd (omega (arith, enough))
    rounds-end (suc fuel) (h ∷ hints) (suc n) n_pos pos enough =
        let left = replay_one sent deleted s (h ∷ hints) h in
        rounds-end fuel (replay_batch sent deleted s left (take n hints)) s.batch_size pos pos
          (omega (arith, enough, head-replay_one h hints, length-replay_batch (take n hints) left))

  -- If every hint is taken by the node or has no retry left, and every delete succeeds, as many rounds as
  -- there are hints are enough, and no hint is left.
  pub replay-ends :
      (hints : List StoredHint)
      → ((h : StoredHint) → (is_finished sent deleted s h ≡ true) × (deleted h.hint_id ≡ true))
      → 0 < s.batch_size
      → replay_hints_for_node sent deleted s (length hints) hints ≡ some []
  unfolding replay_hints_for_node
  replay-ends hints works pos =
      rounds-end works (length hints) hints s.batch_size pos pos (omega arith)

  module _ (x : StoredHint) where
    -- A hint with the id of `x` is not finished.
    abbrev pub Stays : StoredHint → Type 0
    Stays h = h.hint_id ≡ x.hint_id → is_finished sent deleted s h ≡ false

    -- `x` is among the hints, and those with its id are not finished.
    abbrev Waits : List StoredHint → Type 0
    Waits hints = Any (λ y. y ≡ x) hints × All Stays hints

    Waits-replay_one :
        (hints : List StoredHint) (h : StoredHint)
        → Stays h
        → Waits hints
        → Waits (replay_one sent deleted s hints h)
    unfolding replay_one
    Waits-replay_one hints h stays (a, all) =
        elim (Bool-cases (is_finished sent deleted s h && deleted h.hint_id)) [
          | inl e ↦
              let other : h.hint_id ≢ x.hint_id = λ same. ground (arith, stays same, e) in
              let p : StoredHint → Bool = λ y. not (str_eq y.hint_id h.hint_id) in
              rw e (
                Any-select (λ y. y ≡ x) p hints
                    (λ y same.
                      ground (
                        arith,
                        eq_iff y.hint_id h.hint_id,
                        ap (λ (z : StoredHint). z.hint_id) same,
                      ))
                    a,
                All-select Stays p (λ y b _. b) hints all,
              )
          | inr e ↦ rw e (a, all)
        ]

    Waits-replay_batch :
        (batch hints : List StoredHint)
        → All Stays batch
        → Waits hints
        → Waits (replay_batch sent deleted s hints batch)
    unfolding replay_batch
    Waits-replay_batch [] hints b w = w
    Waits-replay_batch (h ∷ batch) hints b w =
        Waits-replay_batch batch (replay_one sent deleted s hints h) b.1
          (Waits-replay_one hints h b.0 w)

    -- from a batch of `n` hints on
    rounds-go_on :
        (fuel : ℕ) (hints : List StoredHint) (n : ℕ)
        → 0 < n
        → 0 < s.batch_size
        → Waits hints
        → replay_rounds sent deleted s fuel hints (take n hints) ≡ none
    unfolding replay_rounds
    rounds-go_on fuel hints zero n_pos pos w = absurd (omega (arith, n_pos))
    rounds-go_on fuel [] (suc n) n_pos pos w = absurd w.0
    rounds-go_on zero (h ∷ hints) (suc n) n_pos pos w = refl
    rounds-go_on (suc fuel) (h ∷ hints) (suc n) n_pos pos w =
        rounds-go_on fuel (replay_batch sent deleted s (h ∷ hints) (h ∷ take n hints)) s.batch_size
          pos pos
          (Waits-replay_batch (h ∷ take n hints) (h ∷ hints) (w.1.0, All-take Stays n hints w.1.1)
            w)

  -- While a stored hint is refused by the node and has a retry left, and so for others with its id, the
  -- replay does not end, however many rounds it is given: the count of its retries never grows.
  pub replay-stuck :
      (hints : List StoredHint) (x : StoredHint) (fuel : ℕ)
      → Any (λ y. y ≡ x) hints
      → All (Stays x) hints
      → 0 < s.batch_size
      → replay_hints_for_node sent deleted s fuel hints ≡ none
  unfolding replay_hints_for_node
  replay-stuck hints x fuel a stays pos = rounds-go_on x fuel hints s.batch_size pos pos (a, stays)
