-- ===== src/HintedHandoff/Replay.antt =====
-- The rounds of a replay, and where one panics.
use pair_db.Prelude.{
  ℕ, ◌-◌, ◌<◌, String, List, [], ◌∷◌, arith, ◌≡◌, refl, true, false, str_eq, eq_refl, if◌then◌else◌,
  select, All, ltb, Bool-cases, none, some, ◌⊎◌, inl, inr, ◌∙◌, ap,
}
use pair_db.GoMap.{lookup-insert, lookup-delete}
use pair_db.HintedHandoff.{
  Hint, HintedHandoffService, hints_of, remove_hint, kept_hints, put_hints, differs, replay_one,
  replay_all, replay_hints_for_node, Sender, replay_hint,
}

-- A node's list is what was put there, an empty one by deletion.
pub hints_of-put_hints :
    (n : String) (l : List Hint) (h : HintedHandoffService) (j : String)
    → hints_of (put_hints n l h) j ≡ (if str_eq n j then l else hints_of h j)
unfolding put_hints
hints_of-put_hints n [] h j = ground (arith, lookup-delete n j h.hints)
hints_of-put_hints n (x ∷ xs) h j = ground (arith, lookup-insert n j (x ∷ xs) h.hints)

pub hint_ttl-put_hints :
    (n : String) (l : List Hint) (h : HintedHandoffService)
    → (put_hints n l h).hint_ttl ≡ h.hint_ttl
unfolding put_hints
hint_ttl-put_hints n [] h = refl
hint_ttl-put_hints n (x ∷ xs) h = refl

module _ (sent : Sender) (now : ℕ) (n : String) where
  -- The hint has expired, or its node takes the write.
  abbrev pub IsDone : ℕ → Hint → Type 0
  IsDone ttl x = (ttl < now - x.timestamp) ⊎ (replay_hint sent x ≡ true)

  pub replay_one-removes :
      (h : HintedHandoffService) (t : Hint)
      → IsDone h.hint_ttl t
      → replay_one sent now n h t ≡ remove_hint h n t
  unfolding replay_one remove_hint
  replay_one-removes h t (inl expired) = ground (arith, expired)
  replay_one-removes h t (inr taken) = elim (Bool-cases (ltb h.hint_ttl (now - t.timestamp))) [
    | inl e ↦ rw e refl
    | inr e ↦ rw (e, taken) refl
  ]

  pub remove_hint-some :
      (h : HintedHandoffService) (t x : Hint) (xs : List Hint)
      → hints_of h n ≡ x ∷ xs
      → remove_hint h n t ≡ some (put_hints n (select (differs t) (x ∷ xs)) h)
  unfolding remove_hint kept_hints
  remove_hint-some h t x xs e = rw e refl

  remove_hint-panics :
      (h : HintedHandoffService) (t : Hint) → hints_of h n ≡ [] → remove_hint h n t ≡ none
  unfolding remove_hint kept_hints
  remove_hint-panics h t e = rw e refl

  -- every hint of the list is one with the hint's key and time
  select-none :
      (t : Hint) (xs : List Hint) → All (λ x. differs t x ≡ false) xs → select (differs t) xs ≡ []
  select-none t [] all = refl
  select-none t (x ∷ xs) all = rw (all.0, select-none t xs all.1) refl

  -- If the first two hints of a node have expired or are taken, and all its hints have the key and time of
  -- the first, as hints of two tenants can have, the replay panics: the first removal leaves no hint, and
  -- the second makes a list with a negative capacity.
  replay-panics :
      (h : HintedHandoffService) (t u : Hint) (rest : List Hint)
      → hints_of h n ≡ t ∷ u ∷ rest
      → All (λ x. differs t x ≡ false) (t ∷ u ∷ rest)
      → IsDone h.hint_ttl t
      → IsDone h.hint_ttl u
      → replay_hints_for_node sent now h n ≡ none
  unfolding replay_hints_for_node replay_all
  replay-panics h t u rest here same first second =
      let left = put_hints n (select (differs t) (t ∷ u ∷ rest)) h in
      let removed = replay_one-removes h t first ∙ remove_hint-some h t t (u ∷ rest) here in
      let gone : hints_of left n ≡ [] =
        hints_of-put_hints n (select (differs t) (t ∷ u ∷ rest)) h n
        ∙ rw (eq_refl n) (select-none t (t ∷ u ∷ rest) same) in
      let ttl = hint_ttl-put_hints n (select (differs t) (t ∷ u ∷ rest)) h in
      let panics = replay_one-removes left u (rw ttl second) ∙ remove_hint-panics left u gone in
      ap (λ l. replay_all sent now n l (some h)) here
      ∙ ap (replay_all sent now n (u ∷ rest)) removed
      ∙ ap (replay_all sent now n rest) panics
