-- ===== src/HintedHandoff/Survivors.antt =====
-- What a replay leaves of a node's hints.
use pair_db.Prelude.{
  ℕ, ◌+◌, ◌-◌, String, List, [], ◌∷◌, ◌++◌, arith, ◌≡◌, sym, subst, refl, true, false, eq_refl,
  if◌then◌else◌, select, map, All, All-map, ltb, leb, ◌==◌, Bool-cases, Option, some, inl, inr, ◌∙◌,
  ap,
}
use mathlib.Core.List.{append_assoc, map-append}
use pair_db.HintedHandoff.{
  Hint, HintedHandoffService, hints_of, remove_hint, kept_hints, bump_retries, put_hints, bump,
  differs, replay_one, replay_all, replay_hints_for_node, Sender, replay_hint,
}
use pair_db.HintedHandoff.Replay.{
  hints_of-put_hints, hint_ttl-put_hints, replay_one-removes, remove_hint-some,
}

module _ (sent : Sender) (now : ℕ) (n : String) where
  -- what a replay leaves of a node's hints: those that failed, with one more retry if it is not the tenth
  unfoldable pub survivors : ℕ → List Hint → List Hint
  survivors ttl [] = []
  survivors ttl (x ∷ xs) =
      let rest = survivors ttl xs in
      if ltb ttl (now - x.timestamp)
      then rest
      else if replay_hint sent x
      then rest
      else if leb 10 (x.retries + 1)
      then rest
      else record x { retries = x.retries + 1 } ∷ rest

  -- Two hints differ in key or time, and are not one object.
  pub record Apart (a b : Hint) : Type 0 where
    keeps : differs a b ≡ true
    keeps' : differs b a ≡ true
    addresses : (a.address == b.address) ≡ false
    addresses' : (b.address == a.address) ≡ false

  abbrev pub Distinct : List Hint → Type 0
  Distinct [] = Unit
  Distinct (x ∷ xs) = All (Apart x) xs × Distinct xs

  select-kept : (t : Hint) (xs : List Hint) → All (Apart t) xs → select (differs t) xs ≡ xs
  select-kept t [] all = refl
  select-kept t (x ∷ xs) all = rw (all.0.keeps, select-kept t xs all.1) refl

  select-append :
      (t : Hint) (xs ys : List Hint)
      → select (differs t) (xs ++ ys) ≡ select (differs t) xs ++ select (differs t) ys
  select-append t [] ys = refl
  select-append t (x ∷ xs) ys = ground (arith, select-append t xs ys)

  map-kept : (t : Hint) (xs : List Hint) → All (Apart t) xs → map (bump t.address) xs ≡ xs
  map-kept t [] all = refl
  map-kept t (x ∷ xs) all = rw (all.0.addresses', map-kept t xs all.1) refl

  All-append : (P : Hint → Type 0) (xs ys : List Hint) → All P xs → All P ys → All P (xs ++ ys)
  All-append P [] ys a b = b
  All-append P (x ∷ xs) ys a b = (a.0, All-append P xs ys a.1 b)

  removed_self :
      (t : Hint) (done rest : List Hint)
      → All (Apart t) done
      → All (Apart t) rest
      → select (differs t) (done ++ t ∷ rest) ≡ done ++ rest
  removed_self t done rest before after =
      let self : differs t t ≡ false = ground (arith, eq_refl t.key) in
      select-append t done (t ∷ rest)
      ∙ rw (select-kept t done before, self, select-kept t rest after) refl

  bumped_self :
      (t : Hint) (done rest : List Hint)
      → All (Apart t) done
      → All (Apart t) rest
      → map (bump t.address) (done ++ t ∷ rest)
        ≡ done ++ record t { retries = t.retries + 1 } ∷ rest
  bumped_self t done rest before after =
      let self : (t.address == t.address) ≡ true = ground arith in
      map-append (bump t.address) done (t ∷ rest)
      ∙ rw (map-kept t done before, self, map-kept t rest after) refl

  remove_hint-nonempty :
      (h : HintedHandoffService) (t : Hint) (done : List Hint) (x : Hint) (rest : List Hint)
      → hints_of h n ≡ done ++ x ∷ rest
      → remove_hint h n t ≡ some (put_hints n (select (differs t) (done ++ x ∷ rest)) h)
  remove_hint-nonempty h t [] x rest e = remove_hint-some sent now n h t x rest e
  remove_hint-nonempty h t (d ∷ done) x rest e =
      remove_hint-some sent now n h t d (done ++ x ∷ rest) e

  -- After a round the service has these hints, and its time to live is the same.
  abbrev Leaves : HintedHandoffService → List Hint → Option HintedHandoffService → Type 0
  Leaves h l r =
      (h' : HintedHandoffService) × (r ≡ some h') × (hints_of h' n ≡ l) × (h'.hint_ttl ≡ h.hint_ttl)

  remove_hint-Leaves :
      (h : HintedHandoffService) (t : Hint) (done rest : List Hint)
      → hints_of h n ≡ done ++ t ∷ rest
      → All (Apart t) done
      → All (Apart t) rest
      → Leaves h (done ++ rest) (remove_hint h n t)
  remove_hint-Leaves h t done rest here before after =
      let left = select (differs t) (done ++ t ∷ rest) in
      (
        put_hints n left h,
        remove_hint-nonempty h t done t rest here,
        hints_of-put_hints n left h n ∙ rw (eq_refl n) (removed_self t done rest before after),
        hint_ttl-put_hints n left h,
      )

  -- the hint with one more retry
  abbrev retried : Hint → Hint
  retried t = record t { retries = t.retries + 1 }

  Apart-retried : (t : Hint) (xs : List Hint) → All (Apart t) xs → All (Apart (retried t)) xs
  Apart-retried t xs all =
      All-map
        (λ x a. record {
          keeps = a.keeps;
          keeps' = a.keeps';
          addresses = a.addresses;
          addresses' = a.addresses';
        })
        xs all

  bump_retries-hints :
      (h : HintedHandoffService) (t : Hint) (done rest : List Hint)
      → hints_of h n ≡ done ++ t ∷ rest
      → All (Apart t) done
      → All (Apart t) rest
      → (hints_of (bump_retries h n t.address) n ≡ done ++ retried t ∷ rest)
        × ((bump_retries h n t.address).hint_ttl ≡ h.hint_ttl)
  unfolding bump_retries
  bump_retries-hints h t done rest here before after =
      let left = map (bump t.address) (hints_of h n) in
      (
        hints_of-put_hints n left h n
            ∙ rw (eq_refl n)
                (ap (map (bump t.address)) here ∙ bumped_self t done rest before after),
        hint_ttl-put_hints n left h,
      )

  tenth-Leaves :
      (h : HintedHandoffService) (t : Hint) (done rest : List Hint)
      → hints_of h n ≡ done ++ t ∷ rest
      → All (Apart t) done
      → All (Apart t) rest
      → Leaves h (done ++ rest) (remove_hint (bump_retries h n t.address) n t)
  unfolding remove_hint kept_hints
  tenth-Leaves h t done rest here before after =
      let h1 = bump_retries h n t.address in
      let (bumped, ttl) = bump_retries-hints h t done rest here before after in
      let (h2, removes, left, ttl2) =
        remove_hint-Leaves h1 (retried t) done rest bumped (Apart-retried t done before)
          (Apart-retried t rest after) in
      (h2, removes, left, ttl2 ∙ ttl)

  abbrev Survive :
      HintedHandoffService → List Hint → List Hint → Option HintedHandoffService → Type 0
  Survive h done todo r =
      (h' : HintedHandoffService) × (r ≡ some h')
      × (hints_of h' n ≡ done ++ survivors h.hint_ttl todo)

  -- A round that drops its hint, and a round that keeps it with one more retry.
  Survive-dropped :
      (h : HintedHandoffService) (done rest : List Hint) (r : Option HintedHandoffService)
      → Leaves h (done ++ rest) r
      → ((h' : HintedHandoffService)
          → hints_of h' n ≡ done ++ rest
          → Survive h' done rest (replay_all sent now n rest (some h')))
      → Survive h done rest (replay_all sent now n rest r)
  Survive-dropped h done rest r (h', e, left, ttl) go =
      let (h2, ends, kept) = go h' left in
      (h2, ap (replay_all sent now n rest) e ∙ ends, kept ∙ ap (λ l. done ++ survivors l rest) ttl)

  replay_one-fails :
      (h : HintedHandoffService) (t : Hint)
      → ltb h.hint_ttl (now - t.timestamp) ≡ false
      → replay_hint sent t ≡ false
      → replay_one sent now n h t ≡ (
          let h' = bump_retries h n t.address in
          if leb 10 (t.retries + 1) then remove_hint h' n t else some h')
  unfolding replay_one remove_hint bump_retries
  replay_one-fails h t fresh failed = rw (fresh, failed) refl

  next-Apart :
      (t : Hint) (done rest : List Hint)
      → All (λ x. All (Apart x) done) rest
      → All (Apart t) rest
      → All (λ x. All (Apart x) (done ++ retried t ∷ [])) rest
  next-Apart t done [] before after = tt
  next-Apart t done (x ∷ rest) before after = (
    All-append (Apart x) done (retried t ∷ []) before.0 (
      record {
        keeps = after.0.keeps';
        keeps' = after.0.keeps;
        addresses = after.0.addresses';
        addresses' = after.0.addresses;
      },
      tt,
    ),
    next-Apart t done rest before.1 after.1,
  )

  replay-Survive :
      (todo done : List Hint) (h : HintedHandoffService)
      → hints_of h n ≡ done ++ todo
      → All (λ t. All (Apart t) done) todo
      → Distinct todo
      → Survive h done todo (replay_all sent now n todo (some h))
  unfolding replay_all survivors
  replay-Survive [] done h here before apart = (h, refl, here)
  replay-Survive (t ∷ rest) done h here before apart =
      let go = λ (h' : HintedHandoffService) (e : hints_of h' n ≡ done ++ rest).
        replay-Survive rest done h' e before.1 apart.1 in
      let drop = λ (e : replay_one sent now n h t ≡ remove_hint h n t).
        Survive-dropped h done rest (replay_one sent now n h t)
          (subst (Leaves h (done ++ rest)) (sym e)
            (remove_hint-Leaves h t done rest here before.0 apart.0))
          go in
      elim (Bool-cases (ltb h.hint_ttl (now - t.timestamp))) [
        | inl expired ↦ rw expired (drop (replay_one-removes sent now n h t (inl (ground arith))))
        | inr fresh ↦ elim (Bool-cases (replay_hint sent t)) [
          | inl taken ↦ rw (fresh, taken) (drop (replay_one-removes sent now n h t (inr taken)))
          | inr failed ↦ elim (Bool-cases (leb 10 (t.retries + 1))) [
            | inl tenth ↦
                rw (fresh, failed, tenth)
                  (Survive-dropped h done rest (replay_one sent now n h t)
                    (subst (Leaves h (done ++ rest))
                      (sym (replay_one-fails h t fresh failed ∙ rw tenth refl))
                      (tenth-Leaves h t done rest here before.0 apart.0))
                    go)
            | inr more ↦
                let h1 = bump_retries h n t.address in
                let (bumped, ttl) = bump_retries-hints h t done rest here before.0 apart.0 in
                let (h2, ends, kept) =
                  replay-Survive rest (done ++ retried t ∷ []) h1
                    (bumped ∙ sym (append_assoc done (retried t ∷ []) rest))
                    (next-Apart t done rest before.1 apart.0) apart.1 in
                let step : replay_one sent now n h t ≡ some h1 =
                  replay_one-fails h t fresh failed ∙ rw more refl in
                rw (fresh, failed, more)
                  (
                    h2,
                    ap (replay_all sent now n rest) step ∙ ends,
                    kept
                        ∙ append_assoc done (retried t ∷ []) (survivors h1.hint_ttl rest)
                        ∙ ap (λ l. done ++ retried t ∷ survivors l rest) ttl,
                  )
          ]
        ]
      ]

  nothing_before : (xs : List Hint) → All (λ t. All (Apart t) []) xs
  nothing_before [] = tt
  nothing_before (x ∷ xs) = (tt, nothing_before xs)

  -- If no two hints of a node have the same key and time, or are one object, a replay does not panic. What
  -- it leaves of them is exactly the hints that have not expired and whose write failed for less than the
  -- tenth time, in their order, each with one more retry.
  pub replay-survivors :
      (h : HintedHandoffService)
      → Distinct (hints_of h n)
      → (h' : HintedHandoffService) × (replay_hints_for_node sent now h n ≡ some h')
        × (hints_of h' n ≡ survivors h.hint_ttl (hints_of h n))
  unfolding replay_hints_for_node
  replay-survivors h apart =
      replay-Survive (hints_of h n) [] h refl (nothing_before (hints_of h n)) apart
