-- ===== src/HintedHandoff/Bounds.antt =====
-- The bound on the hints of a node.
use pair_db.Prelude.{
  str_eq, refl, ℕ, ◌+◌, ◌-◌, ◌≤◌, ◌<◌, String, List, [], ◌∷◌, ◌++◌, length, drop, length-append,
  arith, ◌≡◌, if◌then◌else◌,
}
use pair_db.GoMap.{lookup-insert, lookup-nil}
use pair_db.HintedHandoff.{
  Hint, HintedHandoffService, hints_of, new_service, store_hint, make_room, new_hint,
}
use pair_db.VectorClock.{VectorClock}

pub record IsValid (h : HintedHandoffService) : Type 0 where
  pub positive : 0 < h.max_hints
  pub bounded : (node_id : String) → length (hints_of h node_id) ≤ h.max_hints

pub new_service-IsValid : (max_hints hint_ttl : ℕ) → IsValid (new_service max_hints hint_ttl)
unfolding new_service
new_service-IsValid m t = record {
  positive = ground arith;
  bounded = λ n. ground (arith, lookup-nil {V = List Hint} n);
}

length-make_room : (m : ℕ) (l : List Hint) → 0 < m → length l ≤ m → length (make_room m l) < m
length-make_room m [] p h = ground arith
length-make_room m (x ∷ l) p h = ground arith

make_room_lem :
    (m : ℕ) (l : List Hint) → 0 < m → length l ≤ m → make_room m l ≡ drop (length l + 1 - m) l
make_room_lem m l p h =
    let none_over : length l < m → length l + 1 - m ≡ 0 = λ lt. omega arith in
    let one_over : m ≤ length l → length l + 1 - m ≡ 1 = λ le. omega arith in ground arith

module _ (now : ℕ) (h : HintedHandoffService) (n tenant_id key : String) (value : List ℕ)
    (vc : VectorClock) where
  after : HintedHandoffService
  after = store_hint now h n tenant_id key value vc

  hint : Hint
  hint = new_hint now h n tenant_id key value vc

  pub hints_of-store_hint :
      (j : String)
      → hints_of (store_hint now h n tenant_id key value vc) j ≡ (
          if str_eq n j
          then make_room h.max_hints (hints_of h n) ++ new_hint now h n tenant_id key value vc ∷ []
          else hints_of h j)
  unfolding store_hint
  hints_of-store_hint j = ground (
    arith,
    lookup-insert n j
        (make_room h.max_hints (hints_of h n) ++ new_hint now h n tenant_id key value vc ∷ [])
        h.hints,
  )

  max_hints-after : after.max_hints ≡ h.max_hints
  unfolding store_hint after
  max_hints-after = refl

  after-IsValid : IsValid h → IsValid after
  unfolding after hint
  after-IsValid v =
      let l = hints_of h n in
      let room = length-make_room h.max_hints l v.positive (v.bounded n) in
      record {
        positive = rw max_hints-after v.positive;
        bounded = λ j. rw max_hints-after (
            ground (
              arith,
              hints_of-store_hint j,
              v.bounded j,
              length-append (make_room h.max_hints l) (hint ∷ []),
              room,
            ));
      }

  -- Storing a hint keeps every node within the bound. The hints of its node are the ones that it had,
  -- less the oldest that are one too many, with the new one last; the other nodes keep theirs.
  pub store_hint_lem :
      IsValid h
      → IsValid (store_hint now h n tenant_id key value vc)
        × ((j : String)
            → hints_of (store_hint now h n tenant_id key value vc) j ≡ (
                if str_eq n j
                then drop (length (hints_of h n) + 1 - h.max_hints) (hints_of h n)
                  ++ new_hint now h n tenant_id key value vc ∷ []
                else hints_of h j))
  unfolding after hint
  store_hint_lem v = (
    after-IsValid v,
    λ j.
        rw
          (hints_of-store_hint j, make_room_lem h.max_hints (hints_of h n) v.positive (v.bounded n))
          refl,
  )
