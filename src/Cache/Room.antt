-- ===== src/Cache/Room.antt =====
-- When the loop of Put that evicts ends.
use pair_db.Prelude.{
  ◌⊎◌, ℕ, zero, suc, ◌+◌, ◌≤◌, ◌<◌, none, some, true, false, ltb, [], ◌∷◌, length, All, All-map,
  ◌≡◌, ◌≢◌, refl, arith, inl, inr, Bool-cases, Option-cases, ◌∙◌, sym, subst,
}
use pair_db.Bytes.{Bytes, bytes_eq, bytes_eq_iff}
use pair_db.VectorClock.{VectorClock}
use pair_db.ByteMap.{ByteMap, find, delete, find-insert, find-delete, IsDistinct, total}
use pair_db.MemTable.{entry_size}
use pair_db.Cache.{
  Float64, CacheEntry, CacheService, remove, remove_found, touch, add_entry, overwrite, new_entry,
  evict_lowest_score, lowest, make_room, put_at, put,
}
use pair_db.Cache.Accounts.{
  Accounts, weight, evict-Accounts, add_entry-Accounts, overwrite-Accounts,
}

length-delete_le : {V : Type 0} (k : Bytes) (m : ByteMap V) → length (delete k m) ≤ length m
unfolding delete
length-delete_le k [] = omega arith
length-delete_le k ((j, w) ∷ m) = ground (arith, length-delete_le k m)

length-delete :
    {V : Type 0} (k : Bytes) (old : V) (m : ByteMap V)
    → find k m ≡ some old
    → length (delete k m) < length m
unfolding find delete
length-delete k old [] e = ground arith
length-delete k old ((j, w) ∷ m) e = ground (arith, length-delete k old m, length-delete_le k m)

module _ {R : Float64} where
  -- What `range` promises: it visits entries of the map, and at least one if there is one.
  pub record Visits (order : ByteMap (CacheEntry R) → ByteMap (CacheEntry R)) : Type 0 where
    pub only :
        (m : ByteMap (CacheEntry R)) → IsDistinct m → All (λ p. find p.0 m ≡ some p.1) (order m)
    pub some_of : (m : ByteMap (CacheEntry R)) → order m ≡ [] → m ≡ []

  -- Every entry has a key, and a score that eviction can undercut.
  abbrev pub Evictable : CacheService R → Type 0
  Evictable s =
      (k : Bytes) (e : CacheEntry R)
      → find k s.cache ≡ some e
      → (bytes_eq k [] ≡ false) × (R.less e.score (R.of_int 1000000000) ≡ true)

  lowest-one :
      (P : Bytes → Type 0) (m : ByteMap (CacheEntry R)) (key : Bytes) (score : R.Float)
      → P key
      → All (λ p. P p.0) m
      → P (lowest R m key score)
  unfolding lowest
  lowest-one P [] key score p a = p
  lowest-one P ((k, e) ∷ m) key score p a = elim (Bool-cases (R.less e.score score)) [
    | inl better ↦ rw better (lowest-one P m k e.score a.0 a.1)
    | inr worse ↦ rw worse (lowest-one P m key score p a.1)
  ]

  abbrev Known : CacheService R → Bytes → Type 0
  Known s k = (e : CacheEntry R) × (find k s.cache ≡ some e)

  -- Where the list of entries is not empty, the lowest one is an entry.
  lowest-Known :
      (s : CacheService R) (m : ByteMap (CacheEntry R))
      → Evictable s
      → m ≢ []
      → All (λ p. find p.0 s.cache ≡ some p.1) m
      → Known s (lowest R m [] (R.of_int 1000000000))
  unfolding lowest
  lowest-Known s [] v n a = absurd (n refl)
  lowest-Known s ((k, e) ∷ m) v n a =
      let better = (v k e a.0).1 in
      rw better (lowest-one (Known s) m k e.score (e, a.0) (All-map (λ p f. (p.1, f)) m a.1))

  max_size-evict :
      (order : ByteMap (CacheEntry R) → ByteMap (CacheEntry R)) (s : CacheService R)
      → (evict_lowest_score R order s).max_size ≡ s.max_size
  unfolding evict_lowest_score remove remove_found
  max_size-evict order s = ground arith

  make_room-full :
      (order : ByteMap (CacheEntry R) → ByteMap (CacheEntry R)) (fuel size : ℕ) (s : CacheService R)
      → ltb s.max_size (s.current_size + size) ≡ true
      → make_room R order (suc fuel) size s
        ≡ make_room R order fuel size (evict_lowest_score R order s)
  unfolding make_room
  make_room-full order fuel size s full = rw (full, make_room) refl

  make_room-stuck :
      (order : ByteMap (CacheEntry R) → ByteMap (CacheEntry R)) (fuel size : ℕ) (s : CacheService R)
      → s.max_size < size
      → make_room R order fuel size s ≡ none
  unfolding make_room
  make_room-stuck order zero size s large = refl
  make_room-stuck order (suc fuel) size s large =
      let full : ltb s.max_size (s.current_size + size) ≡ true = ground arith in
      make_room-full order fuel size s full
      ∙ make_room-stuck order fuel size (evict_lowest_score R order s)
          (omega (arith, max_size-evict order s, large))

  -- The cache after Put has an entry with the value and the clock.
  abbrev pub Stored : Bytes → Bytes → VectorClock → CacheService R → Type 0
  Stored key value vc s =
      (e : CacheEntry R) × (find key s.cache ≡ some e) × (e.value ≡ value) × (e.vector_clock ≡ vc)

  module _ (order : ByteMap (CacheEntry R) → ByteMap (CacheEntry R)) (visits : Visits order) where
    -- An eviction removes an entry.
    evict_lem :
        (s : CacheService R)
        → Accounts s
        → Evictable s
        → s.cache ≢ []
        → (length (evict_lowest_score R order s).cache < length s.cache)
          × Evictable (evict_lowest_score R order s)
          × ((evict_lowest_score R order s).max_size ≡ s.max_size)
          × ((k : Bytes)
              → find k s.cache ≡ none
              → find k (evict_lowest_score R order s).cache ≡ none)
    unfolding evict_lowest_score remove remove_found
    evict_lem s a v n =
        let key = lowest R (order s.cache) [] (R.of_int 1000000000) in
        let known =
          lowest-Known s (order s.cache) v (λ e. n (visits.some_of s.cache e))
            (visits.only s.cache a.distinct) in
        let named = (v key known.0 known.1).0 in
        rw (named, known.1)
          (
            length-delete key known.0 s.cache known.1,
            λ k e found. v k e (ground (arith, find-delete key k s.cache)),
            refl,
            λ k absent. ground (arith, find-delete key k s.cache),
          )

    make_room_lem :
        (fuel size : ℕ) (s : CacheService R)
        → length s.cache < fuel
        → size ≤ s.max_size
        → Accounts s
        → Evictable s
        → (s' : CacheService R) × (make_room R order fuel size s ≡ some s')
          × Accounts s'
          × (s'.current_size + size ≤ s'.max_size)
          × ((k : Bytes) → find k s.cache ≡ none → find k s'.cache ≡ none)
    unfolding make_room
    make_room_lem zero size s f fits a v = absurd (omega arith)
    make_room_lem (suc fuel) size s f fits a v =
        elim (Bool-cases (ltb s.max_size (s.current_size + size))) [
          | inr enough ↦
              (s, rw (enough, make_room) refl, a, ground (arith, enough), λ k absent. absent)
          | inl full ↦
              let empty : s.cache ≡ [] → ⊥ = λ e.
                let none_left : total weight s.cache ≡ 0 =
                  subst (λ m. total weight m ≡ 0) (sym e) (unfold total in refl) in
                ground (arith, full, none_left, a.counted) in
              let step = evict_lem s a v empty in
              let rest =
                make_room_lem fuel size (evict_lowest_score R order s) (omega (arith, step.0))
                  (omega (arith, step.2)) (evict-Accounts order s a) step.1 in
              (
                rest.0,
                make_room-full order fuel size s full ∙ rest.1,
                rest.2,
                rest.3,
                λ k absent. rest.4 k (step.3 k absent),
              )
        ]

    overwrite-Stored :
        (now since : ℕ) (key value : Bytes) (vc : VectorClock) (old : CacheEntry R)
        (s : CacheService R)
        → Stored key value vc (overwrite R now since key value vc old s)
    unfolding overwrite touch
    overwrite-Stored now since key value vc old s =
        let e = touch R s now since (record old { value = value; vector_clock = vc }) in
        (e, ground (arith, find-insert key key e s.cache, bytes_eq_iff key key), refl, refl)

    add_entry-Stored :
        (now since : ℕ) (key value : Bytes) (vc : VectorClock) (s : CacheService R)
        → Stored key value vc (add_entry R (new_entry R now since key value vc s) s)
    unfolding add_entry new_entry
    add_entry-Stored now since key value vc s =
        let e = new_entry R now since key value vc s in
        (e, ground (arith, find-insert key key e s.cache, bytes_eq_iff key key), refl, refl)

    -- Put ends, within one round of the loop more than there are entries, where the cache accounts for
    -- its entries, every entry can be evicted, and the new one fits into the cache. Then the cache still
    -- accounts for its entries, the value is stored, and the size is within its bound unless the key was
    -- there before.
    pub put-ends :
        (now since : ℕ) (key value : Bytes) (vc : VectorClock) (s : CacheService R)
        → Accounts s
        → Evictable s
        → entry_size key value ≤ s.max_size
        → (s' : CacheService R) × (put R order (length s.cache + 1) now since key value vc s
            ≡ some s')
          × Accounts s'
          × Stored key value vc s'
          × (((old : CacheEntry R) × (find key s.cache ≡ some old))
              ⊎ (s'.current_size ≤ s'.max_size))
    unfolding put put_at
    put-ends now since key value vc s a v fits = elim (Option-cases (find key s.cache)) [
      | inr (old, e) ↦ (
        overwrite R now since key value vc old s,
        rw e refl,
        overwrite-Accounts now since key value vc old s e a,
        overwrite-Stored now since key value vc old s,
        inl (old, e),
      )
      | inl absent ↦
          let room =
            make_room_lem (length s.cache + 1) (entry_size key value) s (omega arith) fits a v in
          let fresh = new_entry R now since key value vc room.0 in
          (
            add_entry R fresh room.0,
            rw (absent, room.1) refl,
            add_entry-Accounts fresh room.0 (unfold new_entry in room.4 key absent) room.2,
            add_entry-Stored now since key value vc room.0,
            inr (unfold add_entry new_entry in omega (arith, room.3)),
          )
    ]

  -- Put of a new key never ends if its entry is larger than the cache may be, whatever the fuel.
  put-oversized :
      (order : ByteMap (CacheEntry R) → ByteMap (CacheEntry R)) (fuel now since : ℕ)
      (key value : Bytes) (vc : VectorClock) (s : CacheService R)
      → find key s.cache ≡ none
      → s.max_size < entry_size key value
      → put R order fuel now since key value vc s ≡ none
  unfolding put put_at
  put-oversized order fuel now since key value vc s absent large =
      let stuck = make_room-stuck order fuel (entry_size key value) s large in
      rw (absent, stuck) refl
