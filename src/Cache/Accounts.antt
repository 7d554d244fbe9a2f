-- ===== src/Cache/Accounts.antt =====
-- The size that the cache keeps is that of its entries.
use pair_db.Prelude.{
  ℕ, none, some, [], ◌≡◌, refl, arith, inl, inr, Bool-cases, Option-cases, ap, length,
}
use pair_db.Bytes.{Bytes, bytes_eq, bytes_eq_iff}
use pair_db.VectorClock.{VectorClock}
use pair_db.ByteMap.{
  ByteMap, find, insert, find-insert, find-delete, IsDistinct, insert-IsDistinct, delete-IsDistinct,
  total, total-insert_new, total-insert_old, total-delete,
}
use pair_db.MemTable.{entry_size}
use pair_db.Cache.{
  Float64, CacheEntry, CacheService, get, get_found, remove, remove_found, touch, add_entry,
  overwrite, evict_lowest_score, lowest,
}

module _ {R : Float64} where
  abbrev pub weight : CacheEntry R → ℕ
  weight e = entry_size e.key e.value

  pub record Accounts (s : CacheService R) : Type 0 where
    pub distinct : IsDistinct s.cache
    pub keyed : (k : Bytes) (e : CacheEntry R) → find k s.cache ≡ some e → e.key ≡ k
    pub counted : s.current_size ≡ total weight s.cache

  insert-keyed :
      (k : Bytes) (v : CacheEntry R) (m : ByteMap (CacheEntry R))
      → v.key ≡ k
      → ((j : Bytes) (e : CacheEntry R) → find j m ≡ some e → e.key ≡ j)
      → (j : Bytes) (e : CacheEntry R) → find j (insert k v m) ≡ some e
      → e.key ≡ j
  insert-keyed k v m same keyed j e found =
      ground (arith, find-insert k j v m, bytes_eq_iff k j, keyed j e)

  pub remove-Accounts : (key : Bytes) (s : CacheService R) → Accounts s → Accounts (remove R key s)
  unfolding remove remove_found
  remove-Accounts key s a = elim (Option-cases (find key s.cache)) [
    | inl e ↦ rw e a
    | inr (old, e) ↦ rw e record {
      distinct = delete-IsDistinct key s.cache a.distinct;
      keyed = λ k v found. ground (arith, find-delete key k s.cache, a.keyed k v);
      counted = omega (arith, a.counted, total-delete weight key old s.cache a.distinct e);
    }
  ]

  pub evict-Accounts :
      (order : ByteMap (CacheEntry R) → ByteMap (CacheEntry R)) (s : CacheService R)
      → Accounts s
      → Accounts (evict_lowest_score R order s)
  unfolding evict_lowest_score
  evict-Accounts order s a =
      let key = lowest R (order s.cache) [] (R.of_int 1000000000) in
      elim (Bool-cases (bytes_eq key [])) [
        | inl e ↦ rw e a
        | inr e ↦ rw e (remove-Accounts key s a)
      ]

  pub add_entry-Accounts :
      (e : CacheEntry R) (s : CacheService R)
      → find e.key s.cache ≡ none
      → Accounts s
      → Accounts (add_entry R e s)
  unfolding add_entry
  add_entry-Accounts e s absent a = record {
    distinct = insert-IsDistinct e.key e s.cache a.distinct;
    keyed = insert-keyed e.key e s.cache refl a.keyed;
    counted = omega (arith, a.counted, total-insert_new weight e.key e s.cache absent);
  }

  pub overwrite-Accounts :
      (now since : ℕ) (key value : Bytes) (vc : VectorClock) (old : CacheEntry R)
      (s : CacheService R)
      → find key s.cache ≡ some old
      → Accounts s
      → Accounts (overwrite R now since key value vc old s)
  unfolding overwrite touch
  overwrite-Accounts now since key value vc old s found a =
      let same = a.keyed key old found in
      record {
        distinct = insert-IsDistinct key _ s.cache a.distinct;
        keyed = insert-keyed key _ s.cache same a.keyed;
        counted =
            let moved =
              total-insert_old weight key
                (touch R s now since (record old { value = value; vector_clock = vc })) old s.cache
                found in
            omega (arith, a.counted, moved, ap (length {A = ℕ}) same);
      }

  pub get-Accounts :
      (now since : ℕ) (key : Bytes) (s : CacheService R)
      → Accounts s
      → Accounts (get R now since key s).0
  unfolding get get_found touch
  get-Accounts now since key s a = elim (Option-cases (find key s.cache)) [
    | inl e ↦ rw e a
    | inr (old, e) ↦ rw e record {
      distinct = insert-IsDistinct key _ s.cache a.distinct;
      keyed = insert-keyed key _ s.cache (a.keyed key old e) a.keyed;
      counted =
          omega
            (arith, a.counted, total-insert_old weight key (touch R s now since old) old s.cache e);
    }
  ]
