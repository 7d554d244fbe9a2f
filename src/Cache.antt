-- ===== src/Cache.antt =====
-- storage-node/internal/service/cache_service.go: the cache of the storage node, which evicts the
-- entries of the lowest score. float64 and the order in which `range` visits a map are parameters;
-- times are nanoseconds, as the calls read them from the clock.
pub mod Accounts
pub mod Room
use pair_db.Prelude.{
  ◌>>=◌, ℕ, zero, suc, ◌+◌, ◌-◌, Option, none, some, Bool, true, false, ltb, leb, ◌==◌,
  if◌then◌else◌, List, [], ◌∷◌, length,
}
use pair_db.Bytes.{Bytes, bytes_eq}
use pair_db.VectorClock.{VectorClock}
use pair_db.ByteMap.{ByteMap, find, insert, delete}
use pair_db.MemTable.{entry_size}

-- float64, its arithmetic and the conversions that the cache uses.
pub record Float64 : Type 1 where
  pub Float : Type 0
  pub less : Float → Float → Bool
  pub sub : Float → Float → Float
  pub mul : Float → Float → Float
  pub div : Float → Float → Float
  pub of_int : ℕ → Float
  pub tenths : ℕ → Float
  pub seconds : ℕ → Float

module _ (R : Float64) where
  pub record CacheEntry : Type 0 where
    pub key : Bytes
    pub value : Bytes
    pub vector_clock : VectorClock
    pub access_count : ℕ
    pub last_access : ℕ
    pub score : R.Float

  pub record CacheService : Type 0 where
    pub max_size : ℕ
    pub adaptive_window : ℕ
    pub cache : ByteMap CacheEntry
    pub current_size : ℕ
    pub frequency_weight : R.Float
    pub recency_weight : R.Float

  unfoldable pub new_cache_service : ℕ → ℕ → R.Float → R.Float → CacheService
  new_cache_service max_size adaptive_window frequency_weight recency_weight = record {
    max_size = max_size;
    adaptive_window = adaptive_window;
    cache = [];
    current_size = 0;
    frequency_weight = frequency_weight;
    recency_weight = recency_weight;
  }

  unfoldable pub calculate_score : CacheService → ℕ → ℕ → R.Float
  calculate_score s access_count since =
      R.sub (R.mul s.frequency_weight (R.of_int access_count))
        (R.mul s.recency_weight (R.seconds since))

  -- An entry after one more access, at `now`; `since` is the time from then to the score.
  unfoldable pub touch : CacheService → ℕ → ℕ → CacheEntry → CacheEntry
  touch s now since e = record e {
    access_count = e.access_count + 1;
    last_access = now;
    score = calculate_score s (e.access_count + 1) since;
  }

  unfoldable pub get_found :
      ℕ → ℕ → Bytes → CacheService → Option CacheEntry → CacheService × Option CacheEntry
  get_found now since key s none = (s, none)
  get_found now since key s (some e) =
      (record s { cache = insert key (touch s now since e) s.cache }, some (touch s now since e))

  unfoldable pub get : ℕ → ℕ → Bytes → CacheService → CacheService × Option CacheEntry
  get now since key s = get_found now since key s (find key s.cache)

  unfoldable pub remove_found : Bytes → CacheService → Option CacheEntry → CacheService
  remove_found key s none = s
  remove_found key s (some e) = record s {
    cache = delete key s.cache;
    current_size = s.current_size - entry_size e.key e.value;
  }

  unfoldable pub remove : Bytes → CacheService → CacheService
  remove key s = remove_found key s (find key s.cache)

  -- The loop of evictLowestScore over the entries.
  unfoldable pub lowest : ByteMap CacheEntry → Bytes → R.Float → Bytes
  lowest [] key score = key
  lowest ((k, e) ∷ m) key score =
      let better = R.less e.score score in
      lowest m (if better then k else key) (if better then e.score else score)

  unfoldable pub new_entry : ℕ → ℕ → Bytes → Bytes → VectorClock → CacheService → CacheEntry
  new_entry now since key value vector_clock s = record {
    key = key;
    value = value;
    vector_clock = vector_clock;
    access_count = 1;
    last_access = now;
    score = calculate_score s 1 since;
  }

  unfoldable pub add_entry : CacheEntry → CacheService → CacheService
  add_entry e s = record s {
    cache = insert e.key e s.cache;
    current_size = s.current_size + entry_size e.key e.value;
  }

  unfoldable pub overwrite :
      ℕ → ℕ → Bytes → Bytes → VectorClock → CacheEntry → CacheService → CacheService
  overwrite now since key value vector_clock old s = record s {
    cache =
        insert key (touch s now since (record old { value = value; vector_clock = vector_clock }))
          s.cache;
    current_size = s.current_size + entry_size key value - entry_size old.key old.value;
  }

  -- How many entries were used after `now` less the window.
  unfoldable pub recent_accesses : ℕ → ℕ → ByteMap CacheEntry → ℕ
  recent_accesses now window [] = 0
  recent_accesses now window ((k, e) ∷ m) =
      let rest = recent_accesses now window m in
      if ltb now (e.last_access + window) then suc rest else rest

  unfoldable pub total_accesses : ByteMap CacheEntry → ℕ
  total_accesses [] = 0
  total_accesses ((k, e) ∷ m) = e.access_count + total_accesses m

  unfoldable pub adjust_weights : ℕ → CacheService → CacheService
  adjust_weights now s =
      let recent = R.of_int (recent_accesses now s.adaptive_window s.cache) in
      let hotness_ratio = R.div recent (R.of_int (length s.cache)) in
      if total_accesses s.cache == 0
      then s
      else if R.less (R.tenths 7) hotness_ratio
      then record s { recency_weight = R.tenths 7; frequency_weight = R.tenths 3 }
      else if R.less hotness_ratio (R.tenths 3)
      then record s { recency_weight = R.tenths 3; frequency_weight = R.tenths 7 }
      else record s { recency_weight = R.tenths 5; frequency_weight = R.tenths 5 }

  -- `order` is the order in which `range` visits the map.
  module _ (order : ByteMap CacheEntry → ByteMap CacheEntry) where
    unfoldable pub evict_lowest_score : CacheService → CacheService
    evict_lowest_score s =
        let key = lowest (order s.cache) [] (R.of_int 1000000000) in
        if bytes_eq key [] then s else remove key s

    -- The loop of Put that evicts; `none` if the fuel runs out.
    unfoldable pub make_room : ℕ → ℕ → CacheService → Option CacheService
    make_room zero size s = none
    make_room (suc fuel) size s = elim (ltb s.max_size (s.current_size + size)) [
      | true ↦ make_room fuel size (evict_lowest_score s)
      | false ↦ some s
    ]

    unfoldable pub put_at :
        ℕ
        → ℕ
        → ℕ
        → Bytes
        → Bytes
        → VectorClock
        → CacheService
        → Option CacheEntry
        → Option CacheService
    put_at fuel now since key value vector_clock s (some old) =
        some (overwrite now since key value vector_clock old s)
    put_at fuel now since key value vector_clock s none =
        make_room fuel (entry_size key value) s >>= λ s'.
        some (add_entry (new_entry now since key value vector_clock s') s')

    unfoldable pub put :
        ℕ → ℕ → ℕ → Bytes → Bytes → VectorClock → CacheService → Option CacheService
    put fuel now since key value vector_clock s =
        put_at fuel now since key value vector_clock s (find key s.cache)
