-- ===== src/Tests/Clocks.antt =====
-- Vector clocks and conflicts.
use pair_db.Prelude.{String, ℕ, ◌≤◌, ◌<◌, ◌↔◌, List, [], ◌∷◌, false, some, ◌≡◌, refl, All, arith}
use pair_db.GoMap.{in_order, lookup, insert}
use pair_db.GoMap.Keys.{add_keys}
use pair_db.Int64.{int64, zero64}
use pair_db.VectorClock.{VectorClock, before, identical, after, concurrent, ◌≼◌, to_map}
use pair_db.VectorClock.Compare
use pair_db.VectorClock.Compare.Causality.{compare-decides}
use pair_db.VectorClock.Merge
use pair_db.VectorClock.Merge.{from_map}
use pair_db.VectorClock.Merge.Join.{merge_least_upper}
use pair_db.VectorClock.Service.{VectorClockService, increment_from}
use pair_db.VectorClock.Storage
use pair_db.VectorClock.Storage.Causality.{Timestamps}
use pair_db.VectorClock.WellFormed.{IsValid}
use pair_db.Conflict.{Scan, detect_conflicts}
use pair_db.StorageClient.{StorageResponse}
use pair_db.Tests.Data.{entry, hit}

program : Unit {0}
unfolding Compare.compare Merge.merge increment_from Storage.compare Storage.compare_vector_clocks
    detect_conflicts to_map add_keys from_map lookup insert
program = tt

abbrev old : VectorClock
old = entry "x" 1

abbrev new : VectorClock
new = entry "x" 2

abbrev other : VectorClock
other = entry "y" 1

abbrev zero_entry : VectorClock
zero_entry = entry "x" 0

abbrev empty : VectorClock
empty = record { entries = [] }

clocks_run :
    (Compare.compare in_order old new ≡ before)
    × (Compare.compare in_order new other ≡ concurrent)
    × (Compare.compare in_order empty zero_entry ≡ identical)
    × (Storage.compare in_order old new ≡ Storage.less)
unfolding program
clocks_run = (refl, refl, refl, refl)

compare-decides_example :
    ((Compare.compare in_order old new ≡ identical) ↔ ((old ≼ new) × (new ≼ old)))
    × ((Compare.compare in_order old new ≡ before) ↔ ((old ≼ new) × ¬ (new ≼ old)))
    × ((Compare.compare in_order old new ≡ after) ↔ ((¬ (old ≼ new)) × (new ≼ old)))
    × ((Compare.compare in_order old new ≡ concurrent) ↔ ((¬ (old ≼ new)) × ¬ (new ≼ old)))
compare-decides_example = compare-decides in_order old new

entry-IsValid : (k : String) (t : ℕ) → IsValid (entry k t)
entry-IsValid k t = record { no_repeat = (tt, tt); non_negative = (omega arith, tt) }

merge_least_upper_example :
    (Merge.merge in_order (old ∷ other ∷ []) ≼ new) ↔ All (λ vc. vc ≼ new) (old ∷ other ∷ [])
merge_least_upper_example =
    merge_least_upper in_order (old ∷ other ∷ []) new
      (entry-IsValid "x" 1, (entry-IsValid "y" 1, tt)) (entry-IsValid "x" 2)

abbrev service : VectorClockService
service = record { node_id = "x"; local_timestamp = int64 1 }

positive-old : Timestamps (λ t. zero64 < t) old
unfolding program
positive-old k t e = ground (arith, e)

positive-new : Timestamps (λ t. zero64 < t) new
unfolding program
positive-new k t e = ground (arith, e)

not_negative : Timestamps (λ t. zero64 ≤ t) zero_entry
unfolding program
not_negative k t e = ground (arith, e)

empty_below : empty ≼ zero_entry
unfolding program
empty_below k = ground arith

abbrev responses : List StorageResponse
responses = hit "a" old ∷ hit "b" new ∷ []

abbrev latest : Scan
latest = record { latest = hit "b" new; has_conflict = false }

detect_run : detect_conflicts in_order responses ≡ some latest
unfolding program
detect_run = refl
