-- ===== src/VectorClock/WellFormed.antt =====
-- Well-formed clocks: no node has two entries, and no timestamp is negative. The maps that `toMap`
-- builds have distinct keys.
use pair_db.Prelude.{
  ◌≤◌, String, List, [], ◌∷◌, some, ◌≡◌, ◌≢◌, ◌∙◌, subst, refl, arith, eq_iff, All, Option-cases,
  inl, inr, Option,
}
use pair_db.GoMap.{GoMap, lookup, insert, IsDistinct, lookup-insert, lookup-nil, insert-IsDistinct}
use pair_db.Int64.{Int64, zero64}
use pair_db.VectorClock.{VectorClock, VectorClockEntry, to_map, fill, timestamp}

abbrev pub NoRepeat : List VectorClockEntry → Type 0
NoRepeat [] = Unit
NoRepeat (e ∷ es) = All (λ f. f.coordinator_node_id ≢ e.coordinator_node_id) es × NoRepeat es

abbrev pub NonNegative : List VectorClockEntry → Type 0
NonNegative = All (λ e. zero64 ≤ e.logical_timestamp)

pub record IsValid (vc : VectorClock) : Type 0 where
  pub no_repeat : NoRepeat vc.entries
  pub non_negative : NonNegative vc.entries

pub fill-IsDistinct :
    (es : List VectorClockEntry) (acc : GoMap Int64) → IsDistinct acc → IsDistinct (fill acc es)
unfolding fill
fill-IsDistinct [] acc d = d
fill-IsDistinct (e ∷ es) acc d =
    fill-IsDistinct es (insert e.coordinator_node_id e.logical_timestamp acc)
      (insert-IsDistinct e.coordinator_node_id e.logical_timestamp acc d)

pub to_map-IsDistinct : (vc : VectorClock) → IsDistinct (to_map vc)
unfolding to_map
to_map-IsDistinct vc = fill-IsDistinct vc.entries [] tt

module _ (k : String) where
  -- Entries of other nodes leave the timestamp of `k` alone.
  pub lookup-fill_other :
      (es : List VectorClockEntry) (acc : GoMap Int64)
      → All (λ f. f.coordinator_node_id ≢ k) es
      → lookup k (fill acc es) ≡ lookup k acc
  unfolding fill
  lookup-fill_other [] acc h = refl
  lookup-fill_other (e ∷ es) acc h =
      let next = insert e.coordinator_node_id e.logical_timestamp acc in
      ground (
        arith,
        lookup-fill_other es next h.1,
        h.0,
        eq_iff e.coordinator_node_id k,
        lookup-insert e.coordinator_node_id k e.logical_timestamp acc,
      )

  abbrev pub Recorded : Option Int64 → VectorClockEntry → Type 0
  Recorded o e = e.coordinator_node_id ≡ k → o ≡ some e.logical_timestamp

  -- With one entry for each node, the map has the timestamp of every entry.
  pub fill-Recorded :
      (es : List VectorClockEntry) (acc : GoMap Int64)
      → NoRepeat es
      → All (Recorded (lookup k (fill acc es))) es
  unfolding fill
  fill-Recorded [] acc h = tt
  fill-Recorded (e ∷ es) acc h =
      let next = insert e.coordinator_node_id e.logical_timestamp acc in
      (
        λ same.
            lookup-fill_other es next
              (subst (λ (j : String). All (λ f. f.coordinator_node_id ≢ j) es) same h.0)
            ∙ ground (
              arith,
              lookup-insert e.coordinator_node_id k e.logical_timestamp acc,
              eq_iff e.coordinator_node_id k,
            ),
        fill-Recorded es next h.1,
      )

  pub Non_negative-fill :
      (es : List VectorClockEntry) (acc : GoMap Int64) (t : Int64)
      → NonNegative es
      → ((s : Int64) → lookup k acc ≡ some s → zero64 ≤ s)
      → lookup k (fill acc es) ≡ some t
      → zero64 ≤ t
  unfolding fill
  Non_negative-fill [] acc t n h e = h t e
  Non_negative-fill (e ∷ es) acc t n h p =
      Non_negative-fill es (insert e.coordinator_node_id e.logical_timestamp acc) t n.1
        (λ s q. ground (arith, h s, lookup-insert e.coordinator_node_id k e.logical_timestamp acc))
        p

pub timestamp-non_negative : (vc : VectorClock) (k : String) → IsValid vc → zero64 ≤ timestamp vc k
unfolding to_map
timestamp-non_negative vc k v = elim (Option-cases (lookup k (to_map vc))) [
  | inl e ↦ ground arith
  | inr (t, e) ↦ ground (
    arith,
    Non_negative-fill k vc.entries [] t v.non_negative
        (λ s q. absurd (cc (q, lookup-nil {V = Int64} k))) e,
  )
]

pub to_map-Recorded :
    (k : String) (vc : VectorClock)
    → NoRepeat vc.entries
    → All (Recorded k (lookup k (to_map vc))) vc.entries
unfolding to_map
to_map-Recorded k vc = fill-Recorded k vc.entries []
