-- ===== src/NodeHandler/Rounds.antt =====
-- What a monitor learns in one attempt.
use pair_db.Prelude.{
  ℕ, ◌≤◌, Bool, true, false, String, str_eq, eq_iff, List, [], ◌∷◌, ◌≡◌, refl, subst, arith, All,
  Bool-cases, inl, inr,
}
use pair_db.NodeHandler.{Cluster, Action, is_done, note, check_all}
use pair_db.NodeHandler.Calm.{Calm, ◌⨾◌, still}

module _ (Complete : String → Type 0) where
  -- The nodes that count as completed are complete.
  abbrev pub Sound : List String → Type 0
  Sound done = (id : String) → is_done done id ≡ true → Complete id

  note-Sound :
      (done : List String) (id : String) (is_reported : Bool)
      → Sound done
      → (is_reported ≡ true → Complete id)
      → Sound (note done id is_reported)
  unfolding is_done
  note-Sound done id false sound reports = sound
  note-Sound done id true sound reports = λ other known. elim (Bool-cases (str_eq id other)) [
    | inl same ↦ subst Complete ((eq_iff id other).0 same) (reports refl)
    | inr differ ↦ sound other (ground (arith, differ))
  ]

  module _ (from : ℕ) (check : List String → String → Action Bool)
      (checks : (done : List String) (id : String) (c : Cluster)
        → Sound done
        → from ≤ c.calls
        → Calm c (check done id c).0 × ((check done id c).1 ≡ true → Complete id)) where
    -- An attempt is calm, what it counts as completed is, and if it says so all are.
    pub check_all-reports :
        (ids done : List String) (c : Cluster)
        → Sound done
        → from ≤ c.calls
        → let r = check_all check done ids c in
          Calm c r.0 × Sound r.1.1 × (r.1.0 ≡ true → All Complete ids)
    unfolding check_all
    check_all-reports [] done c sound past = (still c, sound, λ _. tt)
    check_all-reports (id ∷ ids) done c sound past =
        let (c', is_reported) = check done id c in
        let (first, reports) = checks done id c sound past in
        let noted = note-Sound done id is_reported sound reports in
        let (rest, sound', all) =
          check_all-reports ids (note done id is_reported) c' noted
            (omega (arith, past, first.later)) in
        (first ⨾ rest, sound', λ e. (reports (ground arith), all (ground arith)))
