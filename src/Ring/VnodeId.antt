-- ===== src/Ring/VnodeId.antt =====
-- The node of a virtual node's id.
use pair_db.Prelude.{
  ℕ, suc, zero, ◌+◌, ◌-◌, [], ◌∷◌, ◌++◌, false, ◌≡◌, refl, ap, sym, ◌∙◌, arith, length, take, drop,
  All, length-append, take-append_length, drop-append_length, ◌↔◌,
}
use pair_db.Bytes.{Bytes, bytes_eq, slice, decimal}
use pair_db.Bytes.Decimal.{IsDigit, decimal-IsDigit, value, value-decimal}
use pair_db.Ring.{vnode_suffix, vnode_id_of, extract_from, extract_node_id}

drop-IsDigit : (k : ℕ) (ds : Bytes) → All IsDigit ds → All IsDigit (drop k ds)
drop-IsDigit zero ds h = h
drop-IsDigit (suc k) [] h = tt
drop-IsDigit (suc k) (d ∷ ds) h = drop-IsDigit k ds h.1

not_suffix : (ds : Bytes) → All IsDigit ds → bytes_eq (take 7 ds) vnode_suffix ≡ false
not_suffix [] h = refl
not_suffix (d ∷ ds) h = ground (arith, h.0)

after_dash : (ds : Bytes) → All IsDigit ds → bytes_eq (45 ∷ take 6 ds) vnode_suffix ≡ false
after_dash [] h = refl
after_dash (d ∷ ds) h = ground (arith, h.0)

-- No match begins behind the first byte of the separator.
no_match :
    (k : ℕ) (ds : Bytes)
    → All IsDigit ds
    → bytes_eq (slice (suc k) 7 (vnode_suffix ++ ds)) vnode_suffix ≡ false
no_match zero ds h = refl
no_match (suc zero) ds h = refl
no_match (suc (suc zero)) ds h = refl
no_match (suc (suc (suc zero))) ds h = refl
no_match (suc (suc (suc (suc zero)))) ds h = refl
no_match (suc (suc (suc (suc (suc zero))))) ds h = after_dash ds h
no_match (suc (suc (suc (suc (suc (suc k)))))) ds h = not_suffix (drop k ds) (drop-IsDigit k ds h)

drop-append : (xs ys : Bytes) (k i : ℕ) → i ≡ k + length xs → drop i (xs ++ ys) ≡ drop k ys
drop-append [] ys k i e = ground arith
drop-append (x ∷ xs) ys k zero e = absurd (omega (arith, e))
drop-append (x ∷ xs) ys k (suc i) e = drop-append xs ys k i (omega (arith, e))

drop-injective : (xs ys zs : Bytes) → xs ++ ys ≡ xs ++ zs → ys ≡ zs
drop-injective xs ys zs e =
    sym (drop-append_length xs ys) ∙ ap (drop (length xs)) e ∙ drop-append_length xs zs

module _ (node_id ds : Bytes) (digits : All IsDigit ds) where
  abbrev whole : Bytes
  whole = node_id ++ (vnode_suffix ++ ds)

  extract_from-vnode : (k i : ℕ) → i ≡ k + length node_id → extract_from whole (suc i) ≡ node_id
  unfolding extract_from
  extract_from-vnode zero i e =
      let at_start : i ≡ length node_id = omega (arith, e) in
      rw (drop-append node_id (vnode_suffix ++ ds) 0 i e, at_start)
        (take-append_length node_id (vnode_suffix ++ ds))
  extract_from-vnode (suc k) zero e = absurd (omega (arith, e))
  extract_from-vnode (suc k) (suc i) e =
      rw (drop-append node_id (vnode_suffix ++ ds) (suc k) (suc i) e, no_match k ds digits)
        (extract_from-vnode k i (omega (arith, e)))

  extract-whole : extract_node_id whole ≡ node_id
  unfolding extract_node_id
  extract-whole =
      let n = length-append node_id (vnode_suffix ++ ds) in
      let start : length whole + 1 - 7 ≡ suc (length ds + length node_id) = omega (arith, n) in
      rw start (extract_from-vnode (length ds) (length ds + length node_id) refl)

-- The node id is read back from the id of each of its virtual nodes, whatever bytes it has; and the
-- virtual nodes of a node have different ids.
pub extract-vnode :
    (node_id : Bytes) (i j : ℕ)
    → (extract_node_id (vnode_id_of node_id i) ≡ node_id)
      × ((vnode_id_of node_id i ≡ vnode_id_of node_id j) ↔ (i ≡ j))
extract-vnode node_id i j =
    let injective : vnode_id_of node_id i ≡ vnode_id_of node_id j → i ≡ j = λ e.
      let digits =
        drop-injective vnode_suffix (decimal i) (decimal j)
          (drop-injective node_id (vnode_suffix ++ decimal i) (vnode_suffix ++ decimal j) e) in
      sym (value-decimal i) ∙ ap value digits ∙ value-decimal j in
    (extract-whole node_id (decimal i) (decimal-IsDigit i), (injective, ap (vnode_id_of node_id)))
