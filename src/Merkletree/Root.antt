-- ===== src/Merkletree/Root.antt =====
-- `calculate_root` of the collapsed tree that `add` builds is the Merkle Tree Hash of the leaves.
use certspotter.Prelude.{
  ℕ, zero, suc, ◌+◌, ◌*◌, ◌^◌, ◌≤◌, ◌<◌, ◌≡◌, refl, sym, ap, ◌∙◌, List, [], ◌∷◌, ◌++◌, Bytes,
  length, length-append, arith, ok, append_assoc, lt→ltb, pow_two-suc, pow_two-pos,
}
use certspotter.Merkletree.Hash.{Hash, hash_children}
use certspotter.Merkletree.Bits.{
  ones_count, ones_count-zero, ones_count-double, ones_count-double_one, ones_count-suc-le,
}
use certspotter.Merkletree.Collapsed.{collapse_loop, root_loop, root_of_reversed}
use certspotter.Merkletree.Perfect.{TreeHash, Perfect, Represents, Perfect-length, Perfect-TreeHash}

target_even :
    (width target n m : ℕ)
    → n ≡ 2 * m
    → target ≡ ones_count (suc width) (n + 1)
    → target ≡ suc (ones_count width m)
target_even width target n m e t = (rw e at t) ∙ ones_count-double_one width m

target_odd :
    (width target n m : ℕ)
    → n ≡ 2 * m + 1
    → target ≡ ones_count (suc width) (n + 1)
    → target ≡ ones_count width (m + 1)
target_odd width target n m e t =
    let next : n + 1 ≡ 2 * (m + 1) = omega arith in (rw next at t) ∙ ones_count-double width (m + 1)

module _ (sha256 : Bytes → Hash) where
  -- A root over `right` on the right, and the nodes of `leaves` still to be joined on the left.
  root_loop-TreeHash :
      {j n : ℕ} {nodes leaves : List Hash} (right : List Hash) (h : Hash)
      → Represents sha256 j n nodes leaves
      → 0 < length right
      → length right ≤ 2 ^ j
      → TreeHash sha256 right h
      → TreeHash sha256 (leaves ++ right) (root_loop sha256 h nodes)
  unfolding root_loop
  root_loop-TreeHash right h Represents.none pos fits t = t
  root_loop-TreeHash right h (Represents.even {j} e rep) pos fits t =
      root_loop-TreeHash right h rep pos (omega (arith, pow_two-suc j)) t
  root_loop-TreeHash right h
        (Represents.odd {j} {front = front} {back = back} {hash = hash} e f p rep) pos fits t =
      rw (f, append_assoc)
        (root_loop-TreeHash (back ++ right) (hash_children sha256 hash h) rep
          (rw length-append (omega arith))
          (rw length-append (omega (arith, pow_two-suc j, Perfect-length sha256 p)))
          (TreeHash.node j refl (Perfect-length sha256 p) pos fits (Perfect-TreeHash sha256 p) t))

  pub Represents-TreeHash :
      {j n : ℕ} {nodes leaves : List Hash}
      → Represents sha256 j n nodes leaves
      → TreeHash sha256 leaves (root_of_reversed sha256 nodes)
  Represents-TreeHash Represents.none = TreeHash.empty
  Represents-TreeHash (Represents.even e rep) = Represents-TreeHash rep
  Represents-TreeHash (Represents.odd {j} {front = front} {back = back} {hash = hash} e f p rep) =
      rw f (
        root_loop-TreeHash back hash rep (omega (arith, Perfect-length sha256 p, pow_two-pos j))
          (omega (arith, Perfect-length sha256 p, pow_two-suc j)) (Perfect-TreeHash sha256 p))

  -- The number of nodes is the number of ones in the size.
  pub Represents-length :
      (width : ℕ) {j n : ℕ} {nodes leaves : List Hash}
      → Represents sha256 j n nodes leaves
      → n < 2 ^ width
      → length nodes ≡ ones_count width n
  unfolding ones_count
  Represents-length width Represents.none h = sym (ones_count-zero width)
  Represents-length zero (Represents.even e rep) h = Represents-length zero rep (omega arith)
  Represents-length (suc width) (Represents.even {m = m} e rep) h =
      rw (e, ones_count-double) (Represents-length width rep (omega (arith, pow_two-suc width)))
  Represents-length zero (Represents.odd {m = m} e f p rep) h = absurd (omega arith)
  Represents-length (suc width) (Represents.odd {m = m} e f p rep) h =
      rw (e, ones_count-double_one)
        (ap suc (Represents-length width rep (omega (arith, pow_two-suc width))))

  pub collapse_loop-stop :
      (target : ℕ) (h : Hash) (nodes : List Hash)
      → target ≡ suc (length nodes)
      → collapse_loop sha256 target h nodes ≡ ok (h ∷ nodes)
  unfolding collapse_loop
  collapse_loop-stop target h [] e = ground arith
  collapse_loop-stop target h (left ∷ rest) e = ground arith

  collapse_loop-step :
      (target : ℕ) (h left : Hash) (nodes : List Hash)
      → target < suc (suc (length nodes))
      → collapse_loop sha256 target h (left ∷ nodes)
        ≡ collapse_loop sha256 target (hash_children sha256 left h) nodes
  unfolding collapse_loop
  collapse_loop-step target h left nodes e = rw (lt→ltb _ _ e)

  -- A node joins at the right end: the loop carries, as adding one in binary does.
  pub collapse_loop-carry :
      (width target : ℕ) {j n : ℕ} {nodes leaves : List Hash} (right : List Hash) (h : Hash)
      → Represents sha256 j n nodes leaves
      → Perfect sha256 j right h
      → n + 1 < 2 ^ width
      → target ≡ ones_count width (n + 1)
      → (nodes' : List Hash) × (collapse_loop sha256 target h nodes ≡ ok nodes')
        × Represents sha256 j (n + 1) nodes' (leaves ++ right)
  collapse_loop-carry zero target right h rep p fits t = absurd (omega arith)
  collapse_loop-carry (suc width) target right h Represents.none p fits t = (
    h ∷ [],
    collapse_loop-stop target h []
        (omega (arith, ones_count-double_one width 0, ones_count-zero width)),
    Represents.odd {m = 0} refl refl p Represents.none,
  )
  collapse_loop-carry (suc width) target right h
        (Represents.even {n = n} {m = m} {nodes = nodes} e rep) p fits t =
      (
        h ∷ nodes,
        collapse_loop-stop target h nodes (
            target_even width target n m e t
            ∙ ap suc (sym (Represents-length width rep (omega (arith, pow_two-suc width))))),
        Represents.odd {m = m} (omega arith) refl p rep,
      )
  collapse_loop-carry (suc width) target right h
        (Represents.odd {n = n} {m = m} {rest = rest} {back = back} {hash = hash} e f q rep) p fits
        t =
      let t' : target ≡ ones_count width (m + 1) = target_odd width target n m e t in
      let count : length rest ≡ ones_count width m =
        Represents-length width rep (omega (arith, pow_two-suc width)) in
      let (nodes', run, rep') =
        collapse_loop-carry width target (back ++ right) (hash_children sha256 hash h) rep
          (Perfect.two refl q p) (omega (arith, pow_two-suc width)) t' in
      (
        nodes',
        collapse_loop-step target h hash rest (omega (arith, ones_count-suc-le width m)) ∙ run,
        rw (f, append_assoc) (Represents.even {m = m + 1} (omega arith) rep'),
      )
