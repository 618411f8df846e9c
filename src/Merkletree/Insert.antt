-- ===== src/Merkletree/Insert.antt =====
-- `add` of the fragmented tree as a whole: where it inserts, and when it refuses.
use certspotter.Prelude.{
  ℕ, ◌+◌, ◌^◌, ◌≤◌, ◌<◌, ◌≡◌, refl, sym, ◌∙◌, ◌⊎◌, inl, inr, List, [], ◌∷◌, ◌++◌, Bytes, length,
  arith, append_assoc, append-nil, ok, err, ltb, lt→ltb, ◌==◌, true, false,
}
use native.Mathlib.Decide.{dec_lt}
use certspotter.Merkletree.Hash.{Hash}
use certspotter.Merkletree.Collapsed.{CollapsedTree, calculate_root}
use certspotter.Merkletree.Add.{add64-small, size-eq-length, calculate_root-TreeHash}
use certspotter.Merkletree.Perfect.{TreeHash}
use certspotter.Merkletree.Fragment.{
  FragmentedCollapsedTree, FragmentError, end_of, find_place, check_before, check_after, add,
  overlaps_ending, overlaps_starting, is_whole, is_complete,
}
use certspotter.Merkletree.Cells.{
  Cells, cells_from, IsSubtree, Segment, Before, Segment-weaken, Segment-Before,
}
use certspotter.Merkletree.Holds.{
  Occupied, Occupied-append_left, Occupied-append_right, Occupied-cells_from, insert_at-Segment,
}

abbrev pub HeadAbove : ℕ → List CollapsedTree → Type 0
HeadAbove offset [] = Unit
HeadAbove offset (tree ∷ trees) = offset < tree.offset

abbrev pub HeadBelow : ℕ → List CollapsedTree → Type 0
HeadBelow offset [] = Unit
HeadBelow offset (tree ∷ trees) = tree.offset ≤ offset

module _ (sha256 : Bytes → Hash) where
  -- A place in the slice: the last subtree before it starts at `offset` at most, the next one later.
  record Place (offset top : ℕ) (cells : Cells) (before after : List CollapsedTree) : Type 0 where
    mid : ℕ
    front : Cells
    back : Cells
    before_holds : Before sha256 mid before front
    after_holds : Segment sha256 mid top after back
    whole : cells ≡ front ++ back
    below : HeadBelow offset before
    above : HeadAbove offset after

  -- The sequence of subtrees holds exactly these cells, in the order of their positions.
  pub record IsHolding (tree : FragmentedCollapsedTree) (cells : Cells) : Type 0 where
    pub segment : Segment sha256 0 (2 ^ 64) tree.subtrees cells

module _ (sha256 : Bytes → Hash) where
  find_place-Place :
      (offset : ℕ) {mid top : ℕ} {before after : List CollapsedTree} {c d cells : Cells}
      → Before sha256 mid before c
      → Segment sha256 mid top after d
      → cells ≡ c ++ d
      → HeadAbove offset after
      → Place sha256 offset top cells
          (find_place offset before after).0
          (find_place offset before after).1
  unfolding find_place
  find_place-Place offset {mid} {c = c} {d = d} Before.first a w h = record {
    mid = mid;
    front = [];
    back = d;
    before_holds = Before.first;
    after_holds = a;
    whole = w;
    below = tt;
    above = h;
  }
  find_place-Place offset {mid} {c = c} {d = d}
        (Before.snoc {tree = prev} {ls = ls} {front = front} b s e le) a w h =
      elim (dec_lt offset prev.offset) [
        | yes lt ↦ rw (lt→ltb _ _ lt) (
            find_place-Place offset b
              (Segment.cons {ls = ls} (omega arith) s refl (Segment-weaken sha256 le a))
              (w ∙ (rw e (append_assoc front (cells_from prev.offset ls) d))) lt)
        | no ge ↦
            let stop : ltb offset prev.offset ≡ false = ground arith in
            rw stop (record {
              mid = mid;
              front = c;
              back = d;
              before_holds = Before.snoc b s e le;
              after_holds = a;
              whole = w;
              below = omega arith;
              above = h;
            })
      ]

  check_before_cases :
      (subtree : CollapsedTree) {mid : ℕ} {before : List CollapsedTree} {c : Cells}
      → Before sha256 mid before c
      → HeadBelow subtree.offset before
      → ((check_before before subtree ≡ ok tt) × Before sha256 subtree.offset before c)
        ⊎ ((e : FragmentError) × (check_before before subtree ≡ err e) × Occupied subtree.offset c)
  unfolding check_before end_of
  check_before_cases subtree Before.first h = inl (refl, Before.first)
  check_before_cases subtree (Before.snoc {tree = prev} {ls = ls} {front = front} b s e le) h =
      elim (dec_lt subtree.offset (prev.offset + prev.size)) [
        | yes over ↦ inr (
          overlaps_ending (prev.offset + prev.size),
          rw (add64-small prev.offset prev.size s.ends, lt→ltb _ _ over),
          rw e (
              Occupied-append_right subtree.offset front _ (
                Occupied-cells_from subtree.offset prev.offset ls h
                  (omega (arith, size-eq-length sha256 prev ls s.of_tree)))),
        )
        | no free ↦
            let stop : ltb subtree.offset (prev.offset + prev.size) ≡ false = ground arith in
            inl
              (rw (add64-small prev.offset prev.size s.ends, stop), Before.snoc b s e (omega arith))
      ]

  check_after_cases :
      (subtree : CollapsedTree) {mid top : ℕ} {after : List CollapsedTree} {d : Cells}
      → Segment sha256 mid top after d
      → HeadAbove subtree.offset after
      → subtree.offset + subtree.size < 2 ^ 64
      → subtree.offset + subtree.size ≤ top
      → ((check_after after subtree ≡ ok tt)
          × Segment sha256 (subtree.offset + subtree.size) top after d)
        ⊎ ((e : FragmentError) × (p : ℕ) × (check_after after subtree ≡ err e)
            × (subtree.offset ≤ p)
            × (p < subtree.offset + subtree.size)
            × Occupied p d)
  unfolding check_after end_of
  check_after_cases subtree (Segment.nil h) above f top = inl (refl, Segment.nil top)
  check_after_cases subtree (Segment.cons {tree = next} {ls = ls} {rest = rest} h s e r) above f
        top =
      elim (dec_lt next.offset (subtree.offset + subtree.size)) [
        | yes over ↦ inr (
          overlaps_starting next.offset,
          next.offset,
          rw (add64-small subtree.offset subtree.size f, lt→ltb _ _ over),
          omega arith,
          over,
          rw e (
              Occupied-append_left next.offset _ rest (
                Occupied-cells_from next.offset next.offset ls (omega arith)
                  (omega (arith, size-eq-length sha256 next ls s.of_tree)))),
        )
        | no free ↦
            let stop : ltb next.offset (subtree.offset + subtree.size) ≡ false = ground arith in
            inl (
              rw (add64-small subtree.offset subtree.size f, stop),
              Segment.cons (omega arith) s e r,
            )
      ]

  -- A subtree with at least one leaf, of a size that its offset allows and with an end below 2 ^ 64,
  -- is added to a fragmented tree: either `add` succeeds and the
  -- tree then holds the cells that it held and those of the subtree, in the order of positions, or
  -- it returns an error and some position of the subtree was occupied before.
  pub add_cases :
      (tree : FragmentedCollapsedTree) (cells : Cells) (subtree : CollapsedTree) (ls : List Hash)
      → IsHolding sha256 tree cells
      → IsSubtree sha256 subtree ls
      → ((grown : FragmentedCollapsedTree) × (front back : Cells) × (add sha256 tree subtree
            ≡ ok grown)
          × (cells ≡ front ++ back)
          × IsHolding sha256 grown (front ++ (cells_from subtree.offset ls ++ back)))
        ⊎ ((e : FragmentError) × (p : ℕ) × (add sha256 tree subtree ≡ err e)
            × (subtree.offset ≤ p)
            × (p < subtree.offset + subtree.size)
            × Occupied p cells)
  unfolding add
  add_cases tree cells subtree ls holds t =
      let some_size : (subtree.size == 0) ≡ false = ground arith in
      let place =
        find_place-Place subtree.offset (Segment-Before sha256 holds.segment)
          (Segment.nil {lo = 2 ^ 64} {hi = 2 ^ 64} (omega arith)) (sym (append-nil cells)) tt in
      elim (check_before_cases subtree place.before_holds place.below) [
        | inr (e, refused, o) ↦ inr (
          e,
          subtree.offset,
          rw (some_size, refused),
          omega arith,
          omega arith,
          rw place.whole (Occupied-append_left _ place.front place.back o),
        )
        | inl (free, b) ↦
            elim (check_after_cases subtree place.after_holds place.above t.ends (omega arith)) [
              | inr (e, p, refused, lo, hi, o) ↦ inr (
                e,
                p,
                rw (some_size, free, refused),
                lo,
                hi,
                rw place.whole (Occupied-append_right p place.front place.back o),
              )
              | inl (free', a) ↦
                  let (out, run, seg) = insert_at-Segment sha256 subtree ls b t a in
                  inl (
                    record { subtrees = out },
                    place.front,
                    place.back,
                    rw (some_size, free, free', run),
                    place.whole,
                    record { segment = seg },
                  )
            ]
      ]

module _ (sha256 : Bytes → Hash) where
  complete-Segment :
      (trees : List CollapsedTree) (size : ℕ) {cells : Cells}
      → Segment sha256 0 (2 ^ 64) trees cells
      → is_whole trees size ≡ true
      → (whole : CollapsedTree) × (ls : List Hash) × (trees ≡ whole ∷ [])
        × (cells ≡ cells_from 0 ls)
        × (length ls ≡ size)
        × TreeHash sha256 ls (calculate_root sha256 whole)
  unfolding is_whole
  complete-Segment [] size seg h = cc
  complete-Segment (first ∷ second ∷ rest) size seg h = cc
  complete-Segment (_ ∷ []) size (Segment.cons {tree = whole} {ls = ls} lo s e (Segment.nil _)) h =
      let start : whole.offset ≡ 0 = ground arith in
      let count : whole.size ≡ size = ground arith in
      (
        whole,
        ls,
        refl,
        rw (e, append-nil, start),
        omega (arith, size-eq-length sha256 whole ls s.of_tree),
        calculate_root-TreeHash sha256 whole ls s.of_tree,
      )

  -- When `is_complete` answers true for a size, there is one subtree, the cells are those of that
  -- many leaves from position 0 on, and its root is their Merkle Tree Hash.
  pub is_complete-TreeHash :
      (tree : FragmentedCollapsedTree) (cells : Cells) (size : ℕ)
      → IsHolding sha256 tree cells
      → is_complete tree size ≡ true
      → (whole : CollapsedTree) × (ls : List Hash) × (tree.subtrees ≡ whole ∷ [])
        × (cells ≡ cells_from 0 ls)
        × (length ls ≡ size)
        × TreeHash sha256 ls (calculate_root sha256 whole)
  unfolding is_complete
  is_complete-TreeHash tree cells size holds h = complete-Segment tree.subtrees size holds.segment h
