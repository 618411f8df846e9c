-- ===== src/Merkletree/Cells.antt =====
-- The abstract view of a sequence of subtrees: the leaf hashes with their positions, in order.
-- `Segment lo hi` reads a slice forwards and `Before hi` one that is stored from its end.
use certspotter.Prelude.{
  ℕ, suc, ◌+◌, ◌^◌, ◌≤◌, ◌<◌, ◌≡◌, refl, sym, ap, List, [], ◌∷◌, ◌++◌, Bytes, length, arith,
  append_assoc, append-nil, reverse,
}
use mathlib.Core.List.{reverse_aux, reverse-cons}
use certspotter.Merkletree.Hash.{Hash}
use certspotter.Merkletree.Collapsed.{CollapsedTree}
use certspotter.Merkletree.Add.{IsTreeOf, Allows}

abbrev pub Cells : Type 0
Cells = List (ℕ × Hash)

abbrev pub cells_from : ℕ → List Hash → Cells
cells_from p [] = []
cells_from p (h ∷ hs) = (p, h) ∷ cells_from (suc p) hs

pub cells_from-append :
    (p q : ℕ) (ls ls' : List Hash)
    → p + length ls ≡ q
    → cells_from p ls ++ cells_from q ls' ≡ cells_from p (ls ++ ls')
cells_from-append p q [] ls' e = let same : p ≡ q = omega arith in rw same
cells_from-append p q (h ∷ ls) ls' e =
    ap (λ (c : Cells). (p, h) ∷ c) (cells_from-append (suc p) q ls ls' (omega arith))

module _ (sha256 : Bytes → Hash) where
  pub record IsSubtree (tree : CollapsedTree) (ls : List Hash) : Type 0 where
    pub of_tree : IsTreeOf sha256 tree ls
    pub allowed : Allows tree.offset tree.size
    pub ends : tree.offset + tree.size < 2 ^ 64
    pub nonempty : 0 < tree.size

  pub data Segment : ℕ → ℕ → List CollapsedTree → Cells → Type 0 where
    nil : {lo hi : ℕ} → lo ≤ hi → Segment lo hi [] []
    cons :
        {lo hi : ℕ} {tree : CollapsedTree} {trees : List CollapsedTree} {ls : List Hash}
        {rest cells : Cells}
        → lo ≤ tree.offset
        → IsSubtree tree ls
        → cells ≡ cells_from tree.offset ls ++ rest
        → Segment (tree.offset + tree.size) hi trees rest
        → Segment lo hi (tree ∷ trees) cells

  pub data Before : ℕ → List CollapsedTree → Cells → Type 0 where
    first : {hi : ℕ} → Before hi [] []
    snoc :
        {hi : ℕ} {tree : CollapsedTree} {trees : List CollapsedTree} {ls : List Hash}
        {front cells : Cells}
        → Before tree.offset trees front
        → IsSubtree tree ls
        → cells ≡ front ++ cells_from tree.offset ls
        → tree.offset + tree.size ≤ hi
        → Before hi (tree ∷ trees) cells

module _ (sha256 : Bytes → Hash) where
  pub Segment-weaken :
      {lo lo' hi : ℕ} {trees : List CollapsedTree} {cells : Cells}
      → lo' ≤ lo
      → Segment sha256 lo hi trees cells
      → Segment sha256 lo' hi trees cells
  Segment-weaken w (Segment.nil h) = Segment.nil (omega arith)
  Segment-weaken w (Segment.cons h s e r) = Segment.cons (omega arith) s e r

  pub Segment-append :
      {lo mid hi : ℕ} {xs ys : List CollapsedTree} {c d : Cells}
      → Segment sha256 lo mid xs c
      → Segment sha256 mid hi ys d
      → Segment sha256 lo hi (xs ++ ys) (c ++ d)
  Segment-append (Segment.nil h) r = Segment-weaken h r
  Segment-append {d = d} (Segment.cons {tree = tree} {ls = ls} {rest = rest} h s e r) r' =
      Segment.cons h s (rw e (append_assoc (cells_from tree.offset ls) rest d))
        (Segment-append r r')

  pub Before-weaken :
      {hi hi' : ℕ} {trees : List CollapsedTree} {cells : Cells}
      → hi ≤ hi'
      → Before sha256 hi trees cells
      → Before sha256 hi' trees cells
  Before-weaken w Before.first = Before.first
  Before-weaken w (Before.snoc b s e h) = Before.snoc b s e (omega arith)

  pub Before-Segment :
      {hi : ℕ} {trees : List CollapsedTree} {cells : Cells}
      → Before sha256 hi trees cells
      → Segment sha256 0 hi (reverse trees) cells
  Before-Segment Before.first = Segment.nil (omega arith)
  Before-Segment (Before.snoc {tree = tree} {trees = trees} {ls = ls} {front = front} b s e h) =
      rw (reverse-cons, e)
        (Segment-append (Before-Segment b) (
          Segment.cons {ls = ls} (omega arith) s (sym (append-nil (cells_from tree.offset ls)))
            (Segment.nil h)))

  Segment-Before_onto :
      {lo hi : ℕ} {trees acc : List CollapsedTree} {cells front : Cells}
      → Before sha256 lo acc front
      → Segment sha256 lo hi trees cells
      → Before sha256 hi (reverse_aux trees acc) (front ++ cells)
  Segment-Before_onto b (Segment.nil h) = rw append-nil (Before-weaken h b)
  Segment-Before_onto {front = front} b
        (Segment.cons {tree = tree} {ls = ls} {rest = rest} h s e r) =
      rw (e, ← append_assoc)
        (Segment-Before_onto (Before.snoc (Before-weaken h b) s refl (omega arith)) r)

  pub Segment-Before :
      {hi : ℕ} {trees : List CollapsedTree} {cells : Cells}
      → Segment sha256 0 hi trees cells
      → Before sha256 hi (reverse trees) cells
  Segment-Before s = Segment-Before_onto Before.first s

  -- Where the cells of a segment lie.
  pub Segment-range :
      {lo hi : ℕ} {trees : List CollapsedTree} {cells : Cells}
      → Segment sha256 lo hi trees cells
      → lo ≤ hi
  Segment-range (Segment.nil h) = h
  Segment-range (Segment.cons h s e r) = omega (arith, Segment-range r)
