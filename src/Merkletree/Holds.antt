-- ===== src/Merkletree/Holds.antt =====
-- Adding to a fragmented tree, against its abstract view: the cells are those that were there and
-- those of the new subtree, or the new subtree overlaps a cell and nothing is added.
use certspotter.Prelude.{
  ℕ, suc, ◌+◌, ◌^◌, ◌≤◌, ◌<◌, ◌≡◌, refl, ◌⊎◌, inl, inr, List, [], ◌∷◌, ◌++◌, Bytes, length, arith,
  append_assoc, reverse, ok, err, ◌==◌, ==_refl, false,
}
use native.Mathlib.Decide.{ℕ_discrete}
use certspotter.Merkletree.Hash.{Hash}
use certspotter.Merkletree.Collapsed.{
  CollapsedTree, TreeError, append, max_size, not_contiguous, exceeds_maximum, too_large_to_append,
}
use certspotter.Merkletree.Add.{
  Allows, Allows-cases, offset_guard-Allows, offset_guard-eq_err, add64-small, size-eq-length,
}
use certspotter.Merkletree.Append.{append-IsTreeOf}
use certspotter.Merkletree.Fragment.{merge_following, insert_at}
use certspotter.Merkletree.Cells.{
  Cells, cells_from, cells_from-append, IsSubtree, Segment, Before, Segment-weaken, Segment-append,
  Before-Segment,
}

-- Some cell stands at position `p`.
abbrev pub Occupied : ℕ → Cells → Type 0
Occupied p [] = ⊥
Occupied p ((q, h) ∷ cells) = (p ≡ q) ⊎ Occupied p cells

pub Occupied-append_left : (p : ℕ) (c d : Cells) → Occupied p c → Occupied p (c ++ d)
Occupied-append_left p [] d o = absurd o
Occupied-append_left p ((q, h) ∷ c) d (inl e) = inl e
Occupied-append_left p ((q, h) ∷ c) d (inr o) = inr (Occupied-append_left p c d o)

pub Occupied-append_right : (p : ℕ) (c d : Cells) → Occupied p d → Occupied p (c ++ d)
Occupied-append_right p [] d o = o
Occupied-append_right p ((q, h) ∷ c) d o = inr (Occupied-append_right p c d o)

pub Occupied-cells_from :
    (p q : ℕ) (ls : List Hash) → q ≤ p → p < q + length ls → Occupied p (cells_from q ls)
Occupied-cells_from p q [] lo hi = absurd (omega arith)
Occupied-cells_from p q (h ∷ ls) lo hi = elim (ℕ_discrete p q) [
  | yes e ↦ inl e
  | no n ↦ inr (Occupied-cells_from p (suc q) ls (omega arith) (omega arith))
]

module _ (sha256 : Bytes → Hash) where
  append_not_contiguous :
      (tree other : CollapsedTree)
      → tree.offset + tree.size < 2 ^ 64
      → tree.offset + tree.size < other.offset
      → append sha256 tree other ≡ err not_contiguous
  unfolding append
  append_not_contiguous tree other f gap =
      let differ : ((tree.offset + tree.size) == other.offset) ≡ false = ground arith in
      rw (add64-small _ _ f, differ)

  -- The two guards on the sizes, on neighbours that touch.
  append_refused :
      (tree other : CollapsedTree)
      → tree.offset + tree.size < 2 ^ 64
      → tree.size + other.size < 2 ^ 64
      → tree.offset + tree.size ≡ other.offset
      → (0 < tree.offset) × (max_size tree.offset < tree.size + other.size)
      → append sha256 tree other ≡ err exceeds_maximum
  unfolding append
  append_refused tree other f f' e (pos, over) = rw (
    add64-small _ _ f,
    e,
    ==_refl,
    add64-small _ _ f',
    offset_guard-eq_err _ _ exceeds_maximum pos over,
  )

  append_refused_size :
      (tree other : CollapsedTree)
      → tree.offset + tree.size < 2 ^ 64
      → tree.size + other.size < 2 ^ 64
      → tree.offset + tree.size ≡ other.offset
      → Allows tree.offset (tree.size + other.size)
      → (0 < tree.size) × (max_size tree.size < other.size)
      → append sha256 tree other ≡ err too_large_to_append
  unfolding append
  append_refused_size tree other f f' e a (pos, over) = rw (
    add64-small _ _ f,
    e,
    ==_refl,
    add64-small _ _ f',
    offset_guard-Allows _ _ _ a,
    offset_guard-eq_err _ _ too_large_to_append pos over,
  )

  -- On neighbours `append` joins, or it fails and nothing has changed.
  append_cases :
      (tree other : CollapsedTree) (ls ls' : List Hash)
      → IsSubtree sha256 tree ls
      → IsSubtree sha256 other ls'
      → tree.offset + tree.size ≤ other.offset
      → ((joined : CollapsedTree) × (append sha256 tree other ≡ ok joined)
          × IsSubtree sha256 joined (ls ++ ls')
          × (joined.offset ≡ tree.offset)
          × (joined.offset + joined.size ≡ other.offset + other.size)
          × (tree.offset + tree.size ≡ other.offset))
        ⊎ ((e : TreeError) × (append sha256 tree other ≡ err e))
  append_cases tree other ls ls' t t' le =
      elim (ℕ_discrete (tree.offset + tree.size) other.offset) [
        | no gap ↦ inr (not_contiguous, append_not_contiguous tree other t.ends (omega arith))
        | yes e ↦ elim (Allows-cases tree.offset (tree.size + other.size)) [
          | inr over ↦ inr (exceeds_maximum, append_refused tree other t.ends (omega arith) e over)
          | inl a ↦ elim (Allows-cases tree.size other.size) [
            | inr over ↦
                inr (
                  too_large_to_append,
                  append_refused_size tree other t.ends (omega arith) e a over,
                )
            | inl b ↦
                let (joined, run, whole, size, offset) =
                  append-IsTreeOf sha256 tree other ls ls' t.of_tree t'.of_tree (omega arith) t.ends
                    e a b in
                inl (
                  joined,
                  run,
                  record {
                    of_tree = whole;
                    allowed = rw (size, offset) a;
                    ends = omega arith;
                    nonempty = omega arith;
                  },
                  offset,
                  omega arith,
                  e,
                )
          ]
        ]
      ]

  -- The last loop keeps the cells.
  merge_following-Segment :
      (cur : CollapsedTree) (ls : List Hash) {mid hi : ℕ} {after : List CollapsedTree}
      {cells : Cells}
      → IsSubtree sha256 cur ls
      → cur.offset + cur.size ≡ mid
      → Segment sha256 mid hi after cells
      → (out : List CollapsedTree) × (merge_following sha256 cur after ≡ ok out)
        × Segment sha256 cur.offset hi out (cells_from cur.offset ls ++ cells)
  unfolding merge_following
  merge_following-Segment cur ls t m (Segment.nil h) =
      (cur ∷ [], refl, Segment.cons {ls = ls} (omega arith) t refl (Segment.nil (omega arith)))
  merge_following-Segment cur ls t m
        (Segment.cons {tree = next} {trees = after} {ls = ls'} {rest = rest} h s e r) =
      elim (append_cases cur next ls ls' t s (omega arith)) [
        | inr (x, stop) ↦ (
          cur ∷ next ∷ after,
          rw (stop, merge_following),
          Segment.cons (omega arith) t refl (Segment.cons (omega arith) s e r),
        )
        | inl (joined, run, whole, offset, end, touch) ↦
            let (out, run', seg) = merge_following-Segment joined (ls ++ ls') whole end r in
            let adjoin =
              cells_from-append cur.offset next.offset ls ls'
                (omega (arith, size-eq-length sha256 cur ls t.of_tree)) in
            (out, rw (run, merge_following) run', rw (e, ← append_assoc, adjoin) (rw offset at seg))
      ]

  pub insert_at-Segment :
      (subtree : CollapsedTree) (ls : List Hash) {hi : ℕ} {before after : List CollapsedTree}
      {c d : Cells}
      → Before sha256 subtree.offset before c
      → IsSubtree sha256 subtree ls
      → Segment sha256 (subtree.offset + subtree.size) hi after d
      → (out : List CollapsedTree) × (insert_at sha256 before subtree after ≡ ok out)
        × Segment sha256 0 hi out (c ++ (cells_from subtree.offset ls ++ d))
  unfolding insert_at
  insert_at-Segment subtree ls Before.first t a =
      let (out, run, seg) = merge_following-Segment subtree ls t refl a in
      (out, run, Segment-weaken sha256 (omega arith) seg)
  insert_at-Segment subtree ls {d = d}
        (Before.snoc {tree = prev} {trees = before} {ls = ls'} {front = front} b s e h) t a =
      elim (append_cases prev subtree ls' ls s t h) [
        | inr (x, stop) ↦
            let (out, run, seg) = merge_following-Segment subtree ls t refl a in
            (
              reverse (prev ∷ before) ++ out,
              rw (stop, insert_at, run),
              Segment-append sha256 (Before-Segment sha256 (Before.snoc b s e h)) seg,
            )
        | inl (joined, run, whole, offset, end, touch) ↦
            let (out, run', seg) = merge_following-Segment joined (ls' ++ ls) whole end a in
            let adjoin =
              cells_from-append prev.offset subtree.offset ls' ls
                (omega (arith, size-eq-length sha256 prev ls' s.of_tree)) in
            (
              reverse before ++ out,
              rw (run, insert_at, run'),
              rw (e, append_assoc, ← append_assoc (cells_from prev.offset ls') _ d, adjoin)
                  (Segment-append sha256 (Before-Segment sha256 b) (rw offset at seg)),
            )
      ]
