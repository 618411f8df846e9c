-- ===== src/Merkletree/Fragment.antt =====
-- merkletree/fragment.go: a sequence of subtrees that do not overlap, sorted by offset.
-- The place `i` of a slice that a loop moves is a pair of lists: what stands before it, from `i - 1`
-- downwards, and what stands from `i` on.
use certspotter.Prelude.{
  ℕ, Bool, true, false, not, ◌&&◌, List, [], ◌∷◌, ◌++◌, reverse, Result, ok, err, panic, ◌>>=◌,
  ◌>>◌, ltb, ◌==◌, if◌then◌else◌, length, Bytes,
}
use certspotter.Merkletree.Hash.{Hash}
use certspotter.Merkletree.Bits.{add64}
use certspotter.Merkletree.Collapsed.{CollapsedTree, append}

pub record FragmentedCollapsedTree : Type 0 where
  pub subtrees : List CollapsedTree

pub data FragmentError : Type 0 where
  overlaps_ending overlaps_starting : ℕ → FragmentError
  subtrees_overlap : FragmentError

-- offset + size, on uint64
unfoldable pub end_of : CollapsedTree → ℕ
end_of tree = add64 tree.offset tree.size

-- `for i > 0 && subtrees[i-1].offset > offset { i-- }`
unfoldable pub find_place :
    ℕ → List CollapsedTree → List CollapsedTree → List CollapsedTree × List CollapsedTree
find_place offset [] after = ([], after)
find_place offset (prev ∷ before) after =
    let further = find_place offset before (prev ∷ after) in
    if ltb offset prev.offset then further else (prev ∷ before, after)

unfoldable pub check_before : List CollapsedTree → CollapsedTree → Result FragmentError (Unit {0})
check_before [] subtree = ok tt
check_before (prev ∷ before) subtree =
    if ltb subtree.offset (end_of prev) then err (overlaps_ending (end_of prev)) else ok tt

unfoldable pub check_after : List CollapsedTree → CollapsedTree → Result FragmentError (Unit {0})
check_after [] subtree = ok tt
check_after (next ∷ after) subtree =
    if ltb next.offset (end_of subtree) then err (overlaps_starting next.offset) else ok tt

module _ (sha256 : Bytes → Hash) where
  -- The last loop: the subtree at `i - 1` takes in what follows while `Append` succeeds.
  unfoldable pub merge_following :
      CollapsedTree → List CollapsedTree → Result FragmentError (List CollapsedTree)
  merge_following cur [] = ok (cur ∷ [])
  merge_following cur (next ∷ after) = elim (append sha256 cur next) [
    | ok joined ↦ merge_following joined after
    | err e ↦ ok (cur ∷ next ∷ after)
    | panic ↦ panic
  ]

  -- `if i == 0 || subtrees[i-1].Append(subtree) != nil { Insert; i++ }`, then the last loop.
  unfoldable pub insert_at :
      List CollapsedTree
      → CollapsedTree
      → List CollapsedTree
      → Result FragmentError (List CollapsedTree)
  insert_at [] subtree after = merge_following subtree after
  insert_at (prev ∷ before) subtree after = elim (append sha256 prev subtree) [
    | ok joined ↦ merge_following joined after >>= λ rest. ok (reverse before ++ rest)
    | err e ↦ merge_following subtree after >>= λ rest. ok (reverse (prev ∷ before) ++ rest)
    | panic ↦ panic
  ]

  unfoldable pub add :
      FragmentedCollapsedTree → CollapsedTree → Result FragmentError FragmentedCollapsedTree
  add tree subtree =
      if subtree.size == 0
      then ok tree
      else let (before, after) = find_place subtree.offset (reverse tree.subtrees) [] in
        do
          check_before before subtree
          check_after after subtree
          subtrees ← insert_at before subtree after
          ok (record { subtrees = subtrees })

  unfoldable pub add_hash :
      FragmentedCollapsedTree → ℕ → Hash → Result FragmentError FragmentedCollapsedTree
  add_hash tree position hash = add tree (record { offset = position; nodes = hash ∷ []; size = 1 })

  -- An error leaves the subtrees that were added before it in `tree`: the callers drop it then.
  merge_list :
      FragmentedCollapsedTree → List CollapsedTree → Result FragmentError FragmentedCollapsedTree
  merge_list tree [] = ok tree
  merge_list tree (subtree ∷ others) = add tree subtree >>= λ grown. merge_list grown others

  unfoldable pub merge :
      FragmentedCollapsedTree
      → FragmentedCollapsedTree
      → Result FragmentError FragmentedCollapsedTree
  unfolding merge_list
  merge tree other = merge_list tree other.subtrees

-- The pairs that `Gaps` yields to a consumer that takes them all; the last one is open, (end, 0).
unfoldable pub gaps_from : ℕ → List CollapsedTree → List (ℕ × ℕ)
gaps_from prev_end [] = (prev_end, 0) ∷ []
gaps_from prev_end (subtree ∷ rest) =
    let more = gaps_from (end_of subtree) rest in
    if not (prev_end == subtree.offset) then (prev_end, subtree.offset) ∷ more else more

unfoldable pub gaps : FragmentedCollapsedTree → List (ℕ × ℕ)
gaps tree = gaps_from 0 tree.subtrees

unfoldable pub num_subtrees : FragmentedCollapsedTree → ℕ
num_subtrees tree = length tree.subtrees

unfoldable pub is_whole : List CollapsedTree → ℕ → Bool
is_whole [] size = false
is_whole (subtree ∷ []) size = (subtree.offset == 0) && (subtree.size == size)
is_whole (first ∷ second ∷ rest) size = false

unfoldable pub is_complete : FragmentedCollapsedTree → ℕ → Bool
unfolding is_whole
is_complete tree size = is_whole tree.subtrees size

-- The loop of `Init` over the pairs of neighbours.
unfoldable pub no_overlap : List CollapsedTree → Bool
no_overlap [] = true
no_overlap (first ∷ []) = true
no_overlap (first ∷ second ∷ rest) =
    not (ltb second.offset (end_of first)) && no_overlap (second ∷ rest)

unfoldable pub init : List CollapsedTree → Result FragmentError FragmentedCollapsedTree
init subtrees =
    if no_overlap subtrees then ok (record { subtrees = subtrees }) else err subtrees_overlap
