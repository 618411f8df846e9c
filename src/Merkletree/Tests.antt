-- ===== src/Merkletree/Tests.antt =====
-- The theorems of the tree code at small trees. The hash of the examples is the identity.
use certspotter.Prelude.{
  ℕ, ◌≤◌, ◌<◌, ◌≡◌, refl, ◌↔◌, ◌⊎◌, inl, inr, List, [], ◌∷◌, ◌++◌, Bytes, ok, err, true, length,
  arith,
}
use certspotter.Merkletree.Hash.{Hash}
use certspotter.Merkletree.Bits.{trailing_zeros}
use certspotter.Merkletree.Collapsed.{
  CollapsedTree, already_at_maximum, empty_collapsed_tree, add, append, calculate_root, to_message,
  of_message, max_size,
}
use certspotter.Merkletree.Perfect.{TreeHash, Represents, Perfect}
use certspotter.Merkletree.Add.{IsTreeOf, add-IsTreeOf}
use certspotter.Merkletree.Append.{append-IsTreeOf}
use certspotter.Merkletree.Build.{
  add_all, add_all-calculate_root, add-eq_err, of_message-to_message,
}
use certspotter.Merkletree.Fragment.{FragmentedCollapsedTree, FragmentError, is_complete, is_whole}
use certspotter.Merkletree.Fragment
use certspotter.Merkletree.Cells.{Cells, cells_from, IsSubtree, Segment}
use certspotter.Merkletree.Holds.{Occupied}
use certspotter.Merkletree.Insert.{IsHolding, add_cases, is_complete-TreeHash}

abbrev plain : Bytes → Hash
plain x = x

abbrev leaf_of : ℕ → Hash
leaf_of n = n ∷ []

abbrev three_leaves : List Hash
three_leaves = leaf_of 7 ∷ leaf_of 8 ∷ leaf_of 9 ∷ []

abbrev one_tree : ℕ → ℕ → CollapsedTree
one_tree offset n = record { offset = offset; nodes = leaf_of n ∷ []; size = 1 }

one_tree-IsTreeOf : (offset n : ℕ) → IsTreeOf plain (one_tree offset n) (leaf_of n ∷ [])
one_tree-IsTreeOf offset n = record {
  fits = omega arith;
  shape =
      Represents.odd {m = 0} {rest = []} {front = []} (omega arith) refl (Perfect.one (leaf_of n))
        Represents.none;
}

add_all-calculate_root_example :
    (tree : CollapsedTree) × (add_all plain empty_collapsed_tree three_leaves ≡ ok tree)
    × (tree.size ≡ 3)
    × TreeHash plain three_leaves (calculate_root plain tree)
add_all-calculate_root_example = add_all-calculate_root plain three_leaves (omega arith)

add-IsTreeOf_example :
    (grown : CollapsedTree) × (add plain (one_tree 0 7) (leaf_of 8) ≡ ok grown)
    × IsTreeOf plain grown (leaf_of 7 ∷ leaf_of 8 ∷ [])
    × (grown.size ≡ 2)
    × (grown.offset ≡ 0)
add-IsTreeOf_example =
    add-IsTreeOf plain (one_tree 0 7) (leaf_of 8) (leaf_of 7 ∷ []) (one_tree-IsTreeOf 0 7)
      (omega arith) (inl refl)

add-eq_err_example :
    (add plain (one_tree 1 7) (leaf_of 8) ≡ err already_at_maximum)
    ↔ ((already_at_maximum ≡ already_at_maximum) × (0 < 1) × (max_size 1 < 2))
add-eq_err_example =
    add-eq_err plain (one_tree 1 7) (leaf_of 8) (leaf_of 7 ∷ []) already_at_maximum
      (one_tree-IsTreeOf 1 7) (omega arith)

one_fits : 1 ≤ max_size 1
unfolding max_size trailing_zeros
one_fits = omega arith

append-IsTreeOf_example :
    (joined : CollapsedTree) × (append plain (one_tree 0 7) (one_tree 1 8) ≡ ok joined)
    × IsTreeOf plain joined (leaf_of 7 ∷ leaf_of 8 ∷ [])
    × (joined.size ≡ 2)
    × (joined.offset ≡ 0)
append-IsTreeOf_example =
    append-IsTreeOf plain (one_tree 0 7) (one_tree 1 8) (leaf_of 7 ∷ []) (leaf_of 8 ∷ [])
      (one_tree-IsTreeOf 0 7) (one_tree-IsTreeOf 1 8) (omega arith) (omega arith) refl (inl refl)
      (inr one_fits)

of_message-to_message_example :
    of_message empty_collapsed_tree (to_message (one_tree 0 7)) ≡ ok (one_tree 0 7)
of_message-to_message_example =
    of_message-to_message plain (one_tree 0 7) empty_collapsed_tree (leaf_of 7 ∷ [])
      (one_tree-IsTreeOf 0 7) (inl refl)

abbrev one_subtree : FragmentedCollapsedTree
one_subtree = record { subtrees = one_tree 0 7 ∷ [] }

one_tree-IsSubtree : IsSubtree plain (one_tree 0 7) (leaf_of 7 ∷ [])
one_tree-IsSubtree = record {
  of_tree = one_tree-IsTreeOf 0 7;
  allowed = inl refl;
  ends = omega arith;
  nonempty = omega arith;
}

one_subtree-IsHolding : IsHolding plain one_subtree (cells_from 0 (leaf_of 7 ∷ []))
one_subtree-IsHolding = record {
  segment =
      Segment.cons {ls = leaf_of 7 ∷ []} {rest = []} (omega arith) one_tree-IsSubtree refl
        (Segment.nil (omega arith));
}

add_cases_example :
    ((grown : FragmentedCollapsedTree) × (front back : Cells) × (Fragment.add plain one_subtree
          (one_tree 0 7)
        ≡ ok grown)
      × (cells_from 0 (leaf_of 7 ∷ []) ≡ front ++ back)
      × IsHolding plain grown (front ++ (cells_from 0 (leaf_of 7 ∷ []) ++ back)))
    ⊎ ((e : FragmentError) × (p : ℕ) × (Fragment.add plain one_subtree (one_tree 0 7) ≡ err e)
        × (0 ≤ p)
        × (p < 1)
        × Occupied p (cells_from 0 (leaf_of 7 ∷ [])))
add_cases_example =
    add_cases plain one_subtree (cells_from 0 (leaf_of 7 ∷ [])) (one_tree 0 7) (leaf_of 7 ∷ [])
      one_subtree-IsHolding one_tree-IsSubtree

one_complete : is_complete one_subtree 1 ≡ true
unfolding is_complete
one_complete = refl

is_complete-TreeHash_example :
    (whole : CollapsedTree) × (ls : List Hash) × (one_subtree.subtrees ≡ whole ∷ [])
    × (cells_from 0 (leaf_of 7 ∷ []) ≡ cells_from 0 ls)
    × (length ls ≡ 1)
    × TreeHash plain ls (calculate_root plain whole)
is_complete-TreeHash_example =
    is_complete-TreeHash plain one_subtree (cells_from 0 (leaf_of 7 ∷ [])) 1 one_subtree-IsHolding
      one_complete
