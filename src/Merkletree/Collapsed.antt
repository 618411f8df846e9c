-- ===== src/Merkletree/Collapsed.antt =====
-- merkletree/collapsed_tree.go. `nodes` is in Go's order, the largest subtree first; the loops that
-- work at the end of the slice run over its reversal.
use certspotter.Prelude.{
  ℕ, Bool, true, false, ◌&&◌, List, [], ◌∷◌, ◌++◌, reverse, Result, ok, err, panic, ◌>>=◌, ◌>>◌,
  ltb, ◌==◌, if◌then◌else◌, length, bytes_equal, Bytes,
}
use certspotter.Merkletree.Hash.{Hash, hash_nothing, hash_children}
use certspotter.Merkletree.Bits.{ones_count64, trailing_zeros64, shl64, add64}

pub record CollapsedTree : Type 0 where
  pub offset : ℕ
  pub nodes : List Hash
  pub size : ℕ

pub data TreeError : Type 0 where
  already_at_maximum not_contiguous exceeds_maximum too_large_to_append : TreeError
  wrong_node_count too_large_for_offset : TreeError

unfoldable pub calculate_num_nodes : ℕ → ℕ
calculate_num_nodes size = ones_count64 size

abbrev pub empty_collapsed_tree : CollapsedTree
empty_collapsed_tree = record { offset = 0; nodes = []; size = 0 }

nodes_equal : List Hash → List Hash → Bool
nodes_equal [] [] = true
nodes_equal [] (y ∷ ys) = false
nodes_equal (x ∷ xs) [] = false
nodes_equal (x ∷ xs) (y ∷ ys) = bytes_equal x y && nodes_equal xs ys

unfoldable pub equal : CollapsedTree → CollapsedTree → Bool
unfolding nodes_equal
equal tree other =
    (tree.offset == other.offset) && (tree.size == other.size) && nodes_equal tree.nodes other.nodes

-- `uint64(1) << bits.TrailingZeros64(n)`
unfoldable pub max_size : ℕ → ℕ
max_size n = shl64 1 (trailing_zeros64 n)

-- The guards of Add, Append and InitSubtree: with `n` 0 nothing is tested, and otherwise the new
-- size must not exceed `max_size n`.
abbrev pub offset_guard : ℕ → ℕ → TreeError → Result TreeError (Unit {0})
offset_guard n new_size e =
    if ltb 0 n then (if ltb (max_size n) new_size then err e else ok tt) else ok tt

unfoldable pub init : CollapsedTree → List Hash → ℕ → Result TreeError CollapsedTree
init tree nodes size =
    if length nodes == calculate_num_nodes size
    then ok (record tree { nodes = nodes; size = size })
    else err wrong_node_count

unfoldable pub new_collapsed_tree : List Hash → ℕ → Result TreeError CollapsedTree
new_collapsed_tree nodes size = init empty_collapsed_tree nodes size

unfoldable pub init_subtree : CollapsedTree → ℕ → List Hash → ℕ → Result TreeError CollapsedTree
init_subtree tree offset nodes size = do
  offset_guard offset size too_large_for_offset
  init (record tree { offset = offset }) nodes size

module _ (sha256 : Bytes → Hash) where
  -- The loop of `collapse` on the reversed nodes `right ∷ rest`. With one node left and none
  -- wanted, Go indexes the slice at -1 and panics.
  unfoldable pub collapse_loop : ℕ → Hash → List Hash → Result TreeError (List Hash)
  collapse_loop num_nodes right [] = if ltb num_nodes 1 then panic else ok (right ∷ [])
  collapse_loop num_nodes right (left ∷ rest) =
      let more = collapse_loop num_nodes (hash_children sha256 left right) rest in
      if ltb num_nodes (length (right ∷ left ∷ rest)) then more else ok (right ∷ left ∷ rest)

  abbrev pub collapse_nodes : ℕ → List Hash → Result TreeError (List Hash)
  collapse_nodes num_nodes [] = ok []
  collapse_nodes num_nodes (right ∷ rest) = collapse_loop num_nodes right rest

  unfoldable pub collapse : CollapsedTree → Result TreeError CollapsedTree
  collapse tree = do
    nodes ← collapse_nodes (calculate_num_nodes tree.size) (reverse tree.nodes)
    ok (record tree { nodes = reverse nodes })

  unfoldable pub add : CollapsedTree → Hash → Result TreeError CollapsedTree
  add tree hash = do
    offset_guard tree.offset (add64 tree.size 1) already_at_maximum
    collapse (record tree { nodes = tree.nodes ++ (hash ∷ []); size = add64 tree.size 1 })

  unfoldable pub append : CollapsedTree → CollapsedTree → Result TreeError CollapsedTree
  append tree other = do
    (if add64 tree.offset tree.size == other.offset then ok tt else err not_contiguous)
    offset_guard tree.offset (add64 tree.size other.size) exceeds_maximum
    offset_guard tree.size other.size too_large_to_append
    collapse (record tree { nodes = tree.nodes ++ other.nodes; size = add64 tree.size other.size })

  -- The loop of `CalculateRoot` over the reversed nodes.
  unfoldable pub root_loop : Hash → List Hash → Hash
  root_loop hash [] = hash
  root_loop hash (node ∷ rest) = root_loop (hash_children sha256 node hash) rest

  abbrev pub root_of_reversed : List Hash → Hash
  root_of_reversed [] = hash_nothing sha256
  root_of_reversed (last ∷ rest) = root_loop last rest

  unfoldable pub calculate_root : CollapsedTree → Hash
  calculate_root tree = root_of_reversed (reverse tree.nodes)

-- What MarshalJSON hands to the JSON encoder and UnmarshalJSON gets from the decoder.
pub record CollapsedTreeMessage : Type 0 where
  pub offset : ℕ
  pub nodes : List Hash
  pub size : ℕ

unfoldable pub to_message : CollapsedTree → CollapsedTreeMessage
to_message tree = record { offset = tree.offset; nodes = tree.nodes; size = tree.size }

unfoldable pub of_message : CollapsedTree → CollapsedTreeMessage → Result TreeError CollapsedTree
of_message tree m = init_subtree tree m.offset m.nodes m.size
