-- ===== src/Merkletree/Build.antt =====
-- Whole runs of the collapsed tree: adding leaf after leaf, the errors, and the JSON form.
use certspotter.Prelude.{
  ◌+◌, ◌^◌, ◌<◌, ◌≡◌, refl, sym, ◌∙◌, ◌↔◌, inl, inr, List, [], ◌∷◌, ◌++◌, Bytes, length,
  length-reverse, arith, ok, err, Result, append_assoc, append-nil, ◌>>=◌, ==_refl,
}
use certspotter.Merkletree.Hash.{Hash}
use certspotter.Merkletree.Bits.{ones_count}
use certspotter.Merkletree.Collapsed.{
  CollapsedTree, TreeError, add, calculate_root, calculate_num_nodes, max_size, already_at_maximum,
  empty_collapsed_tree, init, init_subtree, to_message, of_message,
}
use certspotter.Merkletree.Perfect.{TreeHash}
use certspotter.Merkletree.Root.{Represents-length}
use certspotter.Merkletree.Add.{
  IsTreeOf, Allows, add-IsTreeOf, add64-small, offset_guard-Allows, offset_guard-eq_err,
  Allows-cases, calculate_root-TreeHash, size-eq-length, IsTreeOf-empty,
}

module _ (sha256 : Bytes → Hash) where
  -- `Add` called on each hash in turn, as the callers do.
  unfoldable pub add_all : CollapsedTree → List Hash → Result TreeError CollapsedTree
  add_all tree [] = ok tree
  add_all tree (h ∷ hs) = add sha256 tree h >>= λ grown. add_all grown hs

module _ (sha256 : Bytes → Hash) where
  add_all-IsTreeOf :
      (hs : List Hash) (tree : CollapsedTree) (ls : List Hash)
      → IsTreeOf sha256 tree ls
      → tree.offset ≡ 0
      → tree.size + length hs < 2 ^ 64
      → (grown : CollapsedTree) × (add_all sha256 tree hs ≡ ok grown)
        × IsTreeOf sha256 grown (ls ++ hs)
  unfolding add_all
  add_all-IsTreeOf [] tree ls t z f = (tree, refl, rw append-nil t)
  add_all-IsTreeOf (h ∷ hs) tree ls t z f =
      let (mid, run, t', size, offset) = add-IsTreeOf sha256 tree h ls t (omega arith) (inl z) in
      let (grown, run', t'') =
        add_all-IsTreeOf hs mid (ls ++ (h ∷ [])) t' (offset ∙ z) (omega arith) in
      (grown, rw run run', rw append_assoc at t'')

  -- From the empty tree, fewer than 2 ^ 64 leaves are all added, and the root that the code
  -- computes then is the Merkle Tree Hash of RFC 6962 of exactly these leaves.
  pub add_all-calculate_root :
      (hs : List Hash)
      → length hs < 2 ^ 64
      → (tree : CollapsedTree) × (add_all sha256 empty_collapsed_tree hs ≡ ok tree)
        × (tree.size ≡ length hs)
        × TreeHash sha256 hs (calculate_root sha256 tree)
  add_all-calculate_root hs f =
      let (tree, run, t) =
        add_all-IsTreeOf hs empty_collapsed_tree [] (IsTreeOf-empty sha256) refl (omega arith) in
      (tree, run, size-eq-length sha256 tree hs t, calculate_root-TreeHash sha256 tree hs t)

  add_refused :
      (tree : CollapsedTree) (h : Hash)
      → tree.size + 1 < 2 ^ 64
      → 0 < tree.offset
      → max_size tree.offset < tree.size + 1
      → add sha256 tree h ≡ err already_at_maximum
  unfolding add
  add_refused tree h f pos over =
      rw (add64-small tree.size 1 f, offset_guard-eq_err _ _ already_at_maximum pos over)

  -- On a tree of some leaves that can count one more, `add` fails exactly when its offset does not
  -- allow the size, and the failure is the error that says so.
  pub add-eq_err :
      (tree : CollapsedTree) (h : Hash) (ls : List Hash) (e : TreeError)
      → IsTreeOf sha256 tree ls
      → tree.size + 1 < 2 ^ 64
      → (add sha256 tree h ≡ err e)
        ↔ ((e ≡ already_at_maximum) × (0 < tree.offset) × (max_size tree.offset < tree.size + 1))
  add-eq_err tree h ls e t f = elim (Allows-cases tree.offset (tree.size + 1)) [
    | inl a ↦
        let (grown, run, _, _, _) = add-IsTreeOf sha256 tree h ls t f a in
        (λ q. cc (run, q), λ (_, pos, over). absurd (omega arith))
    | inr (pos, over) ↦
        let run = add_refused tree h f pos over in
        (λ q. (cc (run, q), pos, over), λ (same, _, _). cc (run, same))
  ]

  -- The message that MarshalJSON encodes for a tree of some leaves, of a size that its offset allows,
  -- is one that UnmarshalJSON accepts and makes the same tree of.
  pub of_message-to_message :
      (tree fresh : CollapsedTree) (ls : List Hash)
      → IsTreeOf sha256 tree ls
      → Allows tree.offset tree.size
      → of_message fresh (to_message tree) ≡ ok tree
  unfolding of_message to_message init_subtree init calculate_num_nodes
  of_message-to_message tree fresh ls t a =
      let count : length tree.nodes ≡ ones_count 64 tree.size =
        sym (length-reverse tree.nodes) ∙ Represents-length sha256 64 t.shape t.fits in
      rw (offset_guard-Allows _ _ _ a, count, ==_refl)
