-- ===== src/Monitor/Reconstruct.antt =====
-- `reconstructTree` of monitor/monitor.go: the tree of an STH, from the last leaf and its audit
-- path. What the log client gives is an argument.
use certspotter.Prelude.{
  ℕ, zero, suc, ◌-◌, ◌<◌, arith, ◌≡◌, sym, not, List, [], ◌∷◌, reverse, map, Bytes, bytes_equal,
  bytes_equal_iff, Result, ok, err, panic, ◌>>=◌, >>=-eq-ok, ltb, ◌==◌, if◌then◌else◌, Bool-cases,
  ap, ◌∙◌, inl, inr,
}
use certspotter.Merkletree.Hash.{Hash, hash_leaf}
use certspotter.Merkletree.Collapsed.{
  CollapsedTree, TreeError, empty_collapsed_tree, new_collapsed_tree, add, calculate_root,
}
use certspotter.Ct.Types.{SignedTreeHead}
use certspotter.Ct.Client.{ClientError, GetEntriesItem}

pub data ReconstructError : Type 0 where
  client : ClientError → ReconstructError
  invalid_audit_proof root_mismatch : ReconstructError

abbrev pub of_client {ℓ} : {A : Type ℓ} → Result ClientError A → Result ReconstructError A
of_client (ok a) = ok a
of_client (err e) = err (client e)
of_client panic = panic

-- `entries[0]`, which panics on no entries
abbrev pub first_entry : List GetEntriesItem → Result ReconstructError GetEntriesItem
first_entry [] = panic
first_entry (item ∷ items) = ok item

-- `copy` into a new array of `n` bytes: what is longer is cut, what is shorter is filled with zeros.
unfoldable pub copy_into : ℕ → Bytes → Hash
copy_into zero b = []
copy_into (suc n) [] = 0 ∷ copy_into n []
copy_into (suc n) (x ∷ b) = x ∷ copy_into n b

abbrev pub invalid_proof {ℓ} : {A : Type ℓ} → Result TreeError A → Result ReconstructError A
invalid_proof (ok a) = ok a
invalid_proof (err e) = err invalid_audit_proof
invalid_proof panic = panic

-- The error of `Add` is not looked at.
abbrev pub added_or :
    CollapsedTree → Result TreeError CollapsedTree → Result ReconstructError CollapsedTree
added_or tree (ok grown) = ok grown
added_or tree (err e) = ok tree
added_or tree panic = panic

module _ (sha256 : Bytes → Hash) where
  -- The tree before the last leaf
  unfoldable pub rest_of_tree :
      SignedTreeHead → Result ClientError (List Bytes) → Result ReconstructError CollapsedTree
  rest_of_tree sth audit_path =
      if ltb 1 sth.tree_size
      then (of_client audit_path >>= λ path.
          invalid_proof
            (new_collapsed_tree (map (copy_into 32) (reverse path)) (sth.tree_size - 1)))
      else ok empty_collapsed_tree

  abbrev pub check_root : SignedTreeHead → CollapsedTree → Result ReconstructError CollapsedTree
  check_root sth tree =
      if not (bytes_equal (calculate_root sha256 tree) sth.sha256_root_hash)
      then err root_mismatch
      else ok tree

  abbrev pub with_leaf :
      SignedTreeHead
      → Result ClientError (List Bytes)
      → Hash
      → Result ReconstructError CollapsedTree
  with_leaf sth audit_path leaf_hash = do
    tree ← rest_of_tree sth audit_path
    grown ← added_or tree (add sha256 tree leaf_hash)
    check_root sth grown

  abbrev pub of_entries :
      SignedTreeHead
      → Result ClientError (List GetEntriesItem)
      → (Hash → Result ClientError (List Bytes))
      → Result ReconstructError CollapsedTree
  of_entries sth raw_entries audit_path = do
    entries ← of_client raw_entries
    entry ← first_entry entries
    with_leaf sth (audit_path (hash_leaf sha256 entry.leaf_input))
        (hash_leaf sha256 entry.leaf_input)

  -- `audit_path` answers for the leaf hash that it is asked for.
  unfoldable pub reconstruct_tree :
      SignedTreeHead
      → Result ClientError (List GetEntriesItem)
      → (Hash → Result ClientError (List Bytes))
      → Result ReconstructError CollapsedTree
  reconstruct_tree sth raw_entries audit_path =
      if sth.tree_size == 0 then ok empty_collapsed_tree else of_entries sth raw_entries audit_path

  check_root-eq_ok :
      (sth : SignedTreeHead) (grown tree : CollapsedTree)
      → check_root sth grown ≡ ok tree
      → calculate_root sha256 tree ≡ sth.sha256_root_hash
  check_root-eq_ok sth grown tree h =
      elim (Bool-cases (bytes_equal (calculate_root sha256 grown) sth.sha256_root_hash)) [
        | inl same ↦
            let e : grown ≡ tree = ground (arith, same) in
            ap (calculate_root sha256) (sym e) ∙ (bytes_equal_iff _ _).0 same
        | inr differ ↦ ground (arith, differ)
      ]

  -- For an STH of a size that is not 0, a tree that `reconstruct_tree` returns has the STH's root
  -- hash, whatever the log answered.
  pub reconstruct_tree-root :
      (sth : SignedTreeHead) (raw_entries : Result ClientError (List GetEntriesItem))
      (audit_path : Hash → Result ClientError (List Bytes)) (tree : CollapsedTree)
      → 0 < sth.tree_size
      → reconstruct_tree sth raw_entries audit_path ≡ ok tree
      → calculate_root sha256 tree ≡ sth.sha256_root_hash
  unfolding reconstruct_tree
  reconstruct_tree-root sth (err e) audit tree pos h = ground arith
  reconstruct_tree-root sth panic audit tree pos h = ground arith
  reconstruct_tree-root sth (ok []) audit tree pos h = ground arith
  reconstruct_tree-root sth (ok (item ∷ items)) audit tree pos h =
      let leaf_hash = hash_leaf sha256 item.leaf_input in
      let leaf : with_leaf sth (audit leaf_hash) leaf_hash ≡ ok tree = ground arith in
      let (before, _, h1) =
        >>=-eq-ok (rest_of_tree sth (audit leaf_hash))
          (λ t. added_or t (add sha256 t leaf_hash) >>= check_root sth) leaf in
      let (grown, _, h2) =
        >>=-eq-ok (added_or before (add sha256 before leaf_hash)) (check_root sth) h1 in
      check_root-eq_ok sth grown tree h2
