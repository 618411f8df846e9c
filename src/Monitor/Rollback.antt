-- ===== src/Monitor/Rollback.antt =====
-- What is left of a log's state when an STH's root hash does not match the downloaded entries: the
-- `return nil` inside the loop of `monitorLog` in monitor/monitor.go. It depends on whether the two
-- positions are one pointer, as `verified` leaves them.
use certspotter.Prelude.{
  ℕ, ◌≡◌, ◌≢◌, refl, ap, ◌∙◌, Bool, true, false, List, ◌∷◌, bytes_equal, ok, ◌==◌, ==_refl, ==_iff,
  Bool-cases, inl, inr, ◌%◌,
}
use certspotter.Merkletree.Hash.{Hash, hash_leaf}
use certspotter.Merkletree.Collapsed.{CollapsedTree, add, calculate_root}
use certspotter.Ct.Types.{SignedTreeHead}
use certspotter.Ct.Client.{GetEntriesItem}
use certspotter.Monitor.Run.{
  World, Environment, Flow, returns, store_log_state, record_error, download_tree, snapshot, called,
  store, roll_back, verify_sths, save_if, process_entry, update, Heap,
}

update-same : (heap : Heap) (p : ℕ) (tree : CollapsedTree) → update heap p tree p ≡ tree
update-same heap p tree = rw (==_refl p) refl

update-other :
    (heap : Heap) (p q : ℕ) (tree : CollapsedTree) → p ≢ q → update heap p tree q ≡ heap q
update-other heap p q tree n = elim (Bool-cases (p == q)) [
  | inl e ↦ absurd (n ((==_iff p q).0 e))
  | inr e ↦ rw e refl
]

module _ (env : Environment) where
  -- The world that a rollback stores, before the store is recorded, and after it
  abbrev pub moved_back : World → World
  moved_back w = record w {
    state = record w.state { download_position = w.state.verified_position };
    calls = record_error ∷ w.calls;
  }

  abbrev pub rolled : World → World
  rolled w = called (moved_back w) (store_log_state (snapshot (moved_back w)))

  roll_back_lem : (w : World) → (e : Bool) × (roll_back env w ≡ returns (rolled w) e)
  unfolding roll_back store
  roll_back_lem w = elim (Bool-cases (env.stores (snapshot (moved_back w)))) [
    | inl stored ↦ (false, rw stored refl)
    | inr failed ↦ (true, rw failed refl)
  ]

  abbrev pub grown : World → CollapsedTree → World
  grown w tree = record w { heap = update w.heap w.state.download_position tree }

  verify_sths-mismatch :
      (w : World) (sth : SignedTreeHead) (sths : List SignedTreeHead) (root_hash : Hash)
      (save : Bool) (next : World → Bool → Flow)
      → (download_tree w).size ≡ sth.tree_size
      → bytes_equal sth.sha256_root_hash root_hash ≡ false
      → verify_sths env (sth ∷ sths) root_hash w save next ≡ roll_back env w
  unfolding verify_sths
  verify_sths-mismatch w sth sths root_hash save next size mismatch =
      rw ((==_iff (download_tree w).size sth.tree_size).1 size, mismatch) refl

  pub process_entry-added :
      (w : World) (item : GetEntriesItem) (tree : CollapsedTree)
      → env.processes (download_tree w).size item ≡ true
      → add env.sha256 (download_tree w) (hash_leaf env.sha256 item.leaf_input) ≡ ok tree
      → process_entry env w item
        ≡ verify_sths env w.sths
            (calculate_root env.sha256 (download_tree (grown w tree)))
            (grown w tree)
            ((download_tree (grown w tree)).size % 10000 == 0)
            (save_if env)
  unfolding process_entry
  process_entry-added w item tree processed added = rw (processed, added) refl

  pub grown-tree : (w : World) (tree : CollapsedTree) → download_tree (grown w tree) ≡ tree
  unfolding download_tree
  grown-tree w tree = update-same w.heap w.state.download_position tree

  -- The run of one entry after which the first STH waiting does not match
  process_entry-mismatch :
      (w : World) (item : GetEntriesItem) (tree : CollapsedTree) (sth : SignedTreeHead)
      (sths : List SignedTreeHead)
      → w.sths ≡ sth ∷ sths
      → env.processes (download_tree w).size item ≡ true
      → add env.sha256 (download_tree w) (hash_leaf env.sha256 item.leaf_input) ≡ ok tree
      → tree.size ≡ sth.tree_size
      → bytes_equal sth.sha256_root_hash (calculate_root env.sha256 tree) ≡ false
      → (e : Bool) × (process_entry env w item ≡ returns (rolled (grown w tree)) e)
  process_entry-mismatch w item tree sth sths waiting processed added size mismatch =
      let (e, r) = roll_back_lem (grown w tree) in
      let same = grown-tree w tree in
      (
        e,
        process_entry-added w item tree processed added
            ∙ ap
                (λ ss.
                  verify_sths env ss (calculate_root env.sha256 (download_tree (grown w tree)))
                    (grown w tree) ((download_tree (grown w tree)).size % 10000 == 0) (save_if env))
                waiting
            ∙ verify_sths-mismatch (grown w tree) sth sths _ _ _ (ap (λ t. t.size) same ∙ size) (
                ap (λ t. bytes_equal sth.sha256_root_hash (calculate_root env.sha256 t)) same
                ∙ mismatch)
            ∙ r,
      )

  -- An entry after which the root does not match the STH that is next, the STH's size being reached,
  -- while the two positions are one pointer: the error is recorded, and the state that is kept and
  -- given to the store has the tree with the entry that did not verify, as its download position and as its
  -- verified position.
  pub process_entry-mismatch_aliased :
      (w : World) (item : GetEntriesItem) (tree : CollapsedTree) (sth : SignedTreeHead)
      (sths : List SignedTreeHead)
      → w.state.verified_position ≡ w.state.download_position
      → w.sths ≡ sth ∷ sths
      → env.processes (download_tree w).size item ≡ true
      → add env.sha256 (download_tree w) (hash_leaf env.sha256 item.leaf_input) ≡ ok tree
      → tree.size ≡ sth.tree_size
      → bytes_equal sth.sha256_root_hash (calculate_root env.sha256 tree) ≡ false
      → (v : World) × (e : Bool) × (process_entry env w item ≡ returns v e)
        × (v.calls ≡ store_log_state (snapshot v) ∷ record_error ∷ w.calls)
        × ((snapshot v).download_position ≡ tree)
        × ((snapshot v).verified_position ≡ tree)
  unfolding snapshot
  process_entry-mismatch_aliased w item tree sth sths alias waiting processed added size mismatch =
      let (e, run) =
        process_entry-mismatch w item tree sth sths waiting processed added size mismatch in
      let here : update w.heap w.state.download_position tree w.state.verified_position ≡ tree =
        ap (update w.heap w.state.download_position tree) alias
        ∙ update-same w.heap w.state.download_position tree in
      (rolled (grown w tree), e, run, refl, here, here)

  -- An entry after which the root does not match the STH that is next, the STH's size being reached,
  -- while the two positions are different pointers: the error is recorded, and the state that is kept
  -- and given to the store has the tree that was at the verified position, in both positions.
  pub process_entry-mismatch_distinct :
      (w : World) (item : GetEntriesItem) (tree : CollapsedTree) (sth : SignedTreeHead)
      (sths : List SignedTreeHead)
      → w.state.download_position ≢ w.state.verified_position
      → w.sths ≡ sth ∷ sths
      → env.processes (download_tree w).size item ≡ true
      → add env.sha256 (download_tree w) (hash_leaf env.sha256 item.leaf_input) ≡ ok tree
      → tree.size ≡ sth.tree_size
      → bytes_equal sth.sha256_root_hash (calculate_root env.sha256 tree) ≡ false
      → (v : World) × (e : Bool) × (process_entry env w item ≡ returns v e)
        × (v.calls ≡ store_log_state (snapshot v) ∷ record_error ∷ w.calls)
        × ((snapshot v).download_position ≡ w.heap w.state.verified_position)
        × ((snapshot v).verified_position ≡ w.heap w.state.verified_position)
  unfolding snapshot
  process_entry-mismatch_distinct w item tree sth sths distinct waiting processed added size
        mismatch =
      let (e, run) =
        process_entry-mismatch w item tree sth sths waiting processed added size mismatch in
      let here =
        update-other w.heap w.state.download_position w.state.verified_position tree distinct in
      (rolled (grown w tree), e, run, refl, here, here)
