-- ===== src/Monitor/Reach.antt =====
-- The run of `monitorLog` over the entries up to the size of one STH that is waiting.
use certspotter.Prelude.{
  ℕ, ◌+◌, ◌%◌, ◌^◌, ◌<◌, ◌≡◌, ◌≢◌, refl, sym, ap, ◌∙◌, subst, Bool, true, false, List, [], ◌∷◌,
  ◌++◌, map, Bytes, bytes_equal, ok, ◌==◌, ==_iff, Bool-cases, inl, inr, length, some, arith,
}
use certspotter.Merkletree.Hash.{Hash, hash_leaf}
use certspotter.Merkletree.Collapsed.{CollapsedTree, add, calculate_root}
use certspotter.Merkletree.Add.{IsTreeOf, add-IsTreeOf}
use certspotter.Merkletree.Build.{add_all}
use certspotter.Ct.Types.{SignedTreeHead}
use certspotter.Ct.Client.{GetEntriesItem}
use certspotter.Monitor.Run.{
  World, SavedState, Environment, Flow, goes_on, store_log_state, remove_sth, download_tree,
  snapshot, called, store, verified, verify_sths, save_if, process_entry, process_entries,
}
use certspotter.Monitor.Rollback.{grown, grown-tree, process_entry-added}

-- The leaf hashes of entries
abbrev pub leaf_hashes : (Bytes → Hash) → List GetEntriesItem → List Hash
leaf_hashes sha256 items = map (λ item. hash_leaf sha256 item.leaf_input) items

-- The calls that may fail do not.
pub record IsWilling (env : Environment) : Type 0 where
  pub stored : (s : SavedState) → env.stores s ≡ true
  pub removed : (sth : SignedTreeHead) → env.removes sth ≡ true
  pub processed : (i : ℕ) (item : GetEntriesItem) → env.processes i item ≡ true

module _ (env : Environment) (willing : IsWilling env) where
  -- What a save leaves as it was
  save_if-same :
      (w : World) (save : Bool)
      → (v : World) × (save_if env w save ≡ goes_on v)
        × (v.heap ≡ w.heap)
        × (v.state ≡ w.state)
        × (v.sths ≡ w.sths)
  unfolding store
  save_if-same w false = (w, refl, refl, refl, refl)
  save_if-same w true = (
    called w (store_log_state (snapshot w)),
    rw (willing.stored (snapshot w)) refl,
    refl,
    refl,
    refl,
  )

  same_download_tree :
      (u v : World) → v.heap ≡ u.heap → v.state ≡ u.state → download_tree v ≡ download_tree u
  unfolding download_tree
  same_download_tree u v heap state =
      ap (λ h. h v.state.download_position) heap ∙ ap (λ s. u.heap s.download_position) state

  verify_sths-later :
      (u : World) (sth : SignedTreeHead) (root : Hash) (save : Bool) (next : World → Bool → Flow)
      → (download_tree u).size ≢ sth.tree_size
      → verify_sths env (sth ∷ []) root u save next ≡ next (record u { sths = sth ∷ [] }) save
  unfolding verify_sths
  verify_sths-later u sth root save next below =
      elim (Bool-cases ((download_tree u).size == sth.tree_size)) [
        | inl e ↦ absurd (below ((==_iff (download_tree u).size sth.tree_size).0 e))
        | inr e ↦ rw e refl
      ]

  verify_sths-matches :
      (u : World) (sth : SignedTreeHead) (root : Hash) (save : Bool) (next : World → Bool → Flow)
      → (download_tree u).size ≡ sth.tree_size
      → bytes_equal sth.sha256_root_hash root ≡ true
      → verify_sths env (sth ∷ []) root u save next
        ≡ next (record (called (verified env u sth) (remove_sth sth)) { sths = [] }) true
  unfolding verify_sths
  verify_sths-matches u sth root save next size matches =
      rw ((==_iff (download_tree u).size sth.tree_size).1 size, matches, willing.removed sth) refl

  -- One entry that can be added, up to what is done about the STH
  process_entry-next :
      (w : World) (item : GetEntriesItem) (tree : CollapsedTree) (sth : SignedTreeHead)
      → w.sths ≡ sth ∷ []
      → add env.sha256 (download_tree w) (hash_leaf env.sha256 item.leaf_input) ≡ ok tree
      → (save : Bool) × (process_entry env w item
          ≡ verify_sths env
              (sth ∷ [])
              (calculate_root env.sha256 tree)
              (grown env w tree)
              save
              (save_if env))
  process_entry-next w item tree sth waiting added =
      let same = grown-tree env w tree in
      (
        (download_tree (grown env w tree)).size % 10000 == 0,
        process_entry-added env w item tree (willing.processed _ item) added
            ∙ ap
                (λ sths.
                  verify_sths env sths
                    (calculate_root env.sha256 (download_tree (grown env w tree)))
                    (grown env w tree) ((download_tree (grown env w tree)).size % 10000 == 0)
                    (save_if env))
                waiting
            ∙ ap
                (λ t.
                  verify_sths env (sth ∷ []) (calculate_root env.sha256 t) (grown env w tree)
                    ((download_tree (grown env w tree)).size % 10000 == 0) (save_if env))
                same,
      )

  process_entry-before :
      (w : World) (item : GetEntriesItem) (tree : CollapsedTree) (sth : SignedTreeHead)
      → w.sths ≡ sth ∷ []
      → add env.sha256 (download_tree w) (hash_leaf env.sha256 item.leaf_input) ≡ ok tree
      → tree.size ≢ sth.tree_size
      → (v : World) × (process_entry env w item ≡ goes_on v)
        × (v.sths ≡ sth ∷ [])
        × (download_tree v ≡ tree)
  process_entry-before w item tree sth waiting added below =
      let (save, step) = process_entry-next w item tree sth waiting added in
      let u = record (grown env w tree) { sths = sth ∷ [] } in
      let (v, saved, heap, state, sths) = save_if-same u save in
      let same = grown-tree env w tree in
      (
        v,
        step
            ∙ verify_sths-later (grown env w tree) sth _ save (save_if env)
                (λ e. below (sym (ap (λ t. t.size) same) ∙ e))
            ∙ saved,
        sths,
        same_download_tree (grown env w tree) v heap state ∙ same,
      )

  -- What is reached: the tree, verified at its size by the STH
  abbrev pub IsVerifiedAt : CollapsedTree → SignedTreeHead → World → Type 0
  IsVerifiedAt tree sth v =
      (v.sths ≡ [])
      × (download_tree v ≡ tree)
      × (v.state.verified_position ≡ v.state.download_position)
      × (v.state.verified_sth ≡ some sth)

  process_entry-reaches :
      (w : World) (item : GetEntriesItem) (tree : CollapsedTree) (sth : SignedTreeHead)
      → w.sths ≡ sth ∷ []
      → add env.sha256 (download_tree w) (hash_leaf env.sha256 item.leaf_input) ≡ ok tree
      → tree.size ≡ sth.tree_size
      → bytes_equal sth.sha256_root_hash (calculate_root env.sha256 tree) ≡ true
      → (v : World) × (process_entry env w item ≡ goes_on v) × IsVerifiedAt tree sth v
  unfolding download_tree verified
  process_entry-reaches w item tree sth waiting added size matches =
      let (save, step) = process_entry-next w item tree sth waiting added in
      let u = record (called (verified env (grown env w tree) sth) (remove_sth sth)) {
        sths = [];
      } in
      let (v, saved, heap, state, sths) = save_if-same u true in
      let same = grown-tree env w tree in
      (
        v,
        step
            ∙ verify_sths-matches (grown env w tree) sth _ save (save_if env)
                (ap (λ t. t.size) same ∙ size) matches
            ∙ saved,
        (
          sths,
          same_download_tree u v heap state ∙ same,
          ap (λ s. s.verified_position) state ∙ sym (ap (λ s. s.download_position) state),
          ap (λ s. s.verified_sth) state,
        ),
      )

  -- All entries up to the size of the STH
  pub process_entries-reaches :
      (w : World) (items : List GetEntriesItem) (item : GetEntriesItem) (ls : List Hash)
      (tree : CollapsedTree) (sth : SignedTreeHead)
      → w.sths ≡ sth ∷ []
      → IsTreeOf env.sha256 (download_tree w) ls
      → (download_tree w).offset ≡ 0
      → (download_tree w).size + length (item ∷ items) ≡ sth.tree_size
      → sth.tree_size < 2 ^ 64
      → add_all env.sha256 (download_tree w) (leaf_hashes env.sha256 (item ∷ items)) ≡ ok tree
      → bytes_equal sth.sha256_root_hash (calculate_root env.sha256 tree) ≡ true
      → (v : World) × (process_entries env (item ∷ items) w ≡ goes_on v) × IsVerifiedAt tree sth v
  unfolding process_entries add_all
  process_entries-reaches w [] item ls tree sth waiting t offset size bound adds matches =
      let (mid, added, t', grows, offset') =
        add-IsTreeOf env.sha256 (download_tree w) (hash_leaf env.sha256 item.leaf_input) ls t
          (omega arith) (inl offset) in
      let same : mid ≡ tree = cc (rw added at adds) in
      let (v, run, reached) =
        process_entry-reaches w item tree sth waiting (added ∙ ap (λ m. ok m) same)
          (ap (λ m. m.size) (sym same) ∙ grows ∙ omega arith) matches in
      (v, rw run refl, reached)
  process_entries-reaches w (next ∷ items) item ls tree sth waiting t offset size bound adds
        matches =
      let (mid, added, t', grows, offset') =
        add-IsTreeOf env.sha256 (download_tree w) (hash_leaf env.sha256 item.leaf_input) ls t
          (omega arith) (inl offset) in
      let (v, run, waiting', here) =
        process_entry-before w item mid sth waiting added (λ e. omega arith) in
      let size' = ap (λ m. m.size) here in
      let adds' = rw added at adds in
      let (u, run', reached) =
        process_entries-reaches v items next (ls ++ (hash_leaf env.sha256 item.leaf_input ∷ []))
          tree sth waiting'
          (subst (λ m. IsTreeOf env.sha256 m (ls ++ (hash_leaf env.sha256 item.leaf_input ∷ [])))
            (sym here) t')
          (ap (λ m. m.offset) here ∙ offset' ∙ offset) (omega arith) bound
          (ap (λ m. add_all env.sha256 m (leaf_hashes env.sha256 (next ∷ items))) here ∙ adds')
          matches in
      (u, rw run run', reached)
