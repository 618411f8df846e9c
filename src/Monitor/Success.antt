-- ===== src/Monitor/Success.antt =====
-- A run of `monitorLog` on a new log whose answers are right, to its end.
use certspotter.Prelude.{
  ℕ, suc, ◌+◌, ◌-◌, ◌^◌, ◌<◌, ◌≤◌, ◌≡◌, refl, sym, ap, ◌∙◌, subst, true, false, List, [], ◌∷◌,
  bytes_equal, bytes_equal_iff, ok, leb, length, none, some, arith,
}
use certspotter.Merkletree.Hash.{Hash}
use certspotter.Merkletree.Collapsed.{CollapsedTree, empty_collapsed_tree, calculate_root}
use certspotter.Merkletree.Perfect.{TreeHash}
use certspotter.Merkletree.Unique.{TreeHash-unique}
use certspotter.Merkletree.Add.{IsTreeOf, IsTreeOf-empty}
use certspotter.Merkletree.Build.{add_all, add_all-calculate_root}
use certspotter.Ct.Types.{SignedTreeHead}
use certspotter.Ct.Client.{GetEntriesItem, get_raw_entries}
use certspotter.Monitor.Run.{
  World, Call, prepare_log, store_sth, Environment, goes_on, returns, store_log_state,
  download_tree, snapshot, called, store, drop_covered, finish, deferred, follow, no_error,
}
use certspotter.Monitor.Download.{max_get_entries_size}
use certspotter.Monitor.Delivered.{range, range-length}
use certspotter.Monitor.Live.{download_entries_delivers}
use certspotter.Monitor.Log.{Answers, from_nothing, with_state, download_and_follow, monitor_log}
use certspotter.Monitor.Reach.{leaf_hashes, IsWilling, IsVerifiedAt, process_entries-reaches}

module _ (env : Environment) (willing : IsWilling env) (start : ℕ) where
  drop_covered-above :
      (sth : SignedTreeHead) (w : World)
      → (download_tree w).size < sth.tree_size
      → drop_covered env (sth ∷ []) w ≡ goes_on (record w { sths = sth ∷ [] })
  unfolding drop_covered
  drop_covered-above sth w above =
      let over : leb sth.tree_size (download_tree w).size ≡ false = ground arith in rw over refl

  -- How a run has ended that has been a success
  abbrev pub IsSuccess : CollapsedTree → SignedTreeHead → World → Type 0
  IsSuccess tree sth v =
      IsVerifiedAt env willing tree sth v
      × (v.state.last_success ≡ start)
      × ((calls : List Call) × (v.calls ≡ store_log_state (snapshot v) ∷ calls))

  leaf_hashes-length :
      (items : List GetEntriesItem) → length (leaf_hashes env.sha256 items) ≡ length items
  leaf_hashes-length [] = refl
  leaf_hashes-length (item ∷ items) = ap suc (leaf_hashes-length items)

  follow_succeeds :
      (w : World) (items : List GetEntriesItem) (item : GetEntriesItem) (ls : List Hash)
      (tree : CollapsedTree) (sth : SignedTreeHead)
      → IsTreeOf env.sha256 (download_tree w) ls
      → (download_tree w).offset ≡ 0
      → (download_tree w).size + length (item ∷ items) ≡ sth.tree_size
      → sth.tree_size < 2 ^ 64
      → add_all env.sha256 (download_tree w) (leaf_hashes env.sha256 (item ∷ items)) ≡ ok tree
      → bytes_equal sth.sha256_root_hash (calculate_root env.sha256 tree) ≡ true
      → (v : World) × (follow env (sth ∷ []) (item ∷ items) no_error start w ≡ returns v false)
        × IsSuccess tree sth v
  unfolding follow finish deferred download_tree snapshot
  follow_succeeds w items item ls tree sth t offset size bound adds matches =
      let (v, run, (sths, here, alias, by)) =
        process_entries-reaches env willing (record w { sths = sth ∷ [] }) items item ls tree sth
          refl t offset size bound adds matches in
      let above = drop_covered-above sth w (omega arith) in
      let u = record v { state = record v.state { last_success = start } } in
      (
        called u (store_log_state (snapshot u)),
        rw (above, run, willing.stored (snapshot u)) refl,
        ((sths, here, alias, by), refl, (v.calls, refl)),
      )

  module _ (answers : Answers) (log : ℕ → GetEntriesItem) (log_size : ℕ)
      (quiet : (look : ℕ) → answers.stops look ≡ false)
      (honest : (first last : ℕ) (entries : List GetEntriesItem)
        → answers.fetch first last ≡ ok entries
        → entries ≡ range log first (length entries))
      (available : (first last : ℕ)
        → first ≤ last
        → last < first + max_get_entries_size
        → last < log_size
        → (entries : List GetEntriesItem) × (get_raw_entries first last (answers.fetch first last)
            ≡ ok entries)) where
    download_and_follow_succeeds :
        (w : World) (n : ℕ) (tree : CollapsedTree) (sth : SignedTreeHead)
        → download_tree w ≡ empty_collapsed_tree
        → sth.tree_size ≡ suc n
        → sth.tree_size ≤ log_size
        → sth.tree_size < 2 ^ 64
        → add_all env.sha256 empty_collapsed_tree (leaf_hashes env.sha256 (range log 0 (suc n)))
          ≡ ok tree
        → bytes_equal sth.sha256_root_hash (calculate_root env.sha256 tree) ≡ true
        → (v : World) × (download_and_follow env answers start (sth ∷ []) w ≡ returns v false)
          × IsSuccess tree sth v
    unfolding download_and_follow range
    download_and_follow_succeeds w n tree sth empty size held bound adds matches =
        let t = subst (λ t. IsTreeOf env.sha256 t []) (sym empty) (IsTreeOf-empty env.sha256) in
        let begins = ap (λ t. t.size) empty in
        let counted = range-length log 0 (suc n) in
        let adds' =
          ap (λ t. add_all env.sha256 t (leaf_hashes env.sha256 (range log 0 (suc n)))) empty
          ∙ adds in
        let (v, run, success) =
          follow_succeeds w (range log 1 n) (log 0) [] tree sth t (ap (λ t. t.offset) empty)
            (omega arith) bound adds' matches in
        let whole : sth.tree_size - 0 ≡ suc n = omega arith in
        let delivered =
          download_entries_delivers answers.stops quiet log log_size answers.fetch honest available
            (sth.tree_size - 0) 0 sth.tree_size 0 (omega arith) (omega arith) held bound in
        (v, rw (begins, delivered, whole) run, success)

    -- The first run of `monitor_log` on a new log, without `StartAtEnd`, when the context is
    -- never done, the state provider and the processing of entries answer without an error, the
    -- log gives its latest STH, every list of entries that it answers is made of its entries from
    -- the start of the asked range on, in order, its answer to every range of at most 1000
    -- entries that it has is such a list with at least one entry and none behind the range, one
    -- STH of a size above 0 and below 2 ^ 64 that is no more than the size of the log is waiting,
    -- and its root hash is the Merkle Tree Hash of the log's entries up to its size: the run
    -- returns no error, and it ends with storing a state whose download position is the tree of
    -- all these entries, with the same pointer as the verified position, this STH as the verified
    -- one, and the time of the start as the last success. The log may refuse ranges that it does
    -- not have.
    pub monitor_log_succeeds :
        (w : World) (latest sth : SignedTreeHead)
        → answers.prepares ≡ true
        → answers.latest_sth ≡ ok latest
        → ((s : SignedTreeHead) → answers.stores_sth s ≡ true)
        → answers.loads_log_state ≡ some none
        → answers.start_at_end ≡ false
        → answers.loads_sths ≡ some (sth ∷ [])
        → 0 < sth.tree_size
        → sth.tree_size ≤ log_size
        → sth.tree_size < 2 ^ 64
        → TreeHash env.sha256
            (leaf_hashes env.sha256 (range log 0 sth.tree_size))
            sth.sha256_root_hash
        → (tree : CollapsedTree) × (v : World) × (monitor_log env answers start w ≡ returns v false)
          × (tree.size ≡ sth.tree_size)
          × (calculate_root env.sha256 tree ≡ sth.sha256_root_hash)
          × IsSuccess tree sth v
    unfolding monitor_log store download_tree
    monitor_log_succeeds w latest sth prepared got stored new from_start loaded pos held bound
          root =
        let n = sth.tree_size - 1 in
        let size : sth.tree_size ≡ suc n = omega arith in
        let hashes = leaf_hashes env.sha256 (range log 0 (suc n)) in
        let count = leaf_hashes-length (range log 0 (suc n)) ∙ range-length log 0 (suc n) in
        let (tree, adds, tree_size, th) = add_all-calculate_root env.sha256 hashes (omega arith) in
        let same : calculate_root env.sha256 tree ≡ sth.sha256_root_hash =
          TreeHash-unique env.sha256 th root
            (ap (λ m. leaf_hashes env.sha256 (range log 0 m)) (sym size)) in
        let own = record latest { log_id = answers.log_id } in
        let u = with_state (from_nothing start) (called (called w prepare_log) (store_sth own)) in
        let (v, run, success) =
          download_and_follow_succeeds (called u (store_log_state (snapshot u))) n tree sth refl
            size held bound adds ((bytes_equal_iff _ _).1 (sym same)) in
        (
          tree,
          v,
          simp (prepared, got, stored own, new, from_start, willing.stored (snapshot u), loaded)
              run,
          tree_size ∙ count ∙ sym size,
          same,
          success,
        )
