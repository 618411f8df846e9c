-- ===== src/Monitor/Run.antt =====
-- `monitorLog` of monitor/monitor.go, from the loaded STHs on; Monitor/Log has what comes before.
-- The positions of a `LogState` are pointers to trees that `Add` changes in place, so the trees stand in a heap. What the
-- `StateProvider` answers and what `processLogEntry` returns are parameters; the calls that change
-- the provider's state are recorded in order, the last one first.
use certspotter.Prelude.{
  ℕ, ◌+◌, ◌^◌, ◌++◌, ◌%◌, Bool, true, false, not, ◌||◌, List, [], ◌∷◌, Bytes, bytes_equal, Result,
  ok, err, panic, ◌==◌, leb, if◌then◌else◌, Option, some,
}
use certspotter.Merkletree.Hash.{Hash, hash_leaf}
use certspotter.Merkletree.Collapsed.{CollapsedTree, TreeError, add, calculate_root}
use certspotter.Ct.Types.{SignedTreeHead}
use certspotter.Ct.Client.{GetEntriesItem}

-- A state as `StoreLogState` writes it: the trees that the pointers lead to.
pub record SavedState : Type 0 where
  pub download_position : CollapsedTree
  pub verified_position : CollapsedTree
  pub verified_sth : Option SignedTreeHead
  pub last_success : ℕ

pub data Call : Type 0 where
  store_log_state : SavedState → Call
  remove_sth : SignedTreeHead → Call
  record_error : Call
  prepare_log : Call
  store_sth : SignedTreeHead → Call

abbrev pub Heap : Type 0
Heap = ℕ → CollapsedTree

abbrev pub update : Heap → ℕ → CollapsedTree → Heap
update heap p tree q = if p == q then tree else heap q

pub record LogState : Type 0 where
  pub download_position : ℕ
  pub verified_position : ℕ
  pub verified_sth : Option SignedTreeHead
  pub last_success : ℕ

pub record World : Type 0 where
  pub heap : Heap
  pub state : LogState
  pub sths : List SignedTreeHead
  pub calls : List Call

-- How a part of the body ends: it goes on, it returns (with or without an error), or it panics.
pub data Flow : Type 0 where
  goes_on : World → Flow
  returns : World → Bool → Flow
  panics : World → Flow

-- What the state provider and the processing of an entry answer: true for no error.
pub record Environment : Type 0 where
  pub sha256 : Bytes → Hash
  pub stores : SavedState → Bool
  pub removes : SignedTreeHead → Bool
  pub processes : ℕ → GetEntriesItem → Bool

unfoldable pub download_tree : World → CollapsedTree
download_tree w = w.heap w.state.download_position

unfoldable pub snapshot : World → SavedState
snapshot w = record {
  download_position = w.heap w.state.download_position;
  verified_position = w.heap w.state.verified_position;
  verified_sth = w.state.verified_sth;
  last_success = w.state.last_success;
}

abbrev pub called : World → Call → World
called w c = record w { calls = c ∷ w.calls }

module _ (env : Environment) where
  -- `StoreLogState`, with an error return if it fails
  unfoldable pub store : World → Flow
  store w =
      let w' = called w (store_log_state (snapshot w)) in
      if env.stores (snapshot w) then goes_on w' else returns w' true

  abbrev pub then_flow : Flow → (World → Flow) → Flow
  then_flow (goes_on w) f = f w
  then_flow (returns w e) f = returns w e
  then_flow (panics w) f = panics w

  -- The STHs that the downloaded entries already cover are removed unseen.
  unfoldable pub drop_covered : List SignedTreeHead → World → Flow
  drop_covered [] w = goes_on (record w { sths = [] })
  drop_covered (sth ∷ sths) w =
      let w' = called w (remove_sth sth) in
      let rest = drop_covered sths w' in
      if leb sth.tree_size (download_tree w).size
      then (if env.removes sth then rest else returns w' true)
      else goes_on (record w { sths = sth ∷ sths })

  -- The root does not match: an error is recorded and the download position set back.
  unfoldable pub roll_back : World → Flow
  roll_back w =
      let w' = called w record_error in
      let w'' = record w' {
        state = record w.state { download_position = w.state.verified_position };
      } in
      then_flow (store w'') (λ v. returns v false)

  unfoldable pub verified : World → SignedTreeHead → World
  verified w sth = record w {
    state = record w.state {
      verified_position = w.state.download_position;
      verified_sth = some sth;
    };
  }

  -- The loop over the STHs of the size that is reached. The world it goes on with holds those left;
  -- the flag says whether the state is to be saved.
  unfoldable pub verify_sths :
      List SignedTreeHead → Hash → World → Bool → (World → Bool → Flow) → Flow
  verify_sths [] root_hash w save next = next (record w { sths = [] }) save
  verify_sths (sth ∷ sths) root_hash w save next =
      let w' = called (verified w sth) (remove_sth sth) in
      let rest = verify_sths sths root_hash w' true next in
      if (download_tree w).size == sth.tree_size
      then (if not (bytes_equal sth.sha256_root_hash root_hash)
          then roll_back w
          else if env.removes sth
          then rest
          else returns w' true)
      else next (record w { sths = sth ∷ sths }) save

  abbrev pub save_if : World → Bool → Flow
  save_if w save = if save then store w else goes_on w

  -- The tree that `collapse` leaves when it panics: it has hashed all nodes to one before it indexes
  -- the slice at -1.
  abbrev pub half_added : CollapsedTree → Hash → CollapsedTree
  half_added tree hash =
      let longer = record tree { nodes = tree.nodes ++ (hash ∷ []) } in
      record tree { nodes = calculate_root env.sha256 longer ∷ []; size = (tree.size + 1) % 2 ^ 64 }

  -- The error of `Add` is not looked at: it leaves the tree as it is.
  abbrev pub after_add : World → Hash → Result TreeError CollapsedTree → Flow
  after_add w hash (ok tree) =
      goes_on (record w { heap = update w.heap w.state.download_position tree })
  after_add w hash (err e) = goes_on w
  after_add w hash panic = panics (record w {
    heap = update w.heap w.state.download_position (half_added (download_tree w) hash);
  })

  -- One round of the loop over the downloaded entries.
  unfoldable pub process_entry : World → GetEntriesItem → Flow
  process_entry w item =
      if env.processes (download_tree w).size item
      then then_flow
          (after_add w (hash_leaf env.sha256 item.leaf_input)
            (add env.sha256 (download_tree w) (hash_leaf env.sha256 item.leaf_input)))
          (λ v.
            verify_sths v.sths (calculate_root env.sha256 (download_tree v)) v
              ((download_tree v).size % 10000 == 0) save_if)
      else returns w true

  unfoldable pub process_entries : List GetEntriesItem → World → Flow
  process_entries [] w = goes_on w
  process_entries (item ∷ items) w = then_flow (process_entry w item) (λ v. process_entries items v)

  -- What happens after the loop, by the error of the download: none, a fatal one, or another.
  pub data DownloadError : Type 0 where
    no_error fatal other : DownloadError

  unfoldable pub finish : DownloadError → ℕ → World → Flow
  finish no_error start w =
      returns (record w { state = record w.state { last_success = start } }) false
  finish fatal start w = returns w true
  finish other start w = returns (called w record_error) false

  -- The deferred `StoreLogState`; its error is returned if there was none. On a panic it runs too,
  -- and then the panic goes on.
  unfoldable pub deferred : Flow → Flow
  deferred (returns w e) =
      let w' = called w (store_log_state (snapshot w)) in
      returns w' (e || not (env.stores (snapshot w)))
  deferred (goes_on w) = goes_on w
  deferred (panics w) = panics (called w (store_log_state (snapshot w)))

  -- From the STHs on: those covered go first, then the deferred store is set up.
  unfoldable pub follow :
      List SignedTreeHead → List GetEntriesItem → DownloadError → ℕ → World → Flow
  follow sths items download_error start w =
      then_flow (drop_covered sths w) (λ v. deferred (by_sths v.sths v))
    where
      by_sths : List SignedTreeHead → World → Flow
      by_sths [] v = finish no_error start v
      by_sths (sth ∷ rest) v =
          then_flow (process_entries items v) (λ u. finish download_error start u)
