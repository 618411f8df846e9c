-- ===== src/Monitor/Log.antt =====
-- `monitorLog` of monitor/monitor.go as a whole. What the log and the state provider answer is a
-- record of values; a run asks for each of them once, but for the entries.
use certspotter.Prelude.{
  ℕ, zero, suc, ◌-◌, Bool, true, false, not, List, [], ◌∷◌, Bytes, Result, ok, err, panic,
  if◌then◌else◌, Option, none, some,
}
use certspotter.Merkletree.Hash.{Hash}
use certspotter.Merkletree.Collapsed.{CollapsedTree, empty_collapsed_tree}
use certspotter.Ct.Types.{SignedTreeHead}
use certspotter.Ct.Client.{ClientError, GetEntriesItem}
use certspotter.Monitor.Run.{
  SavedState, prepare_log, store_sth, record_error, World, Flow, returns, panics, Environment,
  called, store, then_flow, follow, download_tree, DownloadError, no_error, fatal, other,
}
use certspotter.Monitor.Reconstruct.{ReconstructError, client, reconstruct_tree}
use certspotter.Monitor.Download.{
  Ending, finished, context_done, failed, panicked, out_of_fuel, download_entries,
}

pub record Answers : Type 0 where
  pub start_at_end : Bool
  -- `PrepareLog` and `StoreSTH`, true for no error
  pub prepares : Bool
  pub stores_sth : SignedTreeHead → Bool
  -- `LoadLogState` and `LoadSTHs`; nothing is an error
  pub loads_log_state : Option (Option SavedState)
  pub loads_sths : Option (List SignedTreeHead)
  pub log_id : Bytes
  -- `GetSTH`, and for `reconstructTree` `GetRawEntries` and `GetAuditProof`
  pub latest_sth : Result ClientError SignedTreeHead
  pub last_entry : Result ClientError (List GetEntriesItem)
  pub audit_path : Hash → Result ClientError (List Bytes)
  pub fetch : ℕ → ℕ → Result ClientError (List GetEntriesItem)
  -- Whether `context.Canceled` is behind an error
  pub is_fatal_log_error : ClientError → Bool
  -- Whether a context that is done has `context.Canceled` as its error, not `DeadlineExceeded`
  pub is_canceled : Bool
  pub stops : ℕ → Bool

-- A state that has been read has two trees of its own.
abbrev pub with_state : SavedState → World → World
with_state saved w = record w {
  heap = λ p. elim p [ zero ↦ saved.download_position | suc q ↦ saved.verified_position ];
  state = record {
    download_position = 0;
    verified_position = 1;
    verified_sth = saved.verified_sth;
    last_success = saved.last_success;
  };
}

-- With `StartAtEnd` both positions of a new state are the tree that was reconstructed, by one pointer.
abbrev pub at_end : CollapsedTree → SignedTreeHead → ℕ → World → World
at_end tree sth start w = record w {
  heap = λ p. tree;
  state = record {
    download_position = 0;
    verified_position = 0;
    verified_sth = some sth;
    last_success = start;
  };
}

abbrev pub from_nothing : ℕ → SavedState
from_nothing start = record {
  download_position = empty_collapsed_tree;
  verified_position = empty_collapsed_tree;
  verified_sth = none;
  last_success = start;
}

abbrev pub last_size : ℕ → List SignedTreeHead → ℕ
last_size n [] = n
last_size n (sth ∷ sths) = last_size sth.tree_size sths

module _ (env : Environment) (answers : Answers) (start : ℕ) where
  -- An error of the client: a fatal one is returned, another recorded.
  abbrev pub client_error : ClientError → World → Flow
  client_error e w =
      if answers.is_fatal_log_error e then returns w true else returns (called w record_error) false

  abbrev pub reconstruct_error : ReconstructError → World → Flow
  reconstruct_error (client e) w = client_error e w
  reconstruct_error _ w = returns (called w record_error) false

  abbrev pub download_error : ClientError → DownloadError env
  download_error e = if answers.is_fatal_log_error e then fatal else other

  -- The download and the run over its entries; the download runs beside it, over a channel. A panic
  -- of it ends the program without what is deferred here.
  abbrev pub follow_download : List SignedTreeHead → World → List GetEntriesItem × Ending → Flow
  follow_download sths w (items, finished) = follow env sths items no_error start w
  follow_download sths w (items, context_done) =
      follow env sths items (if answers.is_canceled then fatal else other) start w
  follow_download sths w (items, failed e) = follow env sths items (download_error e) start w
  follow_download sths w (items, panicked) = panics w
  follow_download sths w (items, out_of_fuel) = panics w

  unfoldable pub download_and_follow : List SignedTreeHead → World → Flow
  download_and_follow sths w =
      let begin = (download_tree w).size in
      let end = last_size 0 sths in
      follow_download sths w
        (download_entries answers.stops answers.fetch (end - begin) begin end 0)

  abbrev pub after_load_sths : Option (List SignedTreeHead) → World → Flow
  after_load_sths none w = returns w true
  after_load_sths (some sths) w = download_and_follow sths w

  abbrev pub with_new_state : World → Flow
  with_new_state w = then_flow env (store env w) (after_load_sths answers.loads_sths)

  abbrev pub after_reconstruct :
      SignedTreeHead → World → Result ReconstructError CollapsedTree → Flow
  after_reconstruct sth w (ok tree) = with_new_state (at_end tree sth start w)
  after_reconstruct sth w (err e) = reconstruct_error e w
  after_reconstruct sth w panic = panics w

  abbrev pub after_load_log_state : SignedTreeHead → World → Option (Option SavedState) → Flow
  after_load_log_state sth w none = returns w true
  after_load_log_state sth w (some (some saved)) =
      after_load_sths answers.loads_sths (with_state saved w)
  after_load_log_state sth w (some none) =
      if answers.start_at_end
      then after_reconstruct sth w
          (reconstruct_tree env.sha256 sth answers.last_entry answers.audit_path)
      else with_new_state (with_state (from_nothing start) w)

  abbrev pub after_get_sth : World → Result ClientError SignedTreeHead → Flow
  after_get_sth w (err e) = client_error e w
  after_get_sth w panic = panics w
  after_get_sth w (ok sth) =
      let latest_sth = record sth { log_id = answers.log_id } in
      let v = called w (store_sth latest_sth) in
      if not (answers.stores_sth latest_sth)
      then returns v true
      else after_load_log_state latest_sth v answers.loads_log_state

  -- The run begins without a state and without calls.
  unfoldable pub monitor_log : World → Flow
  monitor_log w =
      let v = called w prepare_log in
      if not answers.prepares then returns v true else after_get_sth v answers.latest_sth
