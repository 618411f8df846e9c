-- ===== src/Monitor/Tests.antt =====
-- The theorems on a rollback at a log of one entry.
use certspotter.Prelude.{
  ℕ, zero, suc, ◌≡◌, ◌≢◌, refl, Bool, true, false, [], ◌∷◌, bytes_equal, ok, none, arith,
}
use certspotter.Merkletree.Bits.{ones_count}
use certspotter.Merkletree.Hash.{hash_leaf}
use certspotter.Merkletree.Collapsed.{
  CollapsedTree, empty_collapsed_tree, add, collapse, collapse_loop, calculate_num_nodes,
  calculate_root, root_loop,
}
use certspotter.Ct.Types.{SignedTreeHead, zero_hash}
use certspotter.Ct.Client.{GetEntriesItem}
use certspotter.Monitor.Run.{
  World, Environment, returns, store_log_state, record_error, snapshot, download_tree,
  process_entry,
}
use certspotter.Monitor.Reconstruct.{reconstruct_tree, reconstruct_tree-root, rest_of_tree}
use certspotter.Prelude.{
  List, Result, length, ◌≤◌, ◌<◌, ◌+◌, ◌-◌, ◌%◌, ◌^◌, ltb, some, err, if◌then◌else◌, Bool-cases,
  inl, inr,
}
use certspotter.Merkletree.Perfect.{TreeHash}
use certspotter.Ct.Client.{ClientError, fetch_failed, get_raw_entries}
use certspotter.Monitor.Download.{max_get_entries_size, download_entries}
use certspotter.Monitor.Delivered.{range, IsRange, download_entries-IsRange}
use certspotter.Monitor.Log.{Answers, monitor_log}
use certspotter.Monitor.Reach.{leaf_hashes, IsWilling}
use certspotter.Monitor.Success.{IsSuccess, monitor_log_succeeds}
use certspotter.Monitor.Rollback.{process_entry-mismatch_aliased, process_entry-mismatch_distinct}

abbrev willing : Environment
willing = record {
  sha256 = λ x. x;
  stores = λ s. true;
  removes = λ s. true;
  processes = λ i item. true;
}

abbrev entry : GetEntriesItem
entry = record { leaf_input = 7 ∷ []; extra_data = [] }

abbrev head : SignedTreeHead
head = record {
  version = 0;
  tree_size = 1;
  timestamp = 0;
  sha256_root_hash = zero_hash;
  tree_head_signature = record { hash_algorithm = 4; signature_algorithm = 1; signature = [] };
  log_id = zero_hash;
}

abbrev started : ℕ → World
started verified = record {
  heap = λ p. empty_collapsed_tree;
  state = record {
    download_position = 0;
    verified_position = verified;
    verified_sth = none;
    last_success = 0;
  };
  sths = head ∷ [];
  calls = [];
}

abbrev grown_tree : CollapsedTree
grown_tree = record { offset = 0; nodes = (0 ∷ 7 ∷ []) ∷ []; size = 1 }

grows :
    (verified : ℕ)
    → add (λ x. x) (download_tree (started verified)) (hash_leaf (λ x. x) (7 ∷ [])) ≡ ok grown_tree
unfolding add collapse collapse_loop calculate_num_nodes download_tree ones_count hash_leaf
grows verified = refl

differs : bytes_equal zero_hash (calculate_root (λ x. x) grown_tree) ≡ false
unfolding calculate_root root_loop
differs = refl

process_entry-mismatch_aliased_example :
    (v : World) × (e : Bool) × (process_entry willing (started 0) entry ≡ returns v e)
    × (v.calls ≡ store_log_state (snapshot v) ∷ record_error ∷ [])
    × ((snapshot v).download_position ≡ grown_tree)
    × ((snapshot v).verified_position ≡ grown_tree)
process_entry-mismatch_aliased_example =
    process_entry-mismatch_aliased willing (started 0) entry grown_tree head [] refl refl refl
      (grows 0) refl differs

apart : zero ≢ suc zero
apart e = omega (arith, e)

process_entry-mismatch_distinct_example :
    (v : World) × (e : Bool) × (process_entry willing (started 1) entry ≡ returns v e)
    × (v.calls ≡ store_log_state (snapshot v) ∷ record_error ∷ [])
    × ((snapshot v).download_position ≡ empty_collapsed_tree)
    × ((snapshot v).verified_position ≡ empty_collapsed_tree)
process_entry-mismatch_distinct_example =
    process_entry-mismatch_distinct willing (started 1) entry grown_tree head [] apart refl refl
      (grows 1) refl differs

abbrev grown_head : SignedTreeHead
grown_head = record head { sha256_root_hash = 0 ∷ 7 ∷ [] }

reconstructed : reconstruct_tree (λ x. x) grown_head (ok (entry ∷ [])) (λ h. ok []) ≡ ok grown_tree
unfolding reconstruct_tree rest_of_tree hash_leaf add collapse collapse_loop calculate_num_nodes
    ones_count calculate_root root_loop
reconstructed = refl

reconstruct_tree-root_example : calculate_root (λ x. x) grown_tree ≡ 0 ∷ 7 ∷ []
reconstruct_tree-root_example =
    reconstruct_tree-root (λ x. x) grown_head (ok (entry ∷ [])) (λ h. ok []) grown_tree
      (omega arith) reconstructed

-- A log whose entries are all the same, and that gives one entry to each request
abbrev same_entry : ℕ → GetEntriesItem
same_entry i = entry

abbrev one_entry : ℕ → ℕ → Result ClientError (List GetEntriesItem)
one_entry first last = ok (range same_entry first 1)

one_entry-range :
    (first last : ℕ) (entries : List GetEntriesItem)
    → one_entry first last ≡ ok entries
    → entries ≡ range same_entry first (length entries)
unfolding range
one_entry-range first last entries e =
    let same : entries ≡ range same_entry first 1 = cc in rw same refl

download_entries-IsRange_example :
    IsRange same_entry
      (λ look. false)
      one_entry
      one_entry-range
      3
      8
      (download_entries (λ look. false) one_entry 5 3 8 0).0
download_entries-IsRange_example =
    download_entries-IsRange same_entry (λ look. false) one_entry one_entry-range 5 3 8 0
      (omega arith) (omega arith)

-- A log of one entry, which refuses every range from behind it
abbrev short_log : ℕ → ℕ → Result ClientError (List GetEntriesItem)
short_log first last = if ltb first 1 then one_entry first last else err fetch_failed

short_log-range :
    (first last : ℕ) (entries : List GetEntriesItem)
    → short_log first last ≡ ok entries
    → entries ≡ range same_entry first (length entries)
short_log-range first last entries e = elim (Bool-cases (ltb first 1)) [
  | inl inside ↦ one_entry-range first last entries (rw inside at e)
  | inr behind ↦ cc (rw behind at e)
]

short_log-answers :
    (first last : ℕ)
    → first ≤ last
    → last < first + max_get_entries_size
    → last < 1
    → (entries : List GetEntriesItem) × (get_raw_entries first last (short_log first last)
        ≡ ok entries)
unfolding get_raw_entries range
short_log-answers first last low high inside =
    let in_range : ltb last first ≡ false = ground arith in
    let some_left : ltb first 1 ≡ true = ground arith in
    let few : ltb ((last - first + 1) % 2 ^ 64) 1 ≡ false = ground arith in
    (entry ∷ [], rw (some_left, in_range, few) refl)

-- The STH of the first entry
abbrev matching_head : SignedTreeHead
matching_head = record head { sha256_root_hash = 0 ∷ 7 ∷ [] }

abbrev new_log : Answers
new_log = record {
  start_at_end = false;
  prepares = true;
  stores_sth = λ sth. true;
  loads_log_state = some none;
  loads_sths = some (matching_head ∷ []);
  log_id = [];
  latest_sth = ok matching_head;
  last_entry = ok [];
  audit_path = λ h. ok [];
  fetch = short_log;
  is_fatal_log_error = λ e. false;
  is_canceled = true;
  stops = λ look. false;
}

willing-IsWilling : IsWilling willing
willing-IsWilling = record { stored = λ s. refl; removed = λ sth. refl; processed = λ i item. refl }

matches_first :
    TreeHash (λ x. x) (leaf_hashes (λ x. x) (range same_entry 0 1)) matching_head.sha256_root_hash
unfolding range hash_leaf
matches_first = TreeHash.leaf (0 ∷ 7 ∷ [])

monitor_log_succeeds_example :
    (tree : CollapsedTree) × (v : World) × (monitor_log willing new_log 5 (started 0)
      ≡ returns v false)
    × (tree.size ≡ 1)
    × (calculate_root (λ x. x) tree ≡ 0 ∷ 7 ∷ [])
    × IsSuccess willing willing-IsWilling 5 tree matching_head v
monitor_log_succeeds_example =
    monitor_log_succeeds willing willing-IsWilling 5 new_log same_entry 1 (λ look. refl)
      short_log-range short_log-answers (started 0) matching_head matching_head refl refl
      (λ sth. refl) refl refl refl (omega arith) (omega arith) (omega arith) matches_first
