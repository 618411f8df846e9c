-- ===== src/State/Tests.antt =====
-- The theorems on the files of a log in memory.
use certspotter.Prelude.{
  ◌≡◌, ◌≢◌, refl, false, [], ◌∷◌, ◌++◌, Bytes, bytes_equal, bytes_equal_iff, ok, none, some,
}
use certspotter.Merkletree.Collapsed.{CollapsedTree, empty_collapsed_tree}
use certspotter.Ct.Types.{SignedTreeHead, zero_hash}
use certspotter.Monitor.Run.{SavedState}
use certspotter.State.Files.{Trail, write_file, write_json_file}
use certspotter.State.Throughout.{Throughout, IsSafe, write_file-Throughout}
use certspotter.State.LogFiles.{
  Json, sth_json, tree_json, load_log_state, store_log_state, migrate_log_state_dir_v1,
}
use certspotter.State.Saved.{load_log_state-store_log_state}
use certspotter.State.Migrated.{AreApart, HasState, migrate_log_state_dir_v1-Throughout}
use certspotter.State.Memory.{Files, put, memory, memory-IsLawful}

abbrev log_dir : Bytes
log_dir = b'l' ∷ []

abbrev suffix : Bytes
suffix = b'7' ∷ []

abbrev old_sth : SignedTreeHead
old_sth = record {
  version = 0;
  tree_size = 0;
  timestamp = 1;
  sha256_root_hash = zero_hash;
  tree_head_signature = record { hash_algorithm = 4; signature_algorithm = 1; signature = [] };
  log_id = zero_hash;
}

abbrev new_state : SavedState
new_state = record {
  download_position = empty_collapsed_tree;
  verified_position = empty_collapsed_tree;
  verified_sth = some old_sth;
  last_success = 9;
}

-- Each of the three codecs knows one value.
abbrev states : Json SavedState
states = record { encode = λ state. some (b's' ∷ []); decode = λ b. some new_state }

abbrev sths : Json SignedTreeHead
sths = record { encode = λ sth. some (b'h' ∷ []); decode = λ b. some old_sth }

abbrev trees : Json CollapsedTree
trees = record { encode = λ tree. some (b't' ∷ []); decode = λ b. some empty_collapsed_tree }

-- The files of version 1
abbrev old_files : Files
old_files =
    put (log_dir ++ (b'/' ∷ sth_json)) (b'h' ∷ [])
      (put (log_dir ++ (b'/' ∷ tree_json)) (b't' ∷ []) (λ p. none))

write_file-Throughout_example :
    Throughout memory
      (IsSafe memory memory-IsLawful suffix log_dir (b'x' ∷ []) old_files)
      (write_file memory suffix log_dir (b'x' ∷ []) old_files)
write_file-Throughout_example =
    write_file-Throughout memory memory-IsLawful suffix log_dir (b'x' ∷ []) old_files

is_stored : Trail.error (store_log_state memory states suffix log_dir new_state old_files) ≡ none
unfolding store_log_state write_json_file write_file
is_stored = refl

load_log_state-store_log_state_example :
    load_log_state memory states log_dir
      (Trail.disk (store_log_state memory states suffix log_dir new_state old_files))
    ≡ ok (some new_state)
load_log_state-store_log_state_example =
    load_log_state-store_log_state memory memory-IsLawful states suffix log_dir new_state
      (b's' ∷ [], refl, refl) old_files is_stored

differ : (p q : Bytes) → bytes_equal p q ≡ false → p ≢ q
differ p q e h = let same = (bytes_equal_iff p q).1 h in cc

apart : AreApart memory suffix log_dir
apart = record {
  sth_state = differ _ _ refl;
  tree_state = differ _ _ refl;
  sth_temp = differ _ _ refl;
  tree_temp = differ _ _ refl;
}

migrate_log_state_dir_v1-Throughout_example :
    Throughout memory
      (HasState memory memory-IsLawful states sths trees suffix log_dir 9 apart
        (b'h' ∷ [])
        (b't' ∷ [])
        old_sth
        empty_collapsed_tree
        (b's' ∷ [], refl, refl))
      (migrate_log_state_dir_v1 memory states sths trees suffix log_dir 9 old_files)
migrate_log_state_dir_v1-Throughout_example =
    migrate_log_state_dir_v1-Throughout memory memory-IsLawful states sths trees suffix log_dir 9
      apart (b'h' ∷ []) (b't' ∷ []) old_sth empty_collapsed_tree (b's' ∷ [], refl, refl) old_files
      refl refl refl refl
