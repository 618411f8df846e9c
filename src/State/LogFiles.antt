-- ===== src/State/LogFiles.antt =====
-- The files of one log: its state and its STHs (monitor/fsstate.go, monitor/sthdir.go), the version
-- of the state directory, and the move from the files of version 1 (monitor/statedir.go). The JSON
-- encoder and decoder of each type are parameters. A trail's error is that of the system or, for a
-- file that cannot be decoded or a value that cannot be encoded, `other`.
use certspotter.Prelude.{
  ℕ, zero, suc, ◌/◌, ◌%◌, [], ◌∷◌, ◌++◌, Bytes, Result, ok, err, panic, ◌==◌, if◌then◌else◌, Option,
  none, some,
}
use certspotter.Merkletree.Collapsed.{CollapsedTree}
use certspotter.Ct.Types.{SignedTreeHead}
use certspotter.Monitor.Run.{SavedState}
use certspotter.State.Files.{
  OsError, not_exist, other, Os, Trail, call, no_change, then_trail, write_json_file,
}

-- "state.json", "sth.json", "tree.json"
abbrev pub state_json : Bytes
state_json = b's' ∷ b't' ∷ b'a' ∷ b't' ∷ b'e' ∷ b'.' ∷ b'j' ∷ b's' ∷ b'o' ∷ b'n' ∷ []

abbrev pub sth_json : Bytes
sth_json = b's' ∷ b't' ∷ b'h' ∷ b'.' ∷ b'j' ∷ b's' ∷ b'o' ∷ b'n' ∷ []

abbrev pub tree_json : Bytes
tree_json = b't' ∷ b'r' ∷ b'e' ∷ b'e' ∷ b'.' ∷ b'j' ∷ b's' ∷ b'o' ∷ b'n' ∷ []

-- `json.Marshal` and `json.Unmarshal` at a type
pub record Json (A : Type 0) : Type 0 where
  pub encode : A → Option Bytes
  pub decode : Bytes → Option A

-- The bytes of a number, the least first
unfoldable pub little_endian : ℕ → ℕ → Bytes
little_endian zero n = []
little_endian (suc width) n = n % 256 ∷ little_endian width (n / 256)

-- The formatting of a number, the base64 of URLs, and SHA-256 are parameters.
unfoldable pub sth_filename :
    (ℕ → Bytes) → (Bytes → Bytes) → (Bytes → Bytes) → SignedTreeHead → Result OsError Bytes
sth_filename format base64 sha256 sth =
    let hashed = sha256 (little_endian 8 sth.timestamp ++ sth.sha256_root_hash) in
    if sth.version == 0
    then ok
        (format sth.tree_size ++ (b'-' ∷ base64 hashed) ++ (b'.' ∷ b'j' ∷ b's' ∷ b'o' ∷ b'n' ∷ []))
    else panic

module _ (os : Os) where
  -- `errors.Is(err, fs.ErrNotExist)` is no error.
  abbrev pub unless_not_exist : Option OsError → Option OsError
  unless_not_exist none = none
  unless_not_exist (some not_exist) = none
  unless_not_exist (some e) = some e

  abbrev pub decoded_state : Option SavedState → Result OsError (Option SavedState)
  decoded_state none = err other
  decoded_state (some state) = ok (some state)

  abbrev pub state_of_file :
      Json SavedState → Result OsError Bytes → Result OsError (Option SavedState)
  state_of_file json (ok file_bytes) = decoded_state (json.decode file_bytes)
  state_of_file json (err not_exist) = ok none
  state_of_file json (err e) = err e
  state_of_file json panic = panic

  -- Both take the directory of the log.
  unfoldable pub load_log_state :
      Json SavedState → Bytes → os.Disk → Result OsError (Option SavedState)
  load_log_state json dir disk = state_of_file json (os.read_file (os.join dir state_json) disk)

  unfoldable pub store_log_state : Json SavedState → Bytes → Bytes → SavedState → os.Disk → Trail os
  store_log_state json suffix dir state disk =
      write_json_file os suffix (os.join dir state_json) (json.encode state) disk

  -- By the file's name, which `sthFilename` gives
  unfoldable pub store_sth_in_dir :
      Json SignedTreeHead → Bytes → Bytes → Bytes → SignedTreeHead → os.Disk → Trail os
  store_sth_in_dir json suffix dir filename sth disk =
      let file_path = os.join dir filename in
      if os.exists file_path disk
      then no_change os disk none
      else write_json_file os suffix file_path (json.encode sth) disk

  unfoldable pub remove_sth_from_dir : Bytes → Bytes → os.Disk → Trail os
  remove_sth_from_dir dir filename disk =
      let removed = os.remove (os.join dir filename) disk in
      no_change os removed.0 (unless_not_exist removed.1)

  module _ (states : Json SavedState) (sths : Json SignedTreeHead) (trees : Json CollapsedTree)
      (suffix dir : Bytes) (now : ℕ) where
    abbrev pub migrated_state : SignedTreeHead → CollapsedTree → SavedState
    migrated_state sth tree = record {
      download_position = tree;
      verified_position = tree;
      verified_sth = some sth;
      last_success = now;
    }

    -- The new file is written before the old ones go.
    unfoldable pub write_and_remove : SavedState → os.Disk → Trail os
    write_and_remove state disk =
        then_trail os (store_log_state states suffix dir state disk) (λ stored.
          then_trail os (call os (os.remove (os.join dir sth_json) stored))
            (λ removed. call os (os.remove (os.join dir tree_json) removed)))

    abbrev pub decode_both : Option SignedTreeHead → Option CollapsedTree → os.Disk → Trail os
    decode_both none tree disk = no_change os disk (some other)
    decode_both (some sth) none disk = no_change os disk (some other)
    decode_both (some sth) (some tree) disk = write_and_remove (migrated_state sth tree) disk

    -- A file that does not exist ends the move without an error.
    abbrev pub if_read : Result OsError Bytes → os.Disk → (Bytes → Trail os) → Trail os
    if_read (ok contents) disk next = next contents
    if_read (err e) disk next = no_change os disk (unless_not_exist (some e))
    if_read panic disk next = no_change os disk (some other)

    unfoldable pub migrate_log_state_dir_v1 : os.Disk → Trail os
    migrate_log_state_dir_v1 disk =
        if_read (os.read_file (os.join dir sth_json) disk) disk (λ sth_data.
          if_read (os.read_file (os.join dir tree_json) disk) disk
            (λ tree_data. decode_both (sths.decode sth_data) (trees.decode tree_data) disk))
