-- ===== src/State/Files.antt =====
-- monitor/fileutils.go over the functions of package os. A run is recorded with the disks that it
-- passes through, one behind each call that may change something, so that what an interruption leaves
-- behind can be told.
use certspotter.Prelude.{◌≡◌, ◌≢◌, Bool, List, [], ◌∷◌, ◌++◌, Bytes, Result, ok, Option, none, some}

pub data OsError : Type 0 where
  not_exist exist other : OsError

-- A failed call may leave a changed disk behind; `exists` is for `os.Lstat` without an error.
pub record Os : Type 1 where
  pub Disk : Type 0
  pub read_file : Bytes → Disk → Result OsError Bytes
  pub exists : Bytes → Disk → Bool
  pub write_file : Bytes → Bytes → Disk → Disk × Option OsError
  pub rename : Bytes → Bytes → Disk → Disk × Option OsError
  pub remove : Bytes → Disk → Disk × Option OsError
  -- `filepath.Join`
  pub join : Bytes → Bytes → Bytes

-- What the file system promises: a call leaves other files alone, a write that succeeds is read back,
-- and a rename puts the file in the place of another or leaves that as it was.
pub record IsLawful (os : Os) : Type 0 where
  pub read_file-write_file :
      (p b : Bytes) (disk : os.Disk)
      → (os.write_file p b disk).1 ≡ none
      → os.read_file p (os.write_file p b disk).0 ≡ ok b
  pub write_file-other :
      (p q b : Bytes) (disk : os.Disk)
      → q ≢ p
      → os.read_file q (os.write_file p b disk).0 ≡ os.read_file q disk
  pub read_file-rename :
      (p q : Bytes) (disk : os.Disk)
      → (os.rename p q disk).1 ≡ none
      → os.read_file q (os.rename p q disk).0 ≡ os.read_file p disk
  pub rename-failed :
      (p q : Bytes) (disk : os.Disk) (e : OsError)
      → (os.rename p q disk).1 ≡ some e
      → os.read_file q (os.rename p q disk).0 ≡ os.read_file q disk
  pub rename-other :
      (p q r : Bytes) (disk : os.Disk)
      → r ≢ p
      → r ≢ q
      → os.read_file r (os.rename p q disk).0 ≡ os.read_file r disk
  pub remove-other :
      (p q : Bytes) (disk : os.Disk)
      → q ≢ p
      → os.read_file q (os.remove p disk).0 ≡ os.read_file q disk

-- ".tmp."
abbrev tmp : Bytes
tmp = b'.' ∷ b't' ∷ b'm' ∷ b'p' ∷ b'.' ∷ []

abbrev pub temp_name : Bytes → Bytes → Bytes
temp_name filename suffix = filename ++ (tmp ++ suffix)

module _ (os : Os) where
  -- The disks before the last, the last, and the error
  pub record Trail : Type 0 where
    pub passed : List os.Disk
    pub disk : os.Disk
    pub error : Option OsError

  abbrev pub call : os.Disk × Option OsError → Trail
  call (disk, error) = record { passed = []; disk = disk; error = error }

  abbrev pub no_change : os.Disk → Option OsError → Trail
  no_change disk error = record { passed = []; disk = disk; error = error }

  -- Passes through the disks of both
  abbrev pub behind : Trail → Trail → Trail
  behind first second = record {
    passed = first.passed ++ (first.disk ∷ second.passed);
    disk = second.disk;
    error = second.error;
  }

  abbrev pub unless_error : Option OsError → Trail → (os.Disk → Trail) → Trail
  unless_error none first next = behind first (next first.disk)
  unless_error (some e) first next = first

  -- `next`, unless there was an error
  abbrev pub then_trail : Trail → (os.Disk → Trail) → Trail
  then_trail first next = unless_error first.error first next

  -- A rename that has failed is followed by the removal of the temporary file.
  abbrev pub after_rename : Bytes → Option OsError → Trail → Trail
  after_rename tempname none renamed = renamed
  after_rename tempname (some e) renamed =
      behind renamed (no_change (os.remove tempname renamed.disk).0 (some e))

  -- `writeFile`, by the suffix that `randomFileSuffix` gives
  unfoldable pub write_file : Bytes → Bytes → Bytes → os.Disk → Trail
  write_file suffix filename contents disk =
      let tempname = temp_name filename suffix in
      then_trail (call (os.write_file tempname contents disk)) (λ written.
        let renamed = os.rename tempname filename written in
        after_rename tempname renamed.1 (call renamed))

  -- `writeJSONFile`, by what `json.Marshal` gives
  unfoldable pub write_json_file : Bytes → Bytes → Option Bytes → os.Disk → Trail
  write_json_file suffix filename none disk = no_change disk (some other)
  write_json_file suffix filename (some file_bytes) disk =
      write_file suffix filename (file_bytes ++ (b'\n' ∷ [])) disk
