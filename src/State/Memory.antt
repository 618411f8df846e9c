-- ===== src/State/Memory.antt =====
-- A file system in memory that keeps the promises of `State.Files`: each path has contents or none.
use certspotter.Prelude.{
  ◌≡◌, ◌≢◌, refl, sym, ap, ◌∙◌, Bool, true, false, ◌∷◌, ◌++◌, Bytes, bytes_equal, bytes_equal_iff,
  Bool-cases, inl, inr, Result, ok, err, if◌then◌else◌, Option, none, some,
}
use certspotter.State.Files.{OsError, not_exist, Os, IsLawful}

abbrev pub Files : Type 0
Files = Bytes → Option Bytes

abbrev pub put : Bytes → Bytes → Files → Files
put p contents files q = if bytes_equal p q then some contents else files q

abbrev pub delete : Bytes → Files → Files
delete p files q = if bytes_equal p q then none else files q

abbrev pub contents_or_error : Option Bytes → Result OsError Bytes
contents_or_error none = err not_exist
contents_or_error (some contents) = ok contents

abbrev pub is_there : Option Bytes → Bool
is_there none = false
is_there (some contents) = true

abbrev pub renamed : Bytes → Bytes → Option Bytes → Files → Files × Option OsError
renamed p q none files = (files, some not_exist)
renamed p q (some contents) files = (put q contents (delete p files), none)

abbrev pub removed : Bytes → Option Bytes → Files → Files × Option OsError
removed p none files = (files, some not_exist)
removed p (some contents) files = (delete p files, none)

abbrev pub memory : Os
memory = record {
  Disk = Files;
  read_file = λ p files. contents_or_error (files p);
  exists = λ p files. is_there (files p);
  write_file = λ p contents files. (put p contents files, none);
  rename = λ p q files. renamed p q (files p) files;
  remove = λ p files. removed p (files p) files;
  join = λ dir name. dir ++ (b'/' ∷ name);
}

bytes_equal-same : (p : Bytes) → bytes_equal p p ≡ true
bytes_equal-same p = (bytes_equal_iff p p).1 refl

bytes_equal-apart : (p q : Bytes) → q ≢ p → bytes_equal p q ≡ false
bytes_equal-apart p q n = elim (Bool-cases (bytes_equal p q)) [
  | inl e ↦ absurd (n (sym ((bytes_equal_iff p q).0 e)))
  | inr e ↦ e
]

put-same : (p contents : Bytes) (files : Files) → put p contents files p ≡ some contents
put-same p contents files = rw (bytes_equal-same p) refl

put-other : (p q contents : Bytes) (files : Files) → q ≢ p → put p contents files q ≡ files q
put-other p q contents files n = rw (bytes_equal-apart p q n) refl

delete-other : (p q : Bytes) (files : Files) → q ≢ p → delete p files q ≡ files q
delete-other p q files n = rw (bytes_equal-apart p q n) refl

read_renamed :
    (p q : Bytes) (files : Files) (o : Option Bytes)
    → (renamed p q o files).1 ≡ none
    → contents_or_error ((renamed p q o files).0 q) ≡ contents_or_error o
read_renamed p q files none h = cc
read_renamed p q files (some contents) h =
    ap contents_or_error (put-same q contents (delete p files))

renamed-failed :
    (p q : Bytes) (files : Files) (o : Option Bytes) (e : OsError)
    → (renamed p q o files).1 ≡ some e
    → contents_or_error ((renamed p q o files).0 q) ≡ contents_or_error (files q)
renamed-failed p q files none e h = refl
renamed-failed p q files (some contents) e h = cc

renamed-other :
    (p q r : Bytes) (files : Files) (o : Option Bytes)
    → r ≢ p
    → r ≢ q
    → contents_or_error ((renamed p q o files).0 r) ≡ contents_or_error (files r)
renamed-other p q r files none n m = refl
renamed-other p q r files (some contents) n m =
    ap contents_or_error (put-other q r contents (delete p files) m ∙ delete-other p r files n)

removed-other :
    (p q : Bytes) (files : Files) (o : Option Bytes)
    → q ≢ p
    → contents_or_error ((removed p o files).0 q) ≡ contents_or_error (files q)
removed-other p q files none n = refl
removed-other p q files (some contents) n = ap contents_or_error (delete-other p q files n)

pub memory-IsLawful : IsLawful memory
memory-IsLawful = record {
  read_file-write_file = λ p b files h. ap contents_or_error (put-same p b files);
  write_file-other = λ p q b files n. ap contents_or_error (put-other p q b files n);
  read_file-rename = λ p q files h. read_renamed p q files (files p) h;
  rename-failed = λ p q files e h. renamed-failed p q files (files p) e h;
  rename-other = λ p q r files n m. renamed-other p q r files (files p) n m;
  remove-other = λ p q files n. removed-other p q files (files p) n;
}
