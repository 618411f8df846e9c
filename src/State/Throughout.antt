-- ===== src/State/Throughout.antt =====
-- `writeFile` replaces a file at once: interrupted anywhere, it leaves the old file or the new one.
use certspotter.Prelude.{
  ◌≡◌, ◌≢◌, refl, ap, ◌∙◌, ◌⊎◌, inl, inr, List, [], ◌∷◌, ◌++◌, All, Bytes, ok, Option, none, some,
  length, length-append, arith,
}
use certspotter.State.Files.{
  OsError, Os, IsLawful, temp_name, Trail, call, behind, unless_error, then_trail, after_rename,
  write_file,
}

append-All {ℓ κ} :
    {A : Type ℓ} (P : A → Type κ) (xs ys : List A) → All P xs → All P ys → All P (xs ++ ys)
append-All P [] ys p q = q
append-All P (x ∷ xs) ys (h, p) q = (h, append-All P xs ys p q)

pub longer_name : (filename suffix : Bytes) → filename ≢ temp_name filename suffix
longer_name filename suffix e =
    let n = ap length e in
    let m = length-append filename (b'.' ∷ b't' ∷ b'm' ∷ b'p' ∷ b'.' ∷ suffix) in omega arith

module _ (os : Os) where
  -- What holds on every disk of a run
  abbrev pub Throughout {κ} : (os.Disk → Type κ) → Trail os → Type κ
  Throughout P t = P t.disk × All P t.passed

  pub behind-Throughout {κ} :
      (P : os.Disk → Type κ) (first second : Trail os)
      → Throughout P first
      → Throughout P second
      → Throughout P (behind os first second)
  behind-Throughout P first second (p, ps) (q, qs) =
      (q, append-All P first.passed (first.disk ∷ second.passed) ps (p, qs))

  pub then_trail-Throughout {κ} :
      (P : os.Disk → Type κ) (first : Trail os) (next : os.Disk → Trail os)
      → Throughout P first
      → (first.error ≡ none → Throughout P (next first.disk))
      → Throughout P (then_trail os first next)
  then_trail-Throughout P first next p q = by_error first.error refl
    where
      by_error :
          (e : Option OsError) → first.error ≡ e → Throughout P (unless_error os e first next)
      by_error none is = behind-Throughout P first (next first.disk) p (q is)
      by_error (some e) is = p

  module _ (lawful : IsLawful os) (suffix filename contents : Bytes) (disk : os.Disk) where
    -- The file is as it was, or as it is to be.
    abbrev pub IsOldOrNew : os.Disk → Type 0
    IsOldOrNew d =
        (os.read_file filename d ≡ os.read_file filename disk)
        ⊎ (os.read_file filename d ≡ ok contents)

    abbrev temp : Bytes
    temp = temp_name filename suffix

    abbrev written : os.Disk × Option OsError
    written = os.write_file temp contents disk

    abbrev renamed : os.Disk × Option OsError
    renamed = os.rename temp filename written.0

    -- All files but this one and the temporary one are as they were.
    abbrev pub OthersSame : os.Disk → Type 0
    OthersSame d =
        (q : Bytes)
        → q ≢ filename
        → q ≢ temp_name filename suffix
        → os.read_file q d ≡ os.read_file q disk

    abbrev pub IsSafe : os.Disk → Type 0
    IsSafe d = IsOldOrNew d × OthersSame d

    written-IsSafe : IsSafe written.0
    written-IsSafe = (
      inl (lawful.write_file-other temp filename contents disk (longer_name filename suffix)),
      λ q n m. lawful.write_file-other temp q contents disk m,
    )

    renamed-OthersSame : OthersSame renamed.0
    renamed-OthersSame q n m =
        lawful.rename-other temp filename q written.0 m n
        ∙ lawful.write_file-other temp q contents disk m

    after_rename-Throughout :
        written.1 ≡ none
        → (e : Option OsError) → renamed.1 ≡ e
        → Throughout IsSafe (after_rename os temp e (call os renamed))
    after_rename-Throughout ok_written none is = (
      (
        inr (
            lawful.read_file-rename temp filename written.0 is
            ∙ lawful.read_file-write_file temp contents disk ok_written),
        renamed-OthersSame,
      ),
      tt,
    )
    after_rename-Throughout ok_written (some e) is =
        let kept =
          lawful.rename-failed temp filename written.0 e is
          ∙ lawful.write_file-other temp filename contents disk (longer_name filename suffix) in
        (
          (
            inl (lawful.remove-other temp filename renamed.0 (longer_name filename suffix) ∙ kept),
            λ q n m. lawful.remove-other temp q renamed.0 m ∙ renamed-OthersSame q n m,
          ),
          ((inl kept, renamed-OthersSame), tt),
        )

    -- Interrupted behind any of its calls, `write_file` leaves the file as it was or with all of its
    -- new contents, and it leaves alone every file that is neither this one nor its temporary one.
    pub write_file-Throughout : Throughout IsSafe (write_file os suffix filename contents disk)
    unfolding write_file
    write_file-Throughout =
        then_trail-Throughout IsSafe (call os written) _ (written-IsSafe, tt)
          (λ ok_written. after_rename-Throughout ok_written renamed.1 refl)

    after_rename-read :
        written.1 ≡ none
        → (e : Option OsError) → renamed.1 ≡ e
        → Trail.error (after_rename os temp e (call os renamed)) ≡ none
        → os.read_file filename (Trail.disk (after_rename os temp e (call os renamed)))
          ≡ ok contents
    after_rename-read ok_written none is h =
        lawful.read_file-rename temp filename written.0 is
        ∙ lawful.read_file-write_file temp contents disk ok_written
    after_rename-read ok_written (some e) is h = cc

    -- When `write_file` returns no error, the file has its new contents.
    pub write_file-read :
        Trail.error (write_file os suffix filename contents disk) ≡ none
        → os.read_file filename (Trail.disk (write_file os suffix filename contents disk))
          ≡ ok contents
    unfolding write_file
    write_file-read = by_error written.1 refl
      where
        by_error :
            (e : Option OsError)
            → written.1 ≡ e
            → Trail.error (
                unless_error os e (call os written) (λ d.
                  after_rename os temp
                    (os.rename temp filename d).1
                    (call os (os.rename temp filename d))))
              ≡ none
            → os.read_file filename (
                Trail.disk (
                  unless_error os e (call os written) (λ d.
                    after_rename os temp
                      (os.rename temp filename d).1
                      (call os (os.rename temp filename d)))))
              ≡ ok contents
        by_error none is h = after_rename-read is renamed.1 refl h
        by_error (some e) is h = cc
