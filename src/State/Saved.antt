-- ===== src/State/Saved.antt =====
-- What is on disk of a log's state is never lost, however a write or a migration is interrupted.
use certspotter.Prelude.{
  ◌≡◌, refl, ap, ◌⊎◌, inl, inr, List, [], ◌∷◌, ◌++◌, All, Bytes, ok, none, some,
}
use certspotter.Monitor.Run.{SavedState}
use certspotter.State.Files.{Os, IsLawful, Trail, write_file, write_json_file}
use certspotter.State.Throughout.{Throughout, IsSafe, write_file-Throughout, write_file-read}
use certspotter.State.LogFiles.{state_json, Json, state_of_file, load_log_state, store_log_state}

pub map-All {ℓ κ ν} :
    {A : Type ℓ} (P : A → Type κ) (Q : A → Type ν) (f : (a : A) → P a → Q a) (xs : List A)
    → All P xs
    → All Q xs
map-All P Q f [] h = tt
map-All P Q f (x ∷ xs) (h, hs) = (f x h, map-All P Q f xs hs)

-- What was encoded is decoded from the file, a newline behind it.
abbrev pub IsReadBack : Json SavedState → SavedState → Type 0
IsReadBack json state =
    (file_bytes : Bytes) × (json.encode state ≡ some file_bytes)
    × (json.decode (file_bytes ++ (b'\n' ∷ [])) ≡ some state)

module _ (os : Os) (lawful : IsLawful os) (json : Json SavedState) (suffix dir : Bytes)
    (state : SavedState) (read_back : IsReadBack json state) where
  abbrev pub contents : Bytes
  contents = read_back.0 ++ (b'\n' ∷ [])

  pub load_log_state-read :
      (d : os.Disk)
      → os.read_file (os.join dir state_json) d ≡ ok contents
      → load_log_state os json dir d ≡ ok (some state)
  unfolding load_log_state
  load_log_state-read d e = let (_, _, decodes) = read_back in rw (e, decodes) refl

  pub store_log_state-eq :
      (disk : os.Disk)
      → store_log_state os json suffix dir state disk
        ≡ write_file os suffix (os.join dir state_json) contents disk
  unfolding store_log_state write_json_file
  store_log_state-eq disk = let (_, encodes, _) = read_back in rw encodes refl

  -- However `store_log_state` is interrupted, `load_log_state` gives what it gave before or the new
  -- state, if what the encoder has made of the state is decoded to it.
  pub store_log_state-Throughout :
      (disk : os.Disk)
      → Throughout os
          (λ d.
            (load_log_state os json dir d ≡ load_log_state os json dir disk)
            ⊎ (load_log_state os json dir d ≡ ok (some state)))
          (store_log_state os json suffix dir state disk)
  unfolding load_log_state
  store_log_state-Throughout disk =
      let path = os.join dir state_json in
      let (p, ps) = write_file-Throughout os lawful suffix path contents disk in
      rw (store_log_state-eq disk) (kept _ p, map-All _ _ kept _ ps)
    where
      kept :
          (d : os.Disk)
          → IsSafe os lawful suffix (os.join dir state_json) contents disk d
          → (load_log_state os json dir d ≡ load_log_state os json dir disk)
            ⊎ (load_log_state os json dir d ≡ ok (some state))
      kept d (inl old, others) = inl (ap (state_of_file os json) old)
      kept d (inr new, others) = inr (load_log_state-read d new)

  -- For a state that the JSON encoder makes bytes of which the decoder, with a newline behind
  -- them, reads back as this state: when `store_log_state` returns no error, `load_log_state`
  -- gives the state that was stored, on every lawful file system. That the decoder undoes the
  -- encoder on this state is a hypothesis on encoding/json.
  pub load_log_state-store_log_state :
      (disk : os.Disk)
      → Trail.error (store_log_state os json suffix dir state disk) ≡ none
      → load_log_state os json dir (Trail.disk (store_log_state os json suffix dir state disk))
        ≡ ok (some state)
  load_log_state-store_log_state disk h = load_log_state-read _ (
      rw (store_log_state-eq disk) (
        write_file-read os lawful suffix (os.join dir state_json) contents disk
          (rw (store_log_state-eq disk) at h)))
