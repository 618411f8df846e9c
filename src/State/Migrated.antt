-- ===== src/State/Migrated.antt =====
-- The move of a log's files from version 1 of the state directory.
use certspotter.Prelude.{ℕ, ◌≡◌, ◌≢◌, sym, ◌∙◌, ◌⊎◌, inl, inr, Bytes, ok, some}
use certspotter.Merkletree.Collapsed.{CollapsedTree}
use certspotter.Ct.Types.{SignedTreeHead}
use certspotter.Monitor.Run.{SavedState}
use certspotter.State.Files.{Os, IsLawful, temp_name, Trail, call, then_trail}
use certspotter.State.Throughout.{
  Throughout, IsSafe, then_trail-Throughout, write_file-Throughout, write_file-read,
}
use certspotter.State.LogFiles.{
  state_json, sth_json, tree_json, Json, load_log_state, store_log_state, migrated_state,
  write_and_remove, migrate_log_state_dir_v1,
}
use certspotter.State.Saved.{map-All, IsReadBack, contents, load_log_state-read, store_log_state-eq}

-- The paths of the files are different, that of the temporary file included.
pub record AreApart (os : Os) (suffix dir : Bytes) : Type 0 where
  pub sth_state : os.join dir sth_json ≢ os.join dir state_json
  pub tree_state : os.join dir tree_json ≢ os.join dir state_json
  pub sth_temp : os.join dir sth_json ≢ temp_name (os.join dir state_json) suffix
  pub tree_temp : os.join dir tree_json ≢ temp_name (os.join dir state_json) suffix

module _ (os : Os) (lawful : IsLawful os) (states : Json SavedState) (sths : Json SignedTreeHead)
    (trees : Json CollapsedTree) (suffix dir : Bytes) (now : ℕ) (apart : AreApart os suffix dir)
    (sth_data tree_data : Bytes) (sth : SignedTreeHead) (tree : CollapsedTree)
    (read_back : IsReadBack states
      (migrated_state os states sths trees suffix dir now sth tree)) where
  abbrev pub new_state : SavedState
  new_state = migrated_state os states sths trees suffix dir now sth tree

  -- Both old files are there, or the new one.
  abbrev pub HasState : os.Disk → Type 0
  HasState d =
      ((os.read_file (os.join dir sth_json) d ≡ ok sth_data)
        × (os.read_file (os.join dir tree_json) d ≡ ok tree_data))
      ⊎ (load_log_state os states dir d ≡ ok (some new_state))

  abbrev HasNew : os.Disk → Type 0
  HasNew d =
      os.read_file (os.join dir state_json) d
      ≡ ok (contents os lawful states suffix dir new_state read_back)

  HasNew-HasState : (d : os.Disk) → HasNew d → HasState d
  HasNew-HasState d new =
      inr (load_log_state-read os lawful states suffix dir new_state read_back d new)

  removed-HasNew :
      (p : Bytes) (d : os.Disk) → p ≢ os.join dir state_json → HasNew d → HasNew (os.remove p d).0
  removed-HasNew p d n new = lawful.remove-other p _ d (λ e. n (sym e)) ∙ new

  write_and_remove-Throughout :
      (disk : os.Disk)
      → os.read_file (os.join dir sth_json) disk ≡ ok sth_data
      → os.read_file (os.join dir tree_json) disk ≡ ok tree_data
      → Throughout os HasState (write_and_remove os states sths trees suffix dir now new_state disk)
  unfolding write_and_remove
  write_and_remove-Throughout disk sth_there tree_there =
      let path = os.join dir state_json in
      let file = contents os lawful states suffix dir new_state read_back in
      let eq = store_log_state-eq os lawful states suffix dir new_state read_back disk in
      let (p, ps) = write_file-Throughout os lawful suffix path file disk in
      then_trail-Throughout os HasState (store_log_state os states suffix dir new_state disk) _
        (rw eq (kept _ p, map-All _ _ kept _ ps))
        (λ stored.
          let new : HasNew (Trail.disk (store_log_state os states suffix dir new_state disk)) =
            rw eq (write_file-read os lawful suffix path file disk (rw eq at stored)) in
          removals _ new)
    where
      kept :
          (d : os.Disk)
          → IsSafe os lawful suffix
              (os.join dir state_json)
              (contents os lawful states suffix dir new_state read_back)
              disk
              d
          → HasState d
      kept d (inl old, others) = inl (
        others _ apart.sth_state apart.sth_temp ∙ sth_there,
        others _ apart.tree_state apart.tree_temp ∙ tree_there,
      )
      kept d (inr new, others) = HasNew-HasState d new

      removals :
          (d : os.Disk)
          → HasNew d
          → Throughout os HasState (
              then_trail os
                (call os (os.remove (os.join dir sth_json) d))
                (λ removed. call os (os.remove (os.join dir tree_json) removed)))
      removals d new =
          let gone = removed-HasNew (os.join dir sth_json) d apart.sth_state new in
          then_trail-Throughout os HasState (call os (os.remove (os.join dir sth_json) d)) _
            (HasNew-HasState _ gone, tt)
            (λ _. (
              HasNew-HasState _ (removed-HasNew (os.join dir tree_json) _ apart.tree_state gone),
              tt,
            ))

  -- However the move of a log's files from version 1 is interrupted, nothing is lost: the STH and the
  -- tree of version 1 can both be read as they were, or `load_log_state` gives the state made of them.
  -- Both files could be read and decoded at the start, the new state is one that the decoder reads
  -- back, and the paths of the files are different.
  pub migrate_log_state_dir_v1-Throughout :
      (disk : os.Disk)
      → os.read_file (os.join dir sth_json) disk ≡ ok sth_data
      → os.read_file (os.join dir tree_json) disk ≡ ok tree_data
      → sths.decode sth_data ≡ some sth
      → trees.decode tree_data ≡ some tree
      → Throughout os HasState (migrate_log_state_dir_v1 os states sths trees suffix dir now disk)
  unfolding migrate_log_state_dir_v1
  migrate_log_state_dir_v1-Throughout disk sth_there tree_there sth_decoded tree_decoded =
      rw (sth_there, tree_there, sth_decoded, tree_decoded)
        (write_and_remove-Throughout disk sth_there tree_there)
