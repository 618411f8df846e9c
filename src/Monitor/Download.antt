-- ===== src/Monitor/Download.antt =====
-- `downloadEntries` of monitor/monitor.go. What the log answers to a range is a function of the
-- range. `stops` says for each look at the context, counted from the start, whether it is done; a
-- `select` is a look too. The entries sent on the channel are the value.
use certspotter.Prelude.{
  ℕ, zero, suc, ◌+◌, ◌-◌, ◌%◌, ◌^◌, ◌<◌, ◌≤◌, ◌≡◌, arith, Bool, true, false, not, ◌&&◌, List, [],
  ◌∷◌, ◌++◌, Result, ok, err, panic, ltb, if◌then◌else◌, length,
}
use certspotter.Ct.Client.{ClientError, GetEntriesItem, get_raw_entries, get_raw_entries-bounds}

abbrev pub max_get_entries_size : ℕ
max_get_entries_size = 1000

pub data Ending : Type 0 where
  finished context_done : Ending
  failed : ClientError → Ending
  panicked : Ending
  -- The fuel ran out; no run with enough of it ends so.
  out_of_fuel : Ending

-- `size := end - begin`, and no more than the maximum
unfoldable pub batch_size : ℕ → ℕ → ℕ
batch_size begin end =
    if ltb max_get_entries_size (end - begin) then max_get_entries_size else end - begin

module _ (stops : ℕ → Bool) where
  -- The loop over the entries of one answer: what is sent, the number of looks, and whether all of
  -- them were sent
  unfoldable pub send_entries : List GetEntriesItem → ℕ → List GetEntriesItem × ℕ × Bool
  send_entries [] look = ([], look, true)
  send_entries (entry ∷ entries) look =
      let rest = send_entries entries (look + 2) in
      if stops look
      then ([], look + 1, false)
      else if stops (look + 1)
      then ([], look + 2, false)
      else (entry ∷ rest.0, rest.1, rest.2)

  -- `ctx.Err()` at the end: nothing, or the error of a context that is done
  abbrev pub context_ending : ℕ → Ending
  context_ending look = if stops look then context_done else finished

  abbrev pub in_front :
      List GetEntriesItem → List GetEntriesItem × Ending → List GetEntriesItem × Ending
  in_front sent (later, ending) = (sent ++ later, ending)

  abbrev pub after_fetch :
      Result ClientError (List GetEntriesItem)
      → (List GetEntriesItem → List GetEntriesItem × Ending)
      → List GetEntriesItem × Ending
  after_fetch (ok entries) next = next entries
  after_fetch (err e) next = ([], failed e)
  after_fetch panic next = ([], panicked)

  module _ (fetch : ℕ → ℕ → Result ClientError (List GetEntriesItem)) where
    -- `GetRawEntries` on the next range
    abbrev pub next_entries : ℕ → ℕ → Result ClientError (List GetEntriesItem)
    next_entries begin end =
        let last = (begin + batch_size begin end - 1) % 2 ^ 64 in
        get_raw_entries begin last (fetch begin last)

    unfoldable pub download_entries : ℕ → ℕ → ℕ → ℕ → List GetEntriesItem × Ending
    download_entries zero begin end look =
        if ltb begin end && not (stops look)
        then ([], out_of_fuel)
        else if ltb begin end
        then ([], context_ending (look + 1))
        else ([], context_ending look)
    download_entries (suc fuel) begin end look =
        if ltb begin end && not (stops look)
        then after_fetch (next_entries begin end) (λ entries.
          let sent = send_entries entries (look + 1) in
          if sent.2
          then in_front sent.0
              (download_entries fuel ((begin + length entries) % 2 ^ 64) end sent.1)
          else (sent.0, context_done))
        else if ltb begin end
        then ([], context_ending (look + 1))
        else ([], context_ending look)

    -- An answer that `GetRawEntries` accepts has an entry, and does not go past the end.
    pub next_entries-bounds :
        (begin end : ℕ) (entries : List GetEntriesItem)
        → begin < end
        → end < 2 ^ 64
        → next_entries begin end ≡ ok entries
        → (fetch begin ((begin + batch_size begin end - 1) % 2 ^ 64) ≡ ok entries)
          × (0 < length entries)
          × (begin + length entries ≤ end)
    unfolding batch_size
    next_entries-bounds begin end entries h bound e =
        let (fetched, _, some_entries, few) =
          get_raw_entries-bounds begin ((begin + batch_size begin end - 1) % 2 ^ 64) _ entries e in
        (fetched, some_entries, grind arith)
