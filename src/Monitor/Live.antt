-- ===== src/Monitor/Live.antt =====
-- `downloadEntries` gets to the end when the log has the entries and gives them, and the context is
-- not done.
use certspotter.Prelude.{
  ℕ, zero, suc, ◌+◌, ◌-◌, ◌%◌, ◌^◌, ◌<◌, ◌≤◌, ◌≡◌, refl, ap, ◌∙◌, Bool, true, false, List, [], ◌∷◌,
  Result, ok, ltb, Bool-cases, inl, inr, length, length-append, arith,
}
use certspotter.Ct.Client.{ClientError, GetEntriesItem, get_raw_entries}
use certspotter.Monitor.Download.{
  Ending, finished, max_get_entries_size, batch_size, send_entries, in_front, download_entries,
}
use certspotter.Monitor.Delivered.{
  range, send_entries-all, next_entries-ok, download_entries-IsRange,
}

in_order :
    (begin end : ℕ)
    → begin < end
    → end < 2 ^ 64
    → (begin ≤ (begin + batch_size begin end - 1) % 2 ^ 64)
      × ((begin + batch_size begin end - 1) % 2 ^ 64 < begin + max_get_entries_size)
      × ((begin + batch_size begin end - 1) % 2 ^ 64 < end)
unfolding batch_size
in_order begin end h bound = (grind arith, grind arith, grind arith)

module _ (stops : ℕ → Bool) (quiet : (look : ℕ) → stops look ≡ false) where
  sends_all :
      (entries : List GetEntriesItem) (look : ℕ) → (send_entries stops entries look).2 ≡ true
  unfolding send_entries
  sends_all [] look = refl
  sends_all (entry ∷ entries) look =
      rw (quiet look, quiet (look + 1)) (sends_all entries (look + 2))

  module _ (log : ℕ → GetEntriesItem) (log_size : ℕ)
      (fetch : ℕ → ℕ → Result ClientError (List GetEntriesItem))
      (honest : (start last : ℕ) (entries : List GetEntriesItem)
        → fetch start last ≡ ok entries
        → entries ≡ range log start (length entries))
      (answers : (start last : ℕ)
        → start ≤ last
        → last < start + max_get_entries_size
        → last < log_size
        → (entries : List GetEntriesItem) × (get_raw_entries start last (fetch start last)
            ≡ ok entries)) where
    abbrev IsDone : ℕ → ℕ → List GetEntriesItem × Ending → Type 0
    IsDone begin end d = (d.1 ≡ finished) × (begin + length d.0 ≡ end)

    in_front-IsDone :
        (begin end : ℕ) (front : List GetEntriesItem) (d : List GetEntriesItem × Ending)
        → IsDone (begin + length front) end d
        → IsDone begin end (in_front stops front d)
    in_front-IsDone begin end front (items, ending) (f, n) =
        let l = length-append front items in (f, omega arith)

    download_entries-IsDone :
        (fuel begin end look : ℕ)
        → end - begin ≤ fuel
        → begin ≤ end
        → end ≤ log_size
        → end < 2 ^ 64
        → IsDone begin end (download_entries stops fetch fuel begin end look)
    unfolding download_entries
    download_entries-IsDone zero begin end look enough h held bound =
        let over : ltb begin end ≡ false = ground arith in rw (over, quiet look) (refl, omega arith)
    download_entries-IsDone (suc fuel) begin end look enough h held bound =
        elim (Bool-cases (ltb begin end)) [
          | inr over ↦ rw (over, quiet look) (refl, grind arith)
          | inl left ↦
              let before : begin < end = grind arith in
              let (low, high, inside) = in_order begin end before bound in
              let (entries, is) = answers begin _ low high (omega arith) in
              let (_, some_entries, few) =
                next_entries-ok log stops fetch honest begin end entries before bound is in
              let no_wrap : (begin + length entries) % 2 ^ 64 ≡ begin + length entries =
                omega arith in
              let later =
                download_entries-IsDone fuel (begin + length entries) end
                  (send_entries stops entries (look + 1)).1 (omega arith) few held bound in
              rw
                (
                  left,
                  quiet look,
                  is,
                  sends_all entries (look + 1),
                  no_wrap,
                  send_entries-all log stops entries (look + 1) (sends_all entries (look + 1)),
                )
                (in_front-IsDone begin end entries _ later)
        ]

    -- When the context is never done, the log gives an acceptable answer to every range of at
    -- most 1000 entries that it has, and its answers are its entries from the start of the range,
    -- `download_entries` finishes and has sent all entries from `begin` to `end` in order, if the
    -- log has these. As many rounds as there are entries are enough.
    pub download_entries_delivers :
        (fuel begin end look : ℕ)
        → end - begin ≤ fuel
        → begin ≤ end
        → end ≤ log_size
        → end < 2 ^ 64
        → download_entries stops fetch fuel begin end look
          ≡ (range log begin (end - begin), finished)
    download_entries_delivers fuel begin end look enough h held bound =
        let (done, count) = download_entries-IsDone fuel begin end look enough h held bound in
        let (_, e) = download_entries-IsRange log stops fetch honest fuel begin end look h bound in
        let n : length (download_entries stops fetch fuel begin end look).0 ≡ end - begin =
          omega arith in
        pair (e ∙ ap (range log begin) n) done
      where
        pair :
            {d : List GetEntriesItem × Ending} {items : List GetEntriesItem} {ending : Ending}
            → d.0 ≡ items
            → d.1 ≡ ending
            → d ≡ (items, ending)
        pair e f = cc
